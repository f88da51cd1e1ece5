-- ===== src/Waiters/Reach.antt =====
-- storage/waiters.py with storage/tasks.py: the databases that calls of both repositories reach.
use agpair.Base.{ℕ, String, refl, inl, inr, any, Bool-cases}
use agpair.Models.{TaskRow, TaskAttemptRecord}
use agpair.Db.{Db, empty}
use agpair.Db.Rules.{Keeps, Keeps-bind, Keeps-transaction, Keeps-of_Reads, Reads-pure, reads_rules}
use agpair.Tasks.Select.{has_id, is_attempt}
use agpair.Tasks.Attempts.{
  record_attempt_terminal, update_attempt_adoption, update_attempt_dirty_snapshot, record_artifact,
  update_attempt,
}
use agpair.Tasks.Create.{create_task, insert_both, insert_attempt}
use agpair.Tasks.Mark.{
  update_task, mark_acked, mark_evidence_ready, mark_ready_for_review, mark_blocked, mark_committed,
  mark_approved, mark_stuck, mark_abandoned, delete_terminal_older_than,
}
use agpair.Tasks.Fields.{
  record_heartbeat, update_workspace_activity, clear_session_id, set_execution_repo_path,
  recommend_retry,
}
use agpair.Tasks.Retry.{apply_retry_dispatch, reopen}
use agpair.Tasks.Inserted.{insert_both_cases}
use agpair.Tasks.Calls.{Call, call}
use agpair.Tasks.Atomic.{Reads-prepare_retry, Reads-checked}
use agpair.Waiters.{
  has_waiter_id, waits_for, new_waiter, start_waiter, update_poll, polled, finalize, finalized,
}
use agpair.Waiters.Active.{OneActive, OneActive-delete, OneActive-update, OneActive-insert}

-- one call of a method of `TaskRepository` or `WaiterRepository`, by any process
pub data Step (db : Db) : Db → Type 0 where
  task_call : (c : Call) → Step db (call c db).1
  start :
      (waiter_id task_id command : String) (now : ℕ)
      → Step db (start_waiter waiter_id task_id command now db).1
  poll : (waiter_id : String) (now : ℕ) → Step db (update_poll waiter_id now db).1
  finish : (waiter_id outcome : String) (now : ℕ) → Step db (finalize waiter_id outcome now db).1

pub data Reachable : Db → Type 0 where
  initially : Reachable empty
  afterwards : {db after : Db} → Reachable db → Step db after → Reachable after

abbrev Good : Db → Type 0
Good db = OneActive db.waiters

update_task-Keeps : (i : String) (f : TaskRow → TaskRow) → Keeps Good (update_task i f)
unfolding update_task
update_task-Keeps i f = record {
  at = λ db h. elim (Bool-cases (any (has_id i) db.tasks)) [ inl y ↦ rw y h | inr n ↦ rw n h ];
}

update_attempt-Keeps :
    (i : String) (n : ℕ) (f : TaskAttemptRecord → TaskAttemptRecord)
    → Keeps Good (update_attempt i n f)
update_attempt-Keeps i n f = record { at = λ db h. h }

insert_both-Keeps : (r : TaskRow) (a : TaskAttemptRecord) → Keeps Good (insert_both r a)
insert_both-Keeps r a = record {
  at = λ db h. elim (insert_both_cases r a db) [ inl (f, e) ↦ rw e h | inr e ↦ rw e h ];
}

insert_attempt-Keeps : (a : TaskAttemptRecord) → Keeps Good (insert_attempt a)
unfolding insert_attempt
insert_attempt-Keeps a = record {
  at = λ db h. elim (Bool-cases (any (is_attempt a.task_id a.attempt_no) db.attempts)) [
    | inl y ↦ rw y h
    | inr n ↦ rw n h
  ];
}

ruleset keeps_rules = (
  Keeps-bind, Keeps-transaction, update_task-Keeps, update_attempt-Keeps, insert_both-Keeps,
  insert_attempt-Keeps, Keeps-of_Reads, Reads-checked, Reads-prepare_retry, reads_rules,
)

call-Keeps : (c : Call) → Keeps Good (call c)
unfolding call reopen create_task mark_acked mark_evidence_ready mark_ready_for_review mark_blocked
    mark_committed mark_approved mark_stuck mark_abandoned record_heartbeat
    update_workspace_activity clear_session_id set_execution_repo_path recommend_retry
    record_attempt_terminal update_attempt_adoption update_attempt_dirty_snapshot record_artifact
    apply_retry_dispatch delete_terminal_older_than
call-Keeps (Call.apply_retry_dispatch a now) = search keeps_rules depth 9
call-Keeps (Call.delete_terminal_older_than cutoff) =
    Keeps-bind _ _ (record { at = λ db h. OneActive-delete _ db.waiters h })
      (λ _. Keeps-of_Reads _ (Reads-pure tt))
call-Keeps (Call.record_artifact i n t p size digest now) = record { at = λ db h. h }
call-Keeps _ = search keeps_rules depth 8

start-Good : (w t c : String) (now : ℕ) (db : Db) → Good db → Good (start_waiter w t c now db).1
unfolding start_waiter
start-Good w t c now db h = elim (Bool-cases (any (has_waiter_id w) db.waiters)) [
  | inl y ↦ rw y h
  | inr n ↦ elim (Bool-cases (any (waits_for t) db.waiters)) [
    | inl y ↦ rw (n, y) h
    | inr m ↦ rw (n, m) (OneActive-insert db.waiters (new_waiter w t c now) m h)
  ]
]

Step-Good : {db after : Db} → Step db after → Good db → Good after
unfolding update_poll finalize
Step-Good {db = db} (Step.task_call c) h = (call-Keeps c).at db h
Step-Good {db = db} (Step.start w t c now) h = start-Good w t c now db h
Step-Good {db = db} (Step.poll w now) h =
    OneActive-update (has_waiter_id w) (polled now) db.waiters (λ v. refl) (λ v n. n) h
Step-Good {db = db} (Step.finish w outcome now) h =
    OneActive-update (has_waiter_id w) (finalized outcome now) db.waiters (λ v. refl) (λ v n. refl)
      h

-- In every database that calls of the two repositories reach from the empty one, failed calls among
-- them, no two active waiters are of one task.
pub Reachable-OneActive : (db : Db) → Reachable db → OneActive db.waiters
Reachable-OneActive db Reachable.initially = tt
Reachable-OneActive db (Reachable.afterwards r s) = Step-Good s (Reachable-OneActive _ r)
