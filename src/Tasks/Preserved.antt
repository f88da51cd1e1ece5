-- ===== src/Tasks/Preserved.antt =====
-- Every call keeps the tables consistent, whether it returns or raises.
use agpair.Base.{
  ℕ, ◌+◌, ◌≤◌, String, ◌≡◌, refl, ap, sym, ◌∙◌, inl, inr, List, [], ◌∷◌, some, arith, any, find_row,
  Bool-cases, Option-cases,
}
use agpair.Base.Members.{any_of_find}
use agpair.Models.{TaskRow, TaskRecord, TaskAttemptRecord}
use agpair.Db.{Db, empty}
use agpair.Db.Rules.{
  lift_bind, bind_Keeps, Reads-bind, Reads-gets, Reads-require_some, Keeps, Keeps-bind,
  Keeps-transaction, Keeps-of_Reads, Reads-lift, Reads-pure,
}
use agpair.Tasks.Select.{get_task, has_id, is_attempt, joined}
use agpair.Tasks.Attempts.{
  update_attempt, record_attempt_terminal, update_attempt_adoption, update_attempt_dirty_snapshot,
  record_artifact,
}
use agpair.Tasks.Create.{create_task, insert_both, Opening, open_attempt}
use agpair.Tasks.Mark.{
  update_task, mark_acked, mark_evidence_ready, mark_ready_for_review, mark_blocked, mark_committed,
  mark_approved, mark_stuck, mark_abandoned, is_old, delete_terminal_older_than,
}
use agpair.Tasks.Fields.{
  record_heartbeat, update_workspace_activity, clear_session_id, set_execution_repo_path,
  recommend_retry,
}
use agpair.Tasks.Retry.{Retry, apply_retry_dispatch, reopen, next_opening, reset_row}
use agpair.Tasks.Calls.{Call, call, run}
use agpair.Tasks.Atomic.{Reads-prepare_retry, Reads-checked}
use agpair.Tasks.Found.{get_task-found, joined_fields, prepare_retry_bind, prepare_retry_bind_some}
use agpair.Tasks.Inserted.{insert_both_cases}
use agpair.Tasks.Reopen.{reopen_lem, reopen_twice}
use agpair.Tasks.Consistent.{
  IsConsistent, update_tasks-IsConsistent, update_attempts-IsConsistent, delete_tasks-IsConsistent,
  insert-IsConsistent, reopen-IsConsistent, empty-IsConsistent, find_of_mem,
}

update_task-Keeps :
    (i : String) (f : TaskRow → TaskRow)
    → ((r : TaskRow) → (f r).task_id ≡ r.task_id)
    → ((r : TaskRow) → (f r).attempt_no ≡ r.attempt_no)
    → Keeps IsConsistent (update_task i f)
unfolding update_task
update_task-Keeps i f same_id same_no = record {
  at = λ db c. elim (Bool-cases (any (has_id i) db.tasks)) [
    | inl known ↦ rw known (update_tasks-IsConsistent (has_id i) f db same_id same_no c)
    | inr unknown ↦ rw unknown c
  ];
}

update_attempt-Keeps :
    (i : String) (n : ℕ) (f : TaskAttemptRecord → TaskAttemptRecord)
    → ((a : TaskAttemptRecord) → (f a).task_id ≡ a.task_id)
    → ((a : TaskAttemptRecord) → (f a).attempt_no ≡ a.attempt_no)
    → Keeps IsConsistent (update_attempt i n f)
update_attempt-Keeps i n f same_id same_no = record {
  at = λ db. update_attempts-IsConsistent (is_attempt i n) f db same_id same_no;
}

insert_both-Keeps :
    (r : TaskRow) (a : TaskAttemptRecord)
    → r.attempt_no ≡ 1
    → a.task_id ≡ r.task_id
    → a.attempt_no ≡ 1
    → Keeps IsConsistent (insert_both r a)
insert_both-Keeps r a r1 same a1 = record {
  at = λ db c. elim (insert_both_cases r a db) [
    | inr refused ↦ rw refused c
    | inl (f, e) ↦
        rw e
          (insert-IsConsistent r a db r1 same a1 f.id (let h = f.attempt in rw (same, a1) at h) c)
  ];
}

reopen-Keeps :
    (a : Retry) (t : TaskRecord) (o : Opening) (summary : String) (k now : ℕ) (db : Db)
    → get_task a.task_id db ≡ some t
    → IsConsistent db
    → IsConsistent (reopen a.task_id (t.attempt_no + 1) k o summary now db).1
reopen-Keeps a t o summary k now db found c =
    let (r, e, same) = get_task-found a.task_id db found in
    let known = any_of_find (has_id a.task_id) db.tasks e in
    let n = t.attempt_no + 1 in
    elim (Bool-cases (any (is_attempt a.task_id n) db.attempts)) [
      | inl old ↦ rw (reopen_twice a.task_id n k o summary now db known old) c
      | inr fresh ↦ rw (reopen_lem a.task_id n k o summary now db known fresh) (
          reopen-IsConsistent a.task_id n (reset_row n k o summary now)
            (open_attempt a.task_id n o now) db (λ s. refl) (λ s. refl) refl refl
            (λ s m mine. grows t s r same e (find_of_mem db.tasks s a.task_id c.unique m mine))
            known c)
    ]
  where
    row_no : {r s : TaskRow} → some r ≡ some s → s.attempt_no ≡ r.attempt_no
    row_no e = cc

    grows :
        (t : TaskRecord) (s r : TaskRow)
        → t ≡ joined db.attempts r
        → find_row (has_id a.task_id) db.tasks ≡ some r
        → find_row (has_id a.task_id) db.tasks ≡ some s
        → s.attempt_no ≤ t.attempt_no + 1
    grows t s r same e f =
        omega (arith, ap (λ x. x.attempt_no) same, (joined_fields db r).1, row_no (sym e ∙ f))

-- The invariant speaks of two tables only.
same_tables :
    (db after : Db)
    → after.tasks ≡ db.tasks
    → after.attempts ≡ db.attempts
    → IsConsistent db
    → IsConsistent after
same_tables db after p q c = record {
  unique = rw p c.unique;
  current_exists = rw (p, q) c.current_exists;
  latest = rw (p, q) c.latest;
  first_exists = rw q c.first_exists;
}

delete-Keeps : (cutoff : ℕ) → Keeps IsConsistent (delete_terminal_older_than cutoff)
unfolding delete_terminal_older_than
delete-Keeps cutoff = record {
  at = λ db c. same_tables _ _ refl refl (delete_tasks-IsConsistent (is_old cutoff) db c);
}

apply_retry_dispatch-Keeps : (a : Retry) (now : ℕ) → Keeps IsConsistent (apply_retry_dispatch a now)
unfolding apply_retry_dispatch
apply_retry_dispatch-Keeps a now = record {
  at = λ db c. elim (Option-cases (get_task a.task_id db)) [
    | inl missing ↦ rw (prepare_retry_bind a.task_id _ db missing) c
    | inr (t, found) ↦ rw (prepare_retry_bind_some a.task_id _ db found) (
        lift_bind IsConsistent (next_opening a t) _ db c (λ o.
          bind_Keeps IsConsistent _ _ db (reopen-Keeps a t o _ (t.retry_count + 1) now db found c)
            (λ _. Keeps-of_Reads _ (Reads-bind _ _ (Reads-gets _) (λ o. Reads-require_some o _)))))
  ];
}

ruleset keeps_rules = (
  Keeps-bind, Keeps-transaction, update_task-Keeps, update_attempt-Keeps, insert_both-Keeps,
  Keeps-of_Reads, Reads-checked, Reads-prepare_retry, Reads-lift,
)

pub call-Keeps-IsConsistent : (c : Call) → Keeps IsConsistent (call c)
unfolding call create_task mark_acked mark_evidence_ready mark_ready_for_review mark_blocked
    mark_committed mark_approved mark_stuck mark_abandoned record_heartbeat
    update_workspace_activity clear_session_id set_execution_repo_path recommend_retry
    record_attempt_terminal update_attempt_adoption update_attempt_dirty_snapshot record_artifact
call-Keeps-IsConsistent (Call.apply_retry_dispatch a now) =
    Keeps-bind _ _ (apply_retry_dispatch-Keeps a now) (λ _. Keeps-of_Reads _ (Reads-pure tt))
call-Keeps-IsConsistent (Call.delete_terminal_older_than cutoff) =
    Keeps-bind _ _ (delete-Keeps cutoff) (λ _. Keeps-of_Reads _ (Reads-pure tt))
call-Keeps-IsConsistent (Call.record_artifact i n t p size digest now) = record {
  at = λ db c. same_tables db _ refl refl c;
}
call-Keeps-IsConsistent _ = search keeps_rules depth 8

run-Keeps : (cs : List Call) (db : Db) → IsConsistent db → IsConsistent (run cs db)
unfolding run
run-Keeps [] db c = c
run-Keeps (x ∷ cs) db c = run-Keeps cs (call x db).1 ((call-Keeps-IsConsistent x).at db c)

-- After any calls on an empty database, failed ones among them, the ids of the tasks are unique,
-- every task has its current attempt, none of its attempts is later, and each has a first one.
pub run-IsConsistent : (cs : List Call) → IsConsistent (run cs empty)
run-IsConsistent cs = run-Keeps cs empty empty-IsConsistent
