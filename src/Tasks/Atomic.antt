-- ===== src/Tasks/Atomic.antt =====
-- A method that raises has written nothing.
use agpair.Base.{Option, some, ℕ, String, ◌≡◌, refl}
use agpair.Models.{Phase, TaskRow}
use agpair.Result.{ok, Error, err}
use agpair.Db.{require_some, Db, ◌>>=◌}
use agpair.Db.Rules.{
  IsAtomic-modify, Reads, IsAtomic, IsAtomic-transaction, IsAtomic-bind, IsAtomic-bind-Returns,
  Returns-modify, IsAtomic-bind-ok, Reads-lift, Reads-require_some, Reads-lift, reads_rules,
}
use agpair.Tasks.Select.{prepare_retry, get_task}
use agpair.Tasks.Attempts.{
  record_attempt_terminal, update_attempt_adoption, update_attempt_dirty_snapshot, record_artifact,
}
use agpair.Tasks.Create.{Opening, create_task, insert_both}
use agpair.Tasks.Mark.{
  check_transition, checked, update_task, mark_acked, mark_evidence_ready, mark_ready_for_review,
  mark_blocked, mark_committed, mark_approved, mark_stuck, mark_abandoned,
  delete_terminal_older_than,
}
use agpair.Tasks.Fields.{
  record_heartbeat, update_workspace_activity, clear_session_id, set_execution_repo_path,
  recommend_retry,
}
use agpair.Tasks.Reopen.{reopened_task}
use agpair.Tasks.Retry.{next_opening, Retry, apply_retry_dispatch, reopen}
use agpair.Tasks.Calls.{Call, call}

pub Reads-prepare_retry : (i : String) → Reads (prepare_retry i)
unfolding prepare_retry
Reads-prepare_retry i = record { at = λ db. (Reads-require_some (get_task i db) _).at db }

pub Reads-checked : (i : String) (target : Phase) → Reads (checked i target)
unfolding checked check_transition
Reads-checked i target = search (reads_rules, Reads-prepare_retry)

IsAtomic-update_task : (i : String) (f : TaskRow → TaskRow) → IsAtomic (update_task i f)
unfolding update_task
IsAtomic-update_task i f = IsAtomic-transaction _

ruleset atomic_rules = (
  IsAtomic-modify, IsAtomic-bind, IsAtomic-bind-Returns, IsAtomic-transaction, IsAtomic-update_task,
  Returns-modify, Reads-checked, Reads-prepare_retry, Reads-lift,
)

required :
    {A : Type 0} (o : Option A) (e : Error) (db : Db)
    → (a : A) × (o ≡ some a)
    → (a : A) × ((require_some o e db).0 ≡ ok a)
required o e db (a, p) = (a, rw p)

IsAtomic-reopen :
    (i : String) (n k : ℕ) (o : Opening) (summary : String) (now : ℕ)
    → IsAtomic (reopen i n k o summary now)
unfolding reopen
IsAtomic-reopen i n k o summary now = IsAtomic-transaction _

IsAtomic-apply_retry_dispatch : (a : Retry) (now : ℕ) → IsAtomic (apply_retry_dispatch a now)
unfolding apply_retry_dispatch ◌>>=◌
IsAtomic-apply_retry_dispatch a now = IsAtomic-bind _ _ (Reads-prepare_retry a.task_id) λ task.
    IsAtomic-bind _ _ (Reads-lift (next_opening a task)) λ o.
      IsAtomic-bind-ok _ _ (IsAtomic-reopen _ _ _ _ _ _)
        λ db u h. required _ Error.assertion_error _ (reopened_task _ _ _ o _ now db h)

call-IsAtomic : (c : Call) → IsAtomic (call c)
unfolding call create_task mark_acked mark_evidence_ready mark_ready_for_review mark_blocked
    mark_committed mark_approved mark_stuck mark_abandoned delete_terminal_older_than
    record_heartbeat update_workspace_activity clear_session_id set_execution_repo_path
    recommend_retry apply_retry_dispatch record_attempt_terminal update_attempt_adoption
    update_attempt_dirty_snapshot record_artifact insert_both reopen
call-IsAtomic (Call.apply_retry_dispatch a now) =
    IsAtomic-bind-Returns _ _ (IsAtomic-apply_retry_dispatch a now)
      (λ _. record { at = λ db. (tt, refl) })
call-IsAtomic _ = search (atomic_rules) depth 7

-- A call that raises leaves the database as it was.
pub call_error_unchanged :
    (c : Call) (db : Db) (e : Error) → (call c db).0 ≡ err e → (call c db).1 ≡ db
call_error_unchanged c db e h = (call-IsAtomic c).at db e h
