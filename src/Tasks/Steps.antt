-- ===== src/Tasks/Steps.antt =====
-- The state diagram, for every call.
use agpair.Base.{String, ◌≡◌, refl, some, find_row}
use agpair.Models.{TaskRow}
use agpair.Db.{Db, pure}
use agpair.Db.Rules.{bind_Keeps, Keeps-of_Reads, Reads-pure}
use agpair.Tasks.Select.{has_id}
use agpair.Tasks.Attempts.{
  record_attempt_terminal, update_attempt_adoption, update_attempt_dirty_snapshot, record_artifact,
}
use agpair.Tasks.Mark.{delete_terminal_older_than}
use agpair.Tasks.Fields.{
  record_heartbeat, update_workspace_activity, clear_session_id, set_execution_repo_path,
  recommend_retry,
}
use agpair.Tasks.Retry.{apply_retry_dispatch}
use agpair.Tasks.Calls.{Call, call}
use agpair.Tasks.Consistent.{IsConsistent}
use agpair.Tasks.Moves.{Moves, AllMove, AllMove-same}
use agpair.Tasks.Diagram.{
  column, mark_acked-AllMove, mark_evidence_ready-AllMove, mark_ready_for_review-AllMove,
  mark_blocked-AllMove, mark_committed-AllMove, mark_stuck-AllMove, mark_abandoned-AllMove,
  mark_approved-AllMove, create_task-AllMove, apply_retry_dispatch-AllMove, delete-AllMove,
}

call-AllMove : (db : Db) (c : Call) → IsConsistent db → AllMove db (call c db).1
unfolding call record_heartbeat update_workspace_activity clear_session_id set_execution_repo_path
    recommend_retry record_attempt_terminal update_attempt_adoption update_attempt_dirty_snapshot
    record_artifact
call-AllMove db (Call.create_task a now) h = create_task-AllMove db a now
call-AllMove db (Call.mark_acked i s now) h = mark_acked-AllMove db i s now
call-AllMove db (Call.mark_evidence_ready i r now) h = mark_evidence_ready-AllMove db i r now
call-AllMove db (Call.mark_ready_for_review i r s j now) h =
    mark_ready_for_review-AllMove db i r s j now
call-AllMove db (Call.mark_blocked i why r s j now later) h =
    mark_blocked-AllMove db i why r s j now later
call-AllMove db (Call.mark_committed i r s now) h = mark_committed-AllMove db i r s now
call-AllMove db (Call.mark_approved i now) h = mark_approved-AllMove db i now
call-AllMove db (Call.mark_stuck i why now later) h = mark_stuck-AllMove db i why now later
call-AllMove db (Call.mark_abandoned i why now later) h = mark_abandoned-AllMove db i why now later
call-AllMove db (Call.delete_terminal_older_than cutoff) h =
    bind_Keeps (AllMove db) (delete_terminal_older_than cutoff) (λ _. pure tt) db
      (delete-AllMove db cutoff h) (λ _. Keeps-of_Reads _ (Reads-pure tt))
call-AllMove db (Call.record_heartbeat i at now) h =
    column db i _ (λ r. refl) (λ r. refl) (λ r. refl)
call-AllMove db (Call.update_workspace_activity i at now) h =
    column db i _ (λ r. refl) (λ r. refl) (λ r. refl)
call-AllMove db (Call.clear_session_id i now) h = column db i _ (λ r. refl) (λ r. refl) (λ r. refl)
call-AllMove db (Call.set_execution_repo_path i p now) h =
    column db i _ (λ r. refl) (λ r. refl) (λ r. refl)
call-AllMove db (Call.recommend_retry i n now) h = column db i _ (λ r. refl) (λ r. refl) (λ r. refl)
call-AllMove db (Call.apply_retry_dispatch a now) h =
    bind_Keeps (AllMove db) (apply_retry_dispatch a now) (λ _. pure tt) db
      (apply_retry_dispatch-AllMove db a now) (λ _. Keeps-of_Reads _ (Reads-pure tt))
call-AllMove db _ h = AllMove-same db _ refl

-- Whatever the call, and whether it returns or raises: if the tables are consistent, the row of a
-- task that is there before and after it has the same phase and attempt, or has moved within its
-- attempt along an arrow of the state diagram, or is at the start of the next attempt, with one
-- retry more.
pub call-follows_diagram :
    (db : Db) (c : Call) (i : String) (r s : TaskRow)
    → IsConsistent db
    → find_row (has_id i) db.tasks ≡ some r
    → find_row (has_id i) (call c db).1.tasks ≡ some s
    → Moves r s
call-follows_diagram db c i r s h = (call-AllMove db c h).row i r s
