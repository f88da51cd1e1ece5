-- ===== src/Tasks/Calls.antt =====
-- The calls that change tasks, attempts and artifacts, as data, so that a statement can range over
-- every method and every sequence of them. Each constructor holds a method's arguments, times last.
use agpair.Base.{ℕ, String, Bool, List, [], ◌∷◌, Option}
use agpair.Models.{Phase}
use agpair.Db.{Db, Exec, ◌>>◌, pure}
use agpair.Tasks.Attempts
use agpair.Tasks.Create.{NewTask}
use agpair.Tasks.Create
use agpair.Tasks.Mark
use agpair.Tasks.Fields
use agpair.Tasks.Retry.{Retry}
use agpair.Tasks.Retry

pub data Call : Type 0 where
  create_task : NewTask → ℕ → Call
  mark_acked : String → String → ℕ → Call
  mark_evidence_ready : String → Option String → ℕ → Call
  mark_ready_for_review : String → Option String → Option String → Option String → ℕ → Call
  mark_blocked :
      String → Option String → Option String → Option String → Option String → ℕ → ℕ → Call
  mark_committed : String → Option String → Option String → ℕ → Call
  mark_approved : String → ℕ → Call
  mark_stuck : String → String → ℕ → ℕ → Call
  mark_abandoned : String → String → ℕ → ℕ → Call
  delete_terminal_older_than : ℕ → Call
  record_heartbeat : String → Option ℕ → ℕ → Call
  update_workspace_activity : String → ℕ → ℕ → Call
  clear_session_id : String → ℕ → Call
  set_execution_repo_path : String → Option String → ℕ → Call
  recommend_retry : String → Option ℕ → ℕ → Call
  apply_retry_dispatch : Retry → ℕ → Call
  record_attempt_terminal :
      String → ℕ → Phase → Option String → Option String → Option String → ℕ → Call
  update_attempt_adoption : String → ℕ → String → String → String → String → String → ℕ → Call
  update_attempt_dirty_snapshot : String → ℕ → String → String → Bool → ℕ → Call
  record_artifact : String → ℕ → String → String → Option ℕ → Option String → ℕ → Call

-- the method that a call names, its result dropped
unfoldable pub call : Call → Exec (Unit {0})
call (create_task a now) = Create.create_task a now
call (mark_acked i s now) = Mark.mark_acked i s now
call (mark_evidence_ready i r now) = Mark.mark_evidence_ready i r now
call (mark_ready_for_review i r s j now) = Mark.mark_ready_for_review i r s j now
call (mark_blocked i why r s j now later) = Mark.mark_blocked i why r s j now later
call (mark_committed i r s now) = Mark.mark_committed i r s now
call (mark_approved i now) = Mark.mark_approved i now
call (mark_stuck i why now later) = Mark.mark_stuck i why now later
call (mark_abandoned i why now later) = Mark.mark_abandoned i why now later
call (delete_terminal_older_than cutoff) = Mark.delete_terminal_older_than cutoff >> pure tt
call (record_heartbeat i at now) = Fields.record_heartbeat i at now
call (update_workspace_activity i at now) = Fields.update_workspace_activity i at now
call (clear_session_id i now) = Fields.clear_session_id i now
call (set_execution_repo_path i p now) = Fields.set_execution_repo_path i p now
call (recommend_retry i n now) = Fields.recommend_retry i n now
call (apply_retry_dispatch a now) = Retry.apply_retry_dispatch a now >> pure tt
call (record_attempt_terminal i n p j s e now) = Attempts.record_attempt_terminal i n p j s e now
call (update_attempt_adoption i n w e a v r now) =
    Attempts.update_attempt_adoption i n w e a v r now
call (update_attempt_dirty_snapshot i n m s b now) =
    Attempts.update_attempt_dirty_snapshot i n m s b now
call (record_artifact i n t p size digest now) = Attempts.record_artifact i n t p size digest now

-- The database after the calls; one that raises does not stop the next caller.
unfoldable pub run : List Call → Db → Db
run [] db = db
run (c ∷ cs) db = run cs (call c db).1
