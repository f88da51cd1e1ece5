-- ===== src/Tasks/Fields.antt =====
-- storage/tasks.py: the methods that write a column or two and leave the phase.
use agpair.Base.{ℕ, String, true, Option, none, some}
use agpair.Models.{TaskRow}
use agpair.Db.{Exec}
use agpair.Tasks.Mark.{update_task}

abbrev at_or : Option ℕ → ℕ → ℕ
at_or none now = now
at_or (some t) now = t

unfoldable pub record_heartbeat : String → Option ℕ → ℕ → Exec (Unit {0})
record_heartbeat task_id heartbeat_at now =
    let at = at_or heartbeat_at now in
    update_task task_id λ r. record r { last_heartbeat_at = some at; updated_at = at }

unfoldable pub update_workspace_activity : String → ℕ → ℕ → Exec (Unit {0})
update_workspace_activity task_id activity_at now =
    update_task task_id
      λ r. record r { last_workspace_activity_at = some activity_at; updated_at = now }

unfoldable pub clear_session_id : String → ℕ → Exec (Unit {0})
clear_session_id task_id now =
    update_task task_id λ r. record r { antigravity_session_id = none; updated_at = now }

unfoldable pub set_execution_repo_path : String → Option String → ℕ → Exec (Unit {0})
set_execution_repo_path task_id execution_repo_path now =
    update_task task_id
      λ r. record r { execution_repo_path = execution_repo_path; updated_at = now }

abbrev pub advised_row : Option ℕ → ℕ → TaskRow → TaskRow
advised_row retry_count now r = record r {
  retry_recommended = true;
  retry_count = at_or retry_count r.retry_count;
  updated_at = now;
}

unfoldable pub recommend_retry : String → Option ℕ → ℕ → Exec (Unit {0})
recommend_retry task_id retry_count now = update_task task_id (advised_row retry_count now)
