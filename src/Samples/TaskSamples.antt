-- ===== src/Samples/TaskSamples.antt =====
-- storage/tasks.py and storage/waiters.py at concrete tables.
use agpair.Base.{true, false, ◌≡◌, ◌≢◌, refl, [], ◌∷◌, none, some, find_row}
use agpair.Models.{
  acked, blocked, stuck, new, evidence_ready, TaskRow, TaskRecord, TaskAttemptRecord,
}
use agpair.Result.{Error, ok, err}
use agpair.Options.Wait.{WaitBudget}
use agpair.Options.Environment.{ExecutorEnvironmentMetadata}
use agpair.Db.{Db, empty}
use agpair.Tasks.Select.{has_id, is_attempt, get_task, joined, task_from_row}
use agpair.Tasks.Create.{NewTask, Opening, open_attempt, new_row, create_task}
use agpair.Tasks.Mark.{
  may_move, mark_blocked, mark_stuck, mark_abandoned, acked_row, mark_acked,
  delete_terminal_older_than, count_terminal_older_than,
}
use agpair.Tasks.Retry.{Retry, apply_retry_dispatch, next_opening}
use agpair.Tasks.Calls.{Call, call, run}
use agpair.Tasks.Inserted.{inserted}
use agpair.Tasks.Consistent.{IsConsistent, insert-IsConsistent, empty-IsConsistent}
use agpair.Tasks.Moves.{Moves}
use agpair.Tasks.Steps.{call-follows_diagram}
use agpair.Tasks.Preserved.{run-IsConsistent, call-Keeps-IsConsistent}
use agpair.Tasks.Frame.{other_tasks_unchanged}
use agpair.Tasks.Outcome.{IsIn, mark_blocked-IsIn}
use agpair.Tasks.Attempts.{list_attempts}
use agpair.Tasks.Atomic.{call_error_unchanged}
use agpair.Tasks.Retried.{apply_retry_dispatch-opens}
use agpair.Tasks.Cleanup.{create_task-after_cleanup}

abbrev budget : WaitBudget
budget = record {
  task_kind = "generic";
  wait_policy = "terminal";
  controller_wait_seconds = none;
  execution_budget_seconds = none;
  background_ok = false;
}

abbrev opening : Opening
opening = record {
  executor_backend = some "codex";
  authorization_profile = "local_mutating";
  completion_policy = "auto";
  effective_policy_json = none;
  budget = budget;
  environment = record {
    environment_mode = "managed-natural";
    environment_mode_source = "executor_default";
    skill_policy = "inherit";
    mcp_policy = "inherit";
  };
  skill_policy = "inherit";
  mcp_policy = "inherit";
  dirty_snapshot_mode = "off";
}

abbrev new_task : NewTask
new_task = record {
  task_id = "TASK-1";
  repo_path = "/repo";
  client_idempotency_key = some "key";
  executor_backend = some "codex";
  depends_on = none;
  isolated_worktree = false;
  setup_commands = none;
  teardown_commands = none;
  env_vars = none;
  worktree_boundary = none;
  spotlight_testing = false;
  broad_repo_path_override = false;
  authorization_profile = "mutating";
  authorization_summary = none;
  completion_policy = "auto";
  task_kind = none;
  wait_policy = none;
  controller_wait_seconds = none;
  execution_budget_seconds = none;
  background_ok = none;
  effective_policy_json = none;
  environment_mode = none;
  environment_mode_source = none;
  skill_policy = none;
  mcp_policy = none;
  dirty_snapshot_mode = "off";
  workflow_id = none;
  workflow_node_id = none;
  parent_task_id = none;
  child_role = none;
  coordination_role = none;
}

abbrev row : TaskRow
row = new_row new_task opening none 100

abbrev first : TaskAttemptRecord
first = open_attempt "TASK-1" 1 opening 100

-- one task with its first attempt
abbrev pub db : Db
db = inserted row first empty

pub db-IsConsistent : IsConsistent db
db-IsConsistent = insert-IsConsistent row first empty refl refl refl refl refl empty-IsConsistent

created : create_task new_task 100 empty ≡ (ok tt, db)
unfolding create_task agpair.Db.◌>>=◌ agpair.Options.Profile.validate_authorization_profile
    agpair.Options.Completion.normalize_completion_policy
    agpair.Options.Role.normalize_coordination_role agpair.Options.Wait.resolve_wait_budget
    agpair.Options.Wait.normalize_task_kind agpair.Options.Wait.normalize_wait_policy
    agpair.Options.Environment.resolve_attempt_environment_metadata
    agpair.Options.Environment.resolve_environment_metadata agpair.Tasks.Create.insert_both
    agpair.Tasks.Create.insert_task agpair.Tasks.Create.insert_attempt
created = refl

-- Acking the new task moves it along the diagram.
acked_found :
    find_row (has_id "TASK-1") (call (Call.mark_acked "TASK-1" "S-1" 105) db).1.tasks
    ≡ some (acked_row "S-1" 105 row)
unfolding call mark_acked agpair.Db.◌>>=◌ agpair.Tasks.Mark.checked
    agpair.Tasks.Select.prepare_retry agpair.Tasks.Mark.check_transition agpair.Tasks.Mark.may_move
    joined task_from_row agpair.Tasks.Mark.update_task
acked_found = refl

call-follows_diagram_example : Moves row (acked_row "S-1" 105 row)
call-follows_diagram_example =
    call-follows_diagram db (Call.mark_acked "TASK-1" "S-1" 105) "TASK-1" row
      (acked_row "S-1" 105 row) db-IsConsistent refl acked_found

run-IsConsistent_example :
    IsConsistent
      (run (Call.create_task new_task 100 ∷ Call.mark_acked "TASK-1" "S-1" 105 ∷ []) empty)
run-IsConsistent_example =
    run-IsConsistent (Call.create_task new_task 100 ∷ Call.mark_acked "TASK-1" "S-1" 105 ∷ [])

-- A new task is not evidence_ready.
too_early :
    (call (Call.mark_evidence_ready "TASK-1" none 105) db).0
    ≡ err (Error.illegal_transition "TASK-1" new evidence_ready)
unfolding call agpair.Tasks.Mark.mark_evidence_ready agpair.Db.◌>>=◌ agpair.Tasks.Mark.checked
    agpair.Tasks.Select.prepare_retry agpair.Tasks.Mark.check_transition agpair.Tasks.Mark.may_move
    joined task_from_row
too_early = refl

call_error_unchanged_example : (call (Call.mark_evidence_ready "TASK-1" none 105) db).1 ≡ db
call_error_unchanged_example =
    call_error_unchanged (Call.mark_evidence_ready "TASK-1" none 105) db
      (Error.illegal_transition "TASK-1" new evidence_ready) too_early

abbrev retry : Retry
retry = record {
  task_id = "TASK-1";
  executor_backend = none;
  authorization_profile = none;
  authorization_summary = none;
  completion_policy = none;
  task_kind = none;
  wait_policy = none;
  controller_wait_seconds = none;
  execution_budget_seconds = none;
  background_ok = none;
  effective_policy_json = none;
  environment_mode = none;
  environment_mode_source = none;
  skill_policy = none;
  mcp_policy = none;
  dirty_snapshot_mode = "off";
}

abbrev pub task : TaskRecord
task = record { row = row; executor_session_id = none }

pub task_found : get_task "TASK-1" db ≡ some task
unfolding get_task joined task_from_row agpair.Options.Completion.normalize_completion_policy
    agpair.Options.Profile.validate_authorization_profile
task_found = refl

valid_retry : next_opening retry task ≡ ok opening
unfolding next_opening agpair.Options.Profile.validate_authorization_profile
    agpair.Options.Completion.normalize_completion_policy agpair.Tasks.Retry.next_wait_budget
    agpair.Tasks.Retry.preserved_wait_budget agpair.Options.Wait.normalize_task_kind
    agpair.Options.Wait.normalize_wait_policy
    agpair.Options.Environment.resolve_attempt_environment_metadata
    agpair.Options.Environment.resolve_environment_metadata
valid_retry = refl

apply_retry_dispatch-opens_example :
    (u : TaskRecord) × ((apply_retry_dispatch retry 110 db).0 ≡ ok u)
    × (get_task "TASK-1" (apply_retry_dispatch retry 110 db).1 ≡ some u)
    × (u.phase ≡ new)
    × (u.attempt_no ≡ 2)
    × (u.retry_count ≡ 1)
    × (u.executor_session_id ≡ none)
    × (find_row (is_attempt "TASK-1" u.attempt_no) (apply_retry_dispatch retry 110 db).1.attempts
        ≡ some (open_attempt "TASK-1" u.attempt_no opening 110))
apply_retry_dispatch-opens_example =
    apply_retry_dispatch-opens retry 110 db task opening db-IsConsistent task_found valid_retry

create_task-after_cleanup_example :
    (create_task new_task 500 (delete_terminal_older_than 400 db).1).0 ≢ ok tt
create_task-after_cleanup_example =
    create_task-after_cleanup new_task 500 400 db row tt db-IsConsistent refl

other_tasks_unchanged_example :
    (get_task "TASK-2" (call (Call.mark_acked "TASK-1" "S-1" 105) db).1 ≡ get_task "TASK-2" db)
    × (list_attempts "TASK-2" (call (Call.mark_acked "TASK-1" "S-1" 105) db).1
        ≡ list_attempts "TASK-2" db)
other_tasks_unchanged_example =
    other_tasks_unchanged (Call.mark_acked "TASK-1" "S-1" 105) "TASK-2" db refl

pub may_block : may_move new blocked ≡ true
unfolding may_move
may_block = refl

mark_blocked-IsIn_example :
    ((mark_blocked "TASK-1" (some "no auth") none none none 110 111 db).0 ≡ ok tt)
    × IsIn "TASK-1" 1 blocked (mark_blocked "TASK-1" (some "no auth") none none none 110 111 db).1
mark_blocked-IsIn_example =
    mark_blocked-IsIn "TASK-1" task db (some "no auth") none none none 110 111 db-IsConsistent
      task_found may_block

abbrev pub acked_db : Db
acked_db = (call (Call.mark_acked "TASK-1" "S-1" 105) db).1

pub acked_db-IsConsistent : IsConsistent acked_db
acked_db-IsConsistent =
    (call-Keeps-IsConsistent (Call.mark_acked "TASK-1" "S-1" 105)).at db db-IsConsistent

abbrev pub acked_task : TaskRecord
acked_task = record { row = acked_row "S-1" 105 row; executor_session_id = some "S-1" }

acked_task_found : get_task "TASK-1" acked_db ≡ some acked_task
unfolding call mark_acked get_task agpair.Db.◌>>=◌ agpair.Tasks.Mark.checked
    agpair.Tasks.Select.prepare_retry agpair.Tasks.Mark.check_transition may_move joined
    task_from_row agpair.Tasks.Mark.update_task
    agpair.Options.Completion.normalize_completion_policy
    agpair.Options.Profile.validate_authorization_profile
acked_task_found = refl

may_stick : may_move acked stuck ≡ true
unfolding may_move
may_stick = refl
