-- ===== src/Tasks/Retry.antt =====
-- storage/tasks.py: `apply_retry_dispatch`, which opens the next attempt of a task.
use agpair.Base.{
  ℕ, ◌+◌, String, Bool, true, false, ◌||◌, Option, none, some, if◌then◌else◌, or_default, or_option,
}
use agpair.Base.Signed.{Seconds, stored}
use agpair.Models.{Phase, TaskRow, TaskRecord}
use agpair.Result
use agpair.Result.{Error, Result, ok}
use agpair.Options.Profile.{validate_authorization_profile, authorization_profile_summary}
use agpair.Options.Completion.{normalize_completion_policy}
use agpair.Options.Wait.{
  WaitBudget, resolve_wait_budget, normalize_task_kind, normalize_wait_policy,
}
use agpair.Options.Environment.{resolve_attempt_environment_metadata}
use agpair.Db.{Exec, ◌>>=◌, ◌>>◌, lift, gets, transaction, require_some}
use agpair.Tasks.Select.{prepare_retry, get_task}
use agpair.Tasks.Attempts.{coalesce}
use agpair.Tasks.Create.{Opening, open_attempt, insert_attempt}
use agpair.Tasks.Mark.{update_task}

-- the keyword arguments of `apply_retry_dispatch`
pub record Retry : Type 0 where
  pub task_id : String
  pub executor_backend : Option String
  pub authorization_profile : Option String
  pub authorization_summary : Option String
  pub completion_policy : Option String
  pub task_kind : Option String
  pub wait_policy : Option String
  pub controller_wait_seconds : Option Seconds
  pub execution_budget_seconds : Option Seconds
  pub background_ok : Option Bool
  pub effective_policy_json : Option String
  pub environment_mode : Option String
  pub environment_mode_source : Option String
  pub skill_policy : Option String
  pub mcp_policy : Option String
  pub dirty_snapshot_mode : String

-- `_preserved_wait_budget`
unfoldable pub preserved_wait_budget : TaskRecord → Result WaitBudget
preserved_wait_budget task = Result.◌>>=◌ (normalize_task_kind (some task.task_kind)) λ kind.
    Result.◌>>=◌ (normalize_wait_policy (some task.wait_policy) (some task.task_kind)) λ policy.
      ok (record {
        task_kind = kind;
        wait_policy = policy;
        controller_wait_seconds = task.controller_wait_seconds;
        execution_budget_seconds = task.execution_budget_seconds;
        background_ok = task.background_ok;
      })

abbrev given {ℓ} : {A : Type ℓ} → Option A → Bool
given none = false
given (some a) = true

unfoldable pub next_wait_budget : Retry → TaskRecord → Result WaitBudget
next_wait_budget a task =
    if given a.task_kind
      || given a.wait_policy
      || given a.controller_wait_seconds
      || given a.execution_budget_seconds
      || given a.background_ok
    then resolve_wait_budget (or_option a.task_kind (some task.task_kind))
        (or_option a.wait_policy (some task.wait_policy))
        (coalesce a.controller_wait_seconds task.controller_wait_seconds)
        (coalesce a.execution_budget_seconds task.execution_budget_seconds)
        (coalesce a.background_ok (some task.background_ok))
    else preserved_wait_budget task

-- UPDATE tasks
abbrev pub reset_row : ℕ → ℕ → Opening → String → ℕ → TaskRow → TaskRow
reset_row next_attempt next_retry_count o summary now r = record r {
  phase = Phase.new;
  antigravity_session_id = none;
  execution_repo_path = none;
  attempt_no = next_attempt;
  retry_count = next_retry_count;
  last_receipt_id = none;
  stuck_reason = none;
  retry_recommended = false;
  last_activity_at = now;
  updated_at = now;
  last_heartbeat_at = none;
  last_workspace_activity_at = none;
  is_approved = false;
  terminal_source = none;
  terminal_receipt_json = none;
  executor_backend = o.executor_backend;
  completion_policy = o.completion_policy;
  authorization_profile = o.authorization_profile;
  authorization_summary = some summary;
  task_kind = o.budget.task_kind;
  wait_policy = o.budget.wait_policy;
  controller_wait_seconds = stored o.budget.controller_wait_seconds;
  execution_budget_seconds = stored o.budget.execution_budget_seconds;
  background_ok = o.budget.background_ok;
}

-- the UPDATE and the INSERT of one transaction
unfoldable pub reopen : String → ℕ → ℕ → Opening → String → ℕ → Exec (Unit {0})
reopen task_id next_attempt next_retry_count o summary now = transaction (
    update_task task_id (reset_row next_attempt next_retry_count o summary now)
    >> insert_attempt (open_attempt task_id next_attempt o now))

-- what the arguments and the task make of the next attempt
unfoldable pub next_opening : Retry → TaskRecord → Result Opening
next_opening a task =
    let executor = coalesce a.executor_backend task.executor_backend in
    Result.◌>>=◌
      (validate_authorization_profile
        (or_option a.authorization_profile (some task.authorization_profile)))
      λ profile.
        Result.◌>>=◌
          (normalize_completion_policy
            (or_option a.completion_policy (some task.completion_policy)))
          λ policy. Result.◌>>=◌ (next_wait_budget a task) λ budget.
            Result.◌>>=◌
              (resolve_attempt_environment_metadata executor a.environment_mode
                a.environment_mode_source)
              λ environment. ok (record {
                executor_backend = executor;
                authorization_profile = profile;
                completion_policy = policy;
                effective_policy_json = a.effective_policy_json;
                budget = budget;
                environment = environment;
                skill_policy = or_default a.skill_policy environment.skill_policy;
                mcp_policy = or_default a.mcp_policy environment.mcp_policy;
                dirty_snapshot_mode = a.dirty_snapshot_mode;
              })

unfoldable pub apply_retry_dispatch : Retry → ℕ → Exec TaskRecord
apply_retry_dispatch a now = do
  task ← prepare_retry a.task_id
  o ← lift (next_opening a task)
  let summary =
      or_default a.authorization_summary (authorization_profile_summary o.authorization_profile)
  reopen a.task_id (task.attempt_no + 1) (task.retry_count + 1) o summary now
  updated ← gets (get_task a.task_id)
  require_some updated Error.assertion_error
