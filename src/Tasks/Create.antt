-- ===== src/Tasks/Create.antt =====
-- storage/tasks.py: `create_task`.
use agpair.Base.{
  ℕ, String, Bool, false, ◌&&◌, ◌||◌, [], ◌∷◌, ◌++◌, Option, none, some, if◌then◌else◌, any,
  or_default, ◌==◌,
}
use agpair.Base.Signed.{Seconds, stored}
use agpair.Models.{Phase, TaskRow, TaskAttemptRecord}
use agpair.Result.{Error}
use agpair.Options.Profile.{validate_authorization_profile, authorization_profile_summary}
use agpair.Options.Completion.{normalize_completion_policy}
use agpair.Options.Role.{normalize_coordination_role}
use agpair.Options.Wait.{WaitBudget, resolve_wait_budget}
use agpair.Options.Environment.{ExecutorEnvironmentMetadata, resolve_attempt_environment_metadata}
use agpair.Db.{Exec, ◌>>=◌, ◌>>◌, raise, lift, modify, transaction}
use agpair.Tasks.Select.{has_id, is_attempt}

-- the keyword arguments of `create_task`
pub record NewTask : Type 0 where
  pub task_id : String
  pub repo_path : String
  pub client_idempotency_key : Option String
  pub executor_backend : Option String
  pub depends_on : Option String
  pub isolated_worktree : Bool
  pub setup_commands : Option String
  pub teardown_commands : Option String
  pub env_vars : Option String
  pub worktree_boundary : Option String
  pub spotlight_testing : Bool
  pub broad_repo_path_override : Bool
  pub authorization_profile : String
  pub authorization_summary : Option String
  pub completion_policy : String
  pub task_kind : Option String
  pub wait_policy : Option String
  pub controller_wait_seconds : Option Seconds
  pub execution_budget_seconds : Option Seconds
  pub background_ok : Option Bool
  pub effective_policy_json : Option String
  pub environment_mode : Option String
  pub environment_mode_source : Option String
  pub skill_policy : Option String
  pub mcp_policy : Option String
  pub dirty_snapshot_mode : String
  pub workflow_id : Option String
  pub workflow_node_id : Option String
  pub parent_task_id : Option String
  pub child_role : Option String
  pub coordination_role : Option String

-- what an attempt is opened with: by `create_task` the first, by `apply_retry_dispatch` the next
pub record Opening : Type 0 where
  pub executor_backend : Option String
  pub authorization_profile : String
  pub completion_policy : String
  pub effective_policy_json : Option String
  pub budget : WaitBudget
  pub environment : ExecutorEnvironmentMetadata
  pub skill_policy : String
  pub mcp_policy : String
  pub dirty_snapshot_mode : String

-- INSERT INTO task_attempts
abbrev pub open_attempt : String → ℕ → Opening → ℕ → TaskAttemptRecord
open_attempt task_id attempt_no o now = record {
  task_id = task_id;
  attempt_no = attempt_no;
  executor_backend = o.executor_backend;
  authorization_profile = o.authorization_profile;
  requested_completion_policy = o.completion_policy;
  effective_policy_json = o.effective_policy_json;
  task_kind = o.budget.task_kind;
  wait_policy = o.budget.wait_policy;
  controller_wait_seconds = stored o.budget.controller_wait_seconds;
  execution_budget_seconds = stored o.budget.execution_budget_seconds;
  background_ok = o.budget.background_ok;
  environment_mode = o.environment.environment_mode;
  environment_mode_source = o.environment.environment_mode_source;
  skill_policy = o.skill_policy;
  mcp_policy = o.mcp_policy;
  protocol_warnings_json = "[]";
  protocol_errors_json = "[]";
  adoptable_result = "unknown";
  adoption_evidence_json = "{}";
  controller_rework_json = "{}";
  dirty_snapshot_mode = o.dirty_snapshot_mode;
  dirty_snapshot_json = "{}";
  dirty_snapshot_applied = false;
  executor_session_id = none;
  phase = Phase.new;
  terminal_receipt_json = none;
  terminal_source = none;
  started_at = now;
  finished_at = none;
  created_at = now;
  updated_at = now;
}

-- the key of `task_attempts` is (task_id, attempt_no)
unfoldable pub insert_attempt : TaskAttemptRecord → Exec (Unit {0})
insert_attempt a db =
    if any (is_attempt a.task_id a.attempt_no) db.attempts
    then raise Error.integrity_error db
    else modify (λ d. record d { attempts = d.attempts ++ a ∷ [] }) db

-- the unique index on (repo_path, client_idempotency_key) where the key is not NULL
abbrev pub same_key : String → Option String → TaskRow → Bool
same_key repo_path none r = false
same_key repo_path (some key) r =
    r.repo_path == repo_path && elim r.client_idempotency_key [ none ↦ false | some k ↦ k == key ]

-- the key of `tasks` is task_id
unfoldable pub insert_task : TaskRow → Exec (Unit {0})
insert_task r db =
    if any (has_id r.task_id) db.tasks
      || any (same_key r.repo_path r.client_idempotency_key) db.tasks
    then raise Error.integrity_error db
    else modify (λ d. record d { tasks = d.tasks ++ r ∷ [] }) db

-- INSERT INTO tasks
abbrev pub new_row : NewTask → Opening → Option String → ℕ → TaskRow
new_row a o coordination_role now = record {
  task_id = a.task_id;
  repo_path = a.repo_path;
  execution_repo_path = none;
  phase = Phase.new;
  antigravity_session_id = none;
  attempt_no = 1;
  retry_count = 0;
  last_receipt_id = none;
  stuck_reason = none;
  retry_recommended = false;
  last_activity_at = now;
  created_at = now;
  updated_at = now;
  last_heartbeat_at = none;
  last_workspace_activity_at = none;
  client_idempotency_key = a.client_idempotency_key;
  executor_backend = a.executor_backend;
  depends_on = a.depends_on;
  isolated_worktree = a.isolated_worktree;
  setup_commands = a.setup_commands;
  teardown_commands = a.teardown_commands;
  env_vars = a.env_vars;
  worktree_boundary = a.worktree_boundary;
  spotlight_testing = a.spotlight_testing;
  broad_repo_path_override = a.broad_repo_path_override;
  completion_policy = o.completion_policy;
  terminal_source = none;
  terminal_receipt_json = none;
  is_approved = false;
  authorization_profile = o.authorization_profile;
  authorization_summary =
      some (
        or_default a.authorization_summary (authorization_profile_summary o.authorization_profile));
  task_kind = o.budget.task_kind;
  wait_policy = o.budget.wait_policy;
  controller_wait_seconds = stored o.budget.controller_wait_seconds;
  execution_budget_seconds = stored o.budget.execution_budget_seconds;
  background_ok = o.budget.background_ok;
  workflow_id = a.workflow_id;
  workflow_node_id = a.workflow_node_id;
  parent_task_id = a.parent_task_id;
  child_role = a.child_role;
  coordination_role = coordination_role;
}

-- the two INSERT statements of one transaction
unfoldable pub insert_both : TaskRow → TaskAttemptRecord → Exec (Unit {0})
insert_both r a = transaction (insert_task r >> insert_attempt a)

unfoldable pub create_task : NewTask → ℕ → Exec (Unit {0})
create_task a now = do
  profile ← lift (validate_authorization_profile (some a.authorization_profile))
  policy ← lift (normalize_completion_policy (some a.completion_policy))
  role ← lift (normalize_coordination_role a.coordination_role)
  budget ← lift (
      resolve_wait_budget a.task_kind a.wait_policy a.controller_wait_seconds
        a.execution_budget_seconds a.background_ok)
  environment ← lift (
      resolve_attempt_environment_metadata a.executor_backend a.environment_mode
        a.environment_mode_source)
  let o : Opening = record {
    executor_backend = a.executor_backend;
    authorization_profile = profile;
    completion_policy = policy;
    effective_policy_json = a.effective_policy_json;
    budget = budget;
    environment = environment;
    skill_policy = or_default a.skill_policy environment.skill_policy;
    mcp_policy = or_default a.mcp_policy environment.mcp_policy;
    dirty_snapshot_mode = a.dirty_snapshot_mode;
  }
  insert_both (new_row a o role now) (open_attempt a.task_id 1 o now)
