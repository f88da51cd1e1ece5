-- ===== src/Models/Rows.antt =====
-- The rows of the tables, and the records that the repositories hand out.
use agpair.Base.{ℕ, String, Bool, Option}
use agpair.Base.Signed.{Seconds}
use agpair.Models.Phases.{Phase}

-- a row of the table `tasks`; the flags are the integers 0 and 1
pub record TaskRow : Type 0 where
  pub task_id : String
  pub repo_path : String
  pub execution_repo_path : Option String
  pub phase : Phase
  pub antigravity_session_id : Option String
  pub attempt_no : ℕ
  pub retry_count : ℕ
  pub last_receipt_id : Option String
  pub stuck_reason : Option String
  pub retry_recommended : Bool
  pub last_activity_at : ℕ
  pub created_at : ℕ
  pub updated_at : ℕ
  pub last_heartbeat_at : Option ℕ
  pub last_workspace_activity_at : Option ℕ
  pub client_idempotency_key : Option String
  pub executor_backend : Option String
  pub depends_on : Option String
  pub isolated_worktree : Bool
  pub setup_commands : Option String
  pub teardown_commands : Option String
  pub env_vars : Option String
  pub worktree_boundary : Option String
  pub spotlight_testing : Bool
  pub broad_repo_path_override : Bool
  pub completion_policy : String
  pub terminal_source : Option String
  pub terminal_receipt_json : Option String
  pub is_approved : Bool
  pub authorization_profile : String
  pub authorization_summary : Option String
  pub task_kind : String
  pub wait_policy : String
  pub controller_wait_seconds : Option Seconds
  pub execution_budget_seconds : Option Seconds
  pub background_ok : Bool
  pub workflow_id : Option String
  pub workflow_node_id : Option String
  pub parent_task_id : Option String
  pub child_role : Option String
  pub coordination_role : Option String

-- `TaskRecord`: the columns of the row, and the session of the current attempt
pub record TaskRecord : Type 0 where
  pub row : TaskRow
  pub open row use *
  pub executor_session_id : Option String

-- a row of the table `task_attempts`, which `TaskAttemptRecord` hands out
pub record TaskAttemptRecord : Type 0 where
  pub task_id : String
  pub attempt_no : ℕ
  pub executor_backend : Option String
  pub authorization_profile : String
  pub requested_completion_policy : String
  pub effective_policy_json : Option String
  pub task_kind : String
  pub wait_policy : String
  pub controller_wait_seconds : Option Seconds
  pub execution_budget_seconds : Option Seconds
  pub background_ok : Bool
  pub environment_mode : String
  pub environment_mode_source : String
  pub skill_policy : String
  pub mcp_policy : String
  pub protocol_warnings_json : String
  pub protocol_errors_json : String
  pub adoptable_result : String
  pub adoption_evidence_json : String
  pub controller_rework_json : String
  pub dirty_snapshot_mode : String
  pub dirty_snapshot_json : String
  pub dirty_snapshot_applied : Bool
  pub executor_session_id : Option String
  pub phase : Phase
  pub terminal_receipt_json : Option String
  pub terminal_source : Option String
  pub started_at : ℕ
  pub finished_at : Option ℕ
  pub created_at : ℕ
  pub updated_at : ℕ

pub record TaskArtifactRecord : Type 0 where
  pub task_id : String
  pub attempt_no : ℕ
  pub artifact_type : String
  pub path : String
  pub size_bytes : Option ℕ
  pub sha256 : Option String
  pub created_at : ℕ

pub record JournalRecord : Type 0 where
  pub task_id : String
  pub source : String
  pub event : String
  pub body : String
  pub created_at : ℕ
  pub classification : String

-- `state` of a waiter is 'waiting' or 'terminal'
pub data WaiterState : Type 0 where
  waiting terminal : WaiterState

pub record WaiterRecord : Type 0 where
  pub waiter_id : String
  pub task_id : String
  pub command : String
  pub state : WaiterState
  pub started_at : ℕ
  pub last_poll_at : ℕ
  pub finished_at : Option ℕ
  pub outcome : Option String

-- a row of the table `receipts`
pub record ReceiptRow : Type 0 where
  pub message_id : String
  pub task_id : String
  pub status : String
  pub delivery_id : Option String
  pub created_at : ℕ
