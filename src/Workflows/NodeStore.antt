-- ===== src/Workflows/NodeStore.antt =====
-- workflows/store.py: the methods of `WorkflowRepository` that update nodes.
use agpair.Base.{
  ℕ, ◌+◌, String, Bool, ◌&&◌, [], ◌∷◌, Option, none, some, length, select, update_rows, ◌==◌,
}
use agpair.Models.Workflows.{NodePhase, WorkflowNodeRecord, is_active, node_phase_in}
use agpair.Result.{ok}
use agpair.Db.{Exec, ◌>>=◌, ◌>>◌, modify}
use agpair.Tasks.Attempts.{coalesce}
use agpair.Workflows.Store.{is_node, require_node, when}

-- the keyword arguments of `mark_node_phase`
pub record NodeUpdate : Type 0 where
  pub task_id : Option String
  pub error : Option String
  pub evidence_json : Option String
  pub result_json : Option String
  pub effective_policy_json : Option String
  pub executor_backend : Option String

abbrev text_or : Option String → String → String
text_or none d = d
text_or (some s) d = s

-- `phase in {"ready_for_review", "blocked", "stuck", "skipped", "abandoned", "cancelled"}`
abbrev pub is_finished : NodePhase → Bool
is_finished phase = node_phase_in phase (
    NodePhase.ready_for_review ∷ NodePhase.blocked ∷ NodePhase.stuck ∷ NodePhase.skipped
    ∷ NodePhase.abandoned ∷ NodePhase.cancelled ∷ [])

abbrev pub marked_node : NodePhase → NodeUpdate → ℕ → WorkflowNodeRecord → WorkflowNodeRecord
marked_node phase u now n = record n {
  phase = phase;
  task_id = coalesce u.task_id n.task_id;
  error = u.error;
  last_error = coalesce u.error n.last_error;
  evidence_json = coalesce u.evidence_json n.evidence_json;
  result_json = coalesce u.result_json n.result_json;
  effective_policy_json = text_or u.effective_policy_json n.effective_policy_json;
  executor_backend = coalesce u.executor_backend n.executor_backend;
  started_at =
      coalesce n.started_at
        (when (node_phase_in phase (NodePhase.dispatching ∷ NodePhase.running ∷ [])) (some now));
  finished_at = coalesce (when (is_finished phase) (some now)) n.finished_at;
  updated_at = now;
}

unfoldable pub mark_node_phase : String → String → NodePhase → NodeUpdate → ℕ → Exec (Unit {0})
mark_node_phase workflow_id node_id phase u now = modify λ db. record db {
  workflow_nodes =
      update_rows (is_node workflow_id node_id) (marked_node phase u now) db.workflow_nodes;
}

abbrev pub reset_node :
    ℕ
    → (authorization_profile executor_backend reason : Option String) → ℕ
    → WorkflowNodeRecord
    → WorkflowNodeRecord
reset_node next_attempt authorization_profile executor_backend reason now n = record n {
  phase = NodePhase.pending;
  task_id = none;
  evidence_json = none;
  result_json = none;
  error = none;
  last_error = coalesce reason n.last_error;
  attempt_no = next_attempt;
  authorization_profile = text_or authorization_profile n.authorization_profile;
  executor_backend = coalesce executor_backend n.executor_backend;
  started_at = none;
  finished_at = none;
  updated_at = now;
}

unfoldable pub reset_node_for_retry :
    String
    → String
    → (authorization_profile executor_backend reason : Option String) → ℕ
    → Exec WorkflowNodeRecord
reset_node_for_retry workflow_id node_id authorization_profile executor_backend reason now = do
  node ← require_node workflow_id node_id
  modify λ db. record db {
    workflow_nodes =
        update_rows (is_node workflow_id node_id)
          (reset_node (node.attempt_no + 1) authorization_profile executor_backend reason now)
          db.workflow_nodes;
  }
  require_node workflow_id node_id

abbrev pub active_node : String → WorkflowNodeRecord → Bool
active_node workflow_id n = n.workflow_id == workflow_id && is_active n.phase

abbrev pub cancelled_node : NodePhase → String → ℕ → WorkflowNodeRecord → WorkflowNodeRecord
cancelled_node phase reason now n = record n {
  phase = phase;
  error = some reason;
  last_error = some reason;
  finished_at = coalesce n.finished_at (some now);
  updated_at = now;
}

unfoldable pub cancel_active_nodes : String → NodePhase → String → ℕ → Exec ℕ
cancel_active_nodes workflow_id phase reason now db = (
  ok (length (select (active_node workflow_id) db.workflow_nodes)),
  record db {
    workflow_nodes =
        update_rows (active_node workflow_id) (cancelled_node phase reason now) db.workflow_nodes;
  },
)
