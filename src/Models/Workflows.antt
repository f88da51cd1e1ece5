-- ===== src/Models/Workflows.antt =====
-- workflows/models.py: workflows and their nodes, as rows of the tables `workflows` and `workflow_nodes`. The
-- columns `depends_on` and `completion_policy`, which repeat others, are left out.
use agpair.Base.{ℕ, String, Bool, true, false, ◌||◌, List, [], ◌∷◌, Option, eqb}

pub data WorkflowPhase : Type 0 where
  new created running ready_for_review blocked stuck abandoned cancelled : WorkflowPhase

pub data NodePhase : Type 0 where
  pending dispatching running ready_for_review blocked stuck skipped abandoned cancelled : NodePhase

abbrev node_phase_no : NodePhase → ℕ
node_phase_no NodePhase.pending = 0
node_phase_no NodePhase.dispatching = 1
node_phase_no NodePhase.running = 2
node_phase_no NodePhase.ready_for_review = 3
node_phase_no NodePhase.blocked = 4
node_phase_no NodePhase.stuck = 5
node_phase_no NodePhase.skipped = 6
node_phase_no NodePhase.abandoned = 7
node_phase_no NodePhase.cancelled = 8

-- `phase in {…}`
abbrev pub node_phase_in : NodePhase → List NodePhase → Bool
node_phase_in p [] = false
node_phase_in p (q ∷ qs) = eqb (node_phase_no p) (node_phase_no q) || node_phase_in p qs

abbrev workflow_phase_no : WorkflowPhase → ℕ
workflow_phase_no WorkflowPhase.new = 0
workflow_phase_no WorkflowPhase.created = 1
workflow_phase_no WorkflowPhase.running = 2
workflow_phase_no WorkflowPhase.ready_for_review = 3
workflow_phase_no WorkflowPhase.blocked = 4
workflow_phase_no WorkflowPhase.stuck = 5
workflow_phase_no WorkflowPhase.abandoned = 6
workflow_phase_no WorkflowPhase.cancelled = 7

abbrev pub same_workflow_phase : WorkflowPhase → WorkflowPhase → Bool
same_workflow_phase p q = eqb (workflow_phase_no p) (workflow_phase_no q)

-- `phase in TERMINAL_WORKFLOW_PHASES`
abbrev pub is_terminal : WorkflowPhase → Bool
is_terminal WorkflowPhase.new = false
is_terminal WorkflowPhase.created = false
is_terminal WorkflowPhase.running = false
is_terminal _ = true

-- `phase in {"blocked", "stuck", "abandoned", "cancelled"}`
abbrev pub is_failure : WorkflowPhase → Bool
is_failure WorkflowPhase.blocked = true
is_failure WorkflowPhase.stuck = true
is_failure WorkflowPhase.abandoned = true
is_failure WorkflowPhase.cancelled = true
is_failure _ = false

-- `phase in ACTIVE_NODE_PHASES`
abbrev pub is_active : NodePhase → Bool
is_active p = node_phase_in p (NodePhase.pending ∷ NodePhase.dispatching ∷ NodePhase.running ∷ [])

pub record WorkflowRecord : Type 0 where
  pub workflow_id : String
  pub repo_path : String
  pub controller : String
  pub name : String
  pub phase : WorkflowPhase
  pub manifest_json : String
  pub limits_json : String
  pub result_json : Option String
  pub evidence_path : Option String
  pub created_at : ℕ
  pub updated_at : ℕ
  pub started_at : Option ℕ
  pub finished_at : Option ℕ
  pub cancelled_at : Option ℕ
  pub stuck_reason : Option String
  pub error : Option String

pub record WorkflowNodeRecord : Type 0 where
  pub workflow_id : String
  pub node_id : String
  pub kind : String
  pub role : Option String
  pub phase : NodePhase
  pub task_id : Option String
  pub depends_on_json : String
  pub authorization_profile : String
  pub requested_completion_policy : String
  pub effective_policy_json : String
  pub executor_backend : Option String
  pub attempt_no : ℕ
  pub max_retries : ℕ
  pub allow_partial : Bool
  pub isolated_worktree : Bool
  pub body : Option String
  pub result_json : Option String
  pub evidence_json : Option String
  pub last_error : Option String
  pub error : Option String
  pub created_at : ℕ
  pub updated_at : ℕ
  pub started_at : Option ℕ
  pub finished_at : Option ℕ
