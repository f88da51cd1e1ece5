-- ===== src/Workflows/Store.antt =====
-- workflows/store.py: `WorkflowRepository`. What `json.dumps` makes of a manifest and its parts are texts
-- of the manifest.
use Prim.Native.String.{compare}
use Prim.Native.Nat.{Ordering}
use agpair.Base.{
  ℕ, String, Bool, true, false, ◌&&◌, ◌||◌, List, [], ◌∷◌, ◌++◌, map, Option, none, some,
  if◌then◌else◌, any, find_row, select, update_rows, sort_by, take, ltb, eqb, or_default, or_option,
  truthy, ◌==◌,
}
use agpair.Models.Workflows.{
  WorkflowPhase, NodePhase, WorkflowRecord, WorkflowNodeRecord, is_terminal, is_failure,
  same_workflow_phase,
}
use agpair.Result.{Error}
use agpair.Db.{Db, Exec, ◌>>◌, pure, raise, modify, transaction, require_some}
use agpair.Tasks.Attempts.{coalesce}

-- a node of a manifest, its keys read as `create_workflow` reads them, with `depends_on` as text
pub record ManifestNode : Type 0 where
  pub id : String
  pub kind : String
  pub depends_on_json : String
  pub body : Option String
  pub prompt : Option String
  pub completion_policy : Option String
  pub authorization_profile : Option String
  pub executor : Option String
  pub role : Option String
  pub max_retries : Option ℕ
  pub allow_partial : Bool
  pub isolated_worktree : Bool

pub record WorkflowManifest : Type 0 where
  pub name : String
  pub controller : String
  pub repo_path : Option String
  pub manifest_json : String
  pub limits_json : String
  pub completion_policy : Option String
  pub authorization_profile : Option String
  pub executor : Option String
  pub max_retries_per_node : ℕ
  pub nodes : List ManifestNode

-- WHERE workflow_id=?
abbrev pub has_workflow_id : String → WorkflowRecord → Bool
has_workflow_id workflow_id w = w.workflow_id == workflow_id

-- WHERE workflow_id=? AND node_id=?
abbrev pub is_node : String → String → WorkflowNodeRecord → Bool
is_node workflow_id node_id n = n.workflow_id == workflow_id && n.node_id == node_id

abbrev number_or : Option ℕ → ℕ → ℕ
number_or none d = d
number_or (some n) d = n

abbrev pub new_node : WorkflowManifest → String → ManifestNode → ℕ → WorkflowNodeRecord
new_node m workflow_id n now = record {
  workflow_id = workflow_id;
  node_id = n.id;
  kind = n.kind;
  role = n.role;
  phase = NodePhase.pending;
  task_id = none;
  depends_on_json = n.depends_on_json;
  authorization_profile =
      or_default n.authorization_profile (or_default m.authorization_profile "local_mutating");
  requested_completion_policy =
      or_default n.completion_policy (or_default m.completion_policy "auto");
  effective_policy_json = "{}";
  executor_backend = or_option n.executor m.executor;
  attempt_no = 0;
  max_retries = number_or n.max_retries m.max_retries_per_node;
  allow_partial = n.allow_partial;
  isolated_worktree = n.isolated_worktree;
  body = or_option n.body n.prompt;
  result_json = none;
  evidence_json = none;
  last_error = none;
  error = none;
  created_at = now;
  updated_at = now;
  started_at = none;
  finished_at = none;
}

-- the key of `workflow_nodes` is (workflow_id, node_id)
unfoldable pub insert_nodes : WorkflowManifest → String → List ManifestNode → ℕ → Exec (Unit {0})
insert_nodes m workflow_id [] now db = pure tt db
insert_nodes m workflow_id (n ∷ nodes) now db =
    let rest =
      insert_nodes m workflow_id nodes now
        (record db { workflow_nodes = db.workflow_nodes ++ new_node m workflow_id n now ∷ [] }) in
    if any (is_node workflow_id n.id) db.workflow_nodes
    then raise Error.integrity_error db
    else rest

-- the key of `workflows` is workflow_id
unfoldable pub insert_workflow : WorkflowRecord → Exec (Unit {0})
insert_workflow w db =
    if any (has_workflow_id w.workflow_id) db.workflows
    then raise Error.integrity_error db
    else modify (λ d. record d { workflows = d.workflows ++ w ∷ [] }) db

abbrev pub new_workflow : WorkflowManifest → String → Option String → ℕ → WorkflowRecord
new_workflow m final_id repo_path now = record {
  workflow_id = final_id;
  repo_path = or_default repo_path (or_default m.repo_path "");
  controller = m.controller;
  name = m.name;
  phase = WorkflowPhase.new;
  manifest_json = m.manifest_json;
  limits_json = m.limits_json;
  result_json = none;
  evidence_path = none;
  created_at = now;
  updated_at = now;
  started_at = none;
  finished_at = none;
  cancelled_at = none;
  stuck_reason = none;
  error = none;
}

-- `fresh_id` is what `uuid4` makes
unfoldable pub create_workflow :
    WorkflowManifest
    → (workflow_id repo_path : Option String) → (fresh_id : String) → ℕ
    → Exec String
create_workflow m workflow_id repo_path fresh_id now = do
  let final_id = or_default workflow_id fresh_id
  transaction (
      insert_workflow (new_workflow m final_id repo_path now)
      >> insert_nodes m final_id m.nodes now)
  pure final_id

-- `_workflow_from_row`
abbrev pub workflow_from_row : WorkflowRecord → WorkflowRecord
workflow_from_row w = record w {
  limits_json = or_default (some w.limits_json) "{}";
  stuck_reason = or_option w.stuck_reason w.error;
}

abbrev row_map {ℓ} : {A : Type ℓ} → (A → A) → Option A → Option A
row_map f none = none
row_map f (some a) = some (f a)

unfoldable pub get_workflow : String → Db → Option WorkflowRecord
get_workflow workflow_id db =
    row_map workflow_from_row (find_row (has_workflow_id workflow_id) db.workflows)

unfoldable pub require_workflow : String → Exec WorkflowRecord
unfolding get_workflow
require_workflow workflow_id db =
    require_some (get_workflow workflow_id db) (Error.workflow_not_found workflow_id) db

abbrev text_before : String → String → Bool
text_before a b = elim (compare a b) [ Ordering.lt ↦ true | _ ↦ false ]

abbrev matches : Option WorkflowPhase → Option String → WorkflowRecord → Bool
matches phase repo_path w =
    elim phase [ none ↦ true | some p ↦ same_workflow_phase w.phase p ]
    && (if truthy repo_path
        then elim repo_path [ none ↦ true | some r ↦ w.repo_path == r ]
        else true)

-- ORDER BY updated_at DESC, workflow_id DESC LIMIT ?
unfoldable pub list_workflows : Option WorkflowPhase → Option String → ℕ → Db → List WorkflowRecord
list_workflows phase repo_path limit db = map workflow_from_row (
    take limit (
      sort_by
        (λ v w.
          ltb w.updated_at v.updated_at
          || (eqb v.updated_at w.updated_at && text_before w.workflow_id v.workflow_id))
        (select (matches phase repo_path) db.workflows)))

-- WHERE phase IN ('new', 'created', 'running') ORDER BY updated_at ASC, workflow_id ASC LIMIT ?
unfoldable pub list_runnable_workflows : ℕ → Db → List WorkflowRecord
list_runnable_workflows limit db = map workflow_from_row (
    take limit (
      sort_by
        (λ v w.
          ltb v.updated_at w.updated_at
          || (eqb v.updated_at w.updated_at && text_before v.workflow_id w.workflow_id))
        (select (λ w. if is_terminal w.phase then false else true) db.workflows)))

abbrev pub of_workflow : String → WorkflowNodeRecord → Bool
of_workflow workflow_id n = n.workflow_id == workflow_id

-- `_node_from_row`
abbrev pub node_from_row : WorkflowNodeRecord → WorkflowNodeRecord
node_from_row n = record n {
  depends_on_json = or_default (some n.depends_on_json) "[]";
  authorization_profile = or_default (some n.authorization_profile) "local_mutating";
  requested_completion_policy = or_default (some n.requested_completion_policy) "auto";
  effective_policy_json = or_default (some n.effective_policy_json) "{}";
  last_error = or_option n.last_error n.error;
}

-- ORDER BY node_id ASC
unfoldable pub list_nodes : String → Db → List WorkflowNodeRecord
list_nodes workflow_id db = map node_from_row (
    sort_by (λ m n. text_before m.node_id n.node_id)
      (select (of_workflow workflow_id) db.workflow_nodes))

unfoldable pub get_node : String → String → Db → Option WorkflowNodeRecord
get_node workflow_id node_id db =
    row_map node_from_row (find_row (is_node workflow_id node_id) db.workflow_nodes)

unfoldable pub require_node : String → String → Exec WorkflowNodeRecord
unfolding get_node
require_node workflow_id node_id db =
    require_some (get_node workflow_id node_id db)
      (Error.workflow_node_not_found workflow_id node_id) db

abbrev pub when {ℓ} : {A : Type ℓ} → Bool → Option A → Option A
when true a = a
when false a = none

abbrev is_running : WorkflowPhase → Bool
is_running WorkflowPhase.running = true
is_running _ = false

abbrev is_cancelled : WorkflowPhase → Bool
is_cancelled WorkflowPhase.cancelled = true
is_cancelled _ = false

abbrev pub marked_workflow :
    WorkflowPhase
    → (error evidence_path result_json : Option String) → ℕ
    → WorkflowRecord
    → WorkflowRecord
marked_workflow phase error evidence_path result_json now w = record w {
  phase = phase;
  error = error;
  stuck_reason = coalesce (when (is_failure phase) error) w.stuck_reason;
  evidence_path = coalesce evidence_path w.evidence_path;
  result_json = coalesce result_json w.result_json;
  started_at = coalesce w.started_at (when (is_running phase) (some now));
  finished_at = coalesce (when (is_terminal phase) (some now)) w.finished_at;
  cancelled_at = coalesce (when (is_cancelled phase) (some now)) w.cancelled_at;
  updated_at = now;
}

unfoldable pub mark_workflow_phase :
    String → WorkflowPhase → (error evidence_path result_json : Option String) → ℕ → Exec (Unit {0})
mark_workflow_phase workflow_id phase error evidence_path result_json now = modify λ db. record db {
  workflows =
      update_rows (has_workflow_id workflow_id)
        (marked_workflow phase error evidence_path result_json now) db.workflows;
}
