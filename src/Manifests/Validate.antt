-- ===== src/Manifests/Validate.antt =====
-- workflows/schema.py: `validate_manifest`.
use Prim.Native.String.{count}
use agpair.Base.{
  ℕ, suc, String, Bool, false, not, ◌&&◌, ◌||◌, List, [], ◌∷◌, Option, none, some, strip, elem, any,
  all, map, length, leb, ltb, eqb, truthy, if◌then◌else◌, ◌==◌,
}
use agpair.Base.Signed.{pos}
use agpair.Json.{
  Json, Items, Fields, null, boolean, integer, floating, text, array, nil, cons, get, as_text,
  as_object, text_of,
}
use agpair.Result.{Problem, Result, ok, err, ◌>>=◌, ◌>>◌, require}
use agpair.Options.Profile.{validate_authorization_profile}
use agpair.Options.Completion.{normalize_completion_policy}
use agpair.Manifests.Limits.{Limits, normalize_limits, max_nodes_default, max_nodes_hard}
use agpair.Manifests.Forbidden.{reject_forbidden_fields}
use agpair.Manifests.Coordination.{
  problem, get_or, given, CoordinationPolicy, normalize_coordination_policy,
}
use agpair.Manifests.Node.{ManifestNode, as_member, text_field, is_readonly_kind, validate_nodes}
use agpair.Manifests.Acyclic.{
  Dependencies, Visit, visited, cycle, missing, out_of_fuel, assert_acyclic,
}

-- The other fields of a manifest are kept as they are.
pub record WorkflowManifest : Type 0 where
  pub name : String
  pub controller : String
  pub repo_path : Json
  pub limits : Limits
  pub coordination_policy : Option CoordinationPolicy
  pub authorization_profile : String
  pub completion_policy : String
  pub nodes : List ManifestNode

-- the keyword arguments of `validate_manifest`
pub record Options : Type 0 where
  pub allow_large_workflow : Bool
  pub require_repo_path : Bool
  pub repo_path : Option String

-- `version == 1`
abbrev pub is_one : Json → Bool
is_one (boolean b) = b
is_one (integer (pos n)) = eqb n 1
is_one (floating s) = s == "1.0"
is_one _ = false

unfoldable pub name_of : Fields → Result String
unfolding strip
name_of manifest = do
  name ← given (as_text (get "name" manifest)) (problem Problem.bad_name)
  require (not (strip name == "") && leb (count (strip name)) 120) (problem Problem.bad_name)
  ok (strip name)

abbrev controllers : List String
controllers = "codex" ∷ "claude-code" ∷ "generic" ∷ "claude" ∷ "claude_code" ∷ []

unfoldable pub controller_of : Fields → Result String
controller_of manifest = do
  controller ←
      as_member (get_or "controller" manifest (text "generic")) controllers
        (problem Problem.bad_controller)
  ok (if elem controller ("claude" ∷ "claude_code" ∷ []) then "claude-code" else controller)

abbrev pub repo_path_of : Fields → Option String → Json
repo_path_of manifest repo_path =
    if truthy repo_path
    then elim repo_path [ none ↦ null | some path ↦ text path ]
    else get "repo_path" manifest

abbrev pub is_filled : Json → Bool
is_filled v = elim (as_text v) [ none ↦ false | some s ↦ not (strip s == "") ]

-- the nodes of the manifest, which may not be empty
abbrev pub nodes_in : Json → Result Items
nodes_in (array (cons v vs)) = ok (cons v vs)
nodes_in _ = err (problem Problem.no_nodes)

abbrev size : Items → ℕ
size nil = 0
size (cons v vs) = suc (size vs)

-- `node.get("kind", "task") == "gate"`
abbrev is_gate : Fields → Bool
is_gate node = elim (as_text (get "kind" node)) [ none ↦ false | some kind ↦ kind == "gate" ]

abbrev child_capable : Items → ℕ
child_capable nil = 0
child_capable (cons v vs) =
    let rest = child_capable vs in
    elim (as_object v) [ none ↦ rest | some node ↦ if is_gate node then rest else suc rest ]

abbrev pub dependencies : List ManifestNode → Dependencies
dependencies nodes = map (λ (n : ManifestNode). (n.node_id, n.depends_on)) nodes

abbrev pub node_ids : List ManifestNode → List String
node_ids nodes = map (λ (n : ManifestNode). n.node_id) nodes

abbrev pub known_deps : List ManifestNode → Bool
known_deps nodes =
    all (λ (n : ManifestNode). all (λ dep. elem dep (node_ids nodes)) n.depends_on) nodes

-- what the search for a cycle says; there is a node for each dependency then
abbrev pub no_cycle : Visit → Result (Unit {0})
no_cycle (visited done) = ok tt
no_cycle cycle = err (problem Problem.dependency_cycle)
no_cycle missing = err (problem Problem.unknown_dependency)
no_cycle out_of_fuel = err (problem Problem.dependency_cycle)

abbrev pub is_single : List ManifestNode → Bool
is_single nodes = eqb (length nodes) 1

abbrev pub ends_in_synthesis : List ManifestNode → Bool
ends_in_synthesis nodes = any (λ (n : ManifestNode). is_readonly_kind n.kind) nodes

-- the checks on the nodes together
unfoldable pub check_graph : List ManifestNode → Result (Unit {0})
check_graph nodes = do
  require (known_deps nodes) (problem Problem.unknown_dependency)
  no_cycle (assert_acyclic (dependencies nodes))
  require (is_single nodes || ends_in_synthesis nodes) (problem Problem.no_synthesis_or_gate)

unfoldable pub check_size : Items → Limits → Bool → Result (Unit {0})
check_size nodes limits allow_large_workflow = do
  require (leb (size nodes) max_nodes_hard) (problem Problem.too_many_nodes)
  require (leb (child_capable nodes) limits.max_child_tasks) (problem Problem.too_many_children)
  require (not (ltb max_nodes_default (child_capable nodes) && not allow_large_workflow))
      (problem Problem.large_workflow)

unfoldable pub validate_object : Fields → Options → Result WorkflowManifest
unfolding strip text_of
validate_object manifest options = do
  require (is_one (get "version" manifest)) (problem Problem.bad_version)
  name ← name_of manifest
  controller ← controller_of manifest
  let repo_path = repo_path_of manifest options.repo_path
  require (not options.require_repo_path || is_filled repo_path) (problem Problem.no_repo_path)
  limits ← normalize_limits (get "limits" manifest) options.allow_large_workflow
  coordination ← normalize_coordination_policy (get "coordination_policy" manifest)
  raw_nodes ← nodes_in (get "nodes" manifest)
  check_size raw_nodes limits options.allow_large_workflow
  profile ←
      validate_authorization_profile
        (some (text_field "authorization_profile" manifest "local_mutating"))
  completion ← normalize_completion_policy (some (text_field "completion_policy" manifest "auto"))
  nodes ←
      validate_nodes raw_nodes [] (record {
        limits = limits;
        authorization_profile = profile;
        completion_policy = completion;
      })
  check_graph nodes
  ok record {
    name = name;
    controller = controller;
    repo_path = repo_path;
    limits = limits;
    coordination_policy = coordination;
    authorization_profile = profile;
    completion_policy = completion;
    nodes = nodes;
  }

unfoldable pub validate_manifest : Json → Options → Result WorkflowManifest
unfolding reject_forbidden_fields
validate_manifest raw options = do
  manifest ← given (as_object raw) (problem Problem.not_an_object)
  reject_forbidden_fields raw
  validate_object manifest options
