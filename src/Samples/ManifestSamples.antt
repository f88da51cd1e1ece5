-- ===== src/Samples/ManifestSamples.antt =====
-- workflows/schema.py at a manifest of two nodes, and at graphs.
use agpair.Base.{String, true, false, ◌≡◌, ◌≢◌, refl, [], ◌∷◌, none, some}
use agpair.Base.Signed.{pos}
use agpair.Json.{Json, Items, integer, text, array, object, nil, cons, end, field}
use agpair.Result.{ok}
use agpair.Manifests.Limits.{Limits, normalize_limits}
use agpair.Manifests.Bounds.{AreLimits, normalize_limits-AreLimits}
use agpair.Manifests.Node.{ManifestNode}
use agpair.Manifests.Validate.{WorkflowManifest, Options, validate_manifest}
use agpair.Manifests.Manifest.{IsManifest, validate_manifest-IsManifest}
use agpair.Manifests.Acyclic.{Dependencies, Walk, assert_acyclic, visited, cycle, out_of_fuel}
use agpair.Manifests.Acyclic.Remaining.{assert_acyclic-ends}
use agpair.Manifests.Acyclic.Order.{assert_acyclic-acyclic}
use agpair.Manifests.Acyclic.Cycle.{assert_acyclic-cycle}

abbrev diamond : Dependencies
diamond =
    ("join", "left" ∷ "right" ∷ [])
    ∷ ("left", "root" ∷ [])
    ∷ ("right", "root" ∷ [])
    ∷ ("root", [])
    ∷ []

assert_acyclic-ends_example : assert_acyclic diamond ≢ out_of_fuel
assert_acyclic-ends_example = assert_acyclic-ends diamond

searched : assert_acyclic diamond ≡ visited ("join" ∷ "right" ∷ "left" ∷ "root" ∷ [])
unfolding assert_acyclic
searched = refl

assert_acyclic-acyclic_example : ¬ Walk diamond "join" "join"
assert_acyclic-acyclic_example =
    assert_acyclic-acyclic diamond ("join" ∷ "right" ∷ "left" ∷ "root" ∷ []) "join" searched

abbrev ring : Dependencies
ring = ("a", "b" ∷ []) ∷ ("b", "c" ∷ []) ∷ ("c", "b" ∷ []) ∷ []

ring_found : assert_acyclic ring ≡ cycle
unfolding assert_acyclic
ring_found = refl

assert_acyclic-cycle_example : (a : String) × Walk ring a a
assert_acyclic-cycle_example = assert_acyclic-cycle ring ring_found

abbrev raw_limits : Json
raw_limits = object (field "max_parallel_tasks" (integer (pos 8)) end)

abbrev limits : Limits
limits = record {
  max_parallel_tasks = 8;
  max_child_tasks = 20;
  max_retries_per_node = 1;
  max_runtime_seconds = 14400;
  max_watch_events = 500;
}

read_limits : normalize_limits raw_limits false ≡ ok limits
unfolding normalize_limits
read_limits = refl

normalize_limits-AreLimits_example : AreLimits false limits
normalize_limits-AreLimits_example = normalize_limits-AreLimits raw_limits false limits read_limits

abbrev node : String → String → Items → Json
node node_id kind depends_on = object (
    field "id" (text node_id) (
      field "kind" (text kind)
        (field "depends_on" (array depends_on) (field "body" (text "Goal: look") end))))

abbrev raw : Json
raw = object (
    field "version" (integer (pos 1)) (
      field "name" (text " review ") (
        field "limits" raw_limits (
          field "nodes"
            (array (
              cons (node "inspect" "task" nil)
                (cons (node "report" "synthesis" (cons (text "inspect") nil)) nil)))
            end))))

abbrev options : Options
options = record {
  allow_large_workflow = false;
  require_repo_path = true;
  repo_path = some "/repo";
}

abbrev inspect : ManifestNode
inspect = record {
  node_id = "inspect";
  kind = "task";
  coordination_role = "general";
  depends_on = [];
  body = some "Goal: look";
  authorization_profile = "local_mutating";
  completion_policy = "auto";
  max_retries = 1;
  allow_partial = false;
  isolated_worktree = false;
  executor = none;
}

abbrev report : ManifestNode
report = record {
  node_id = "report";
  kind = "synthesis";
  coordination_role = "synthesizer";
  depends_on = "inspect" ∷ [];
  body = some "Goal: look";
  authorization_profile = "local_readonly";
  completion_policy = "report";
  max_retries = 1;
  allow_partial = false;
  isolated_worktree = false;
  executor = none;
}

abbrev manifest : WorkflowManifest
manifest = record {
  name = "review";
  controller = "generic";
  repo_path = text "/repo";
  limits = limits;
  coordination_policy = none;
  authorization_profile = "local_mutating";
  completion_policy = "auto";
  nodes = inspect ∷ report ∷ [];
}

validated : validate_manifest raw options ≡ ok manifest
unfolding validate_manifest agpair.Manifests.Validate.validate_object
    agpair.Manifests.Validate.name_of agpair.Manifests.Validate.controller_of
    agpair.Manifests.Validate.check_size agpair.Manifests.Validate.check_graph normalize_limits
    agpair.Manifests.Coordination.normalize_coordination_policy
    agpair.Options.Profile.validate_authorization_profile
    agpair.Options.Completion.normalize_completion_policy agpair.Manifests.Limits.normalize_int
    assert_acyclic agpair.Manifests.Node.validate_nodes agpair.Manifests.Node.validate_node
    agpair.Manifests.Node.id_of agpair.Manifests.Node.matches_node_id agpair.Manifests.Node.role_of
    agpair.Manifests.Node.dependencies_of agpair.Manifests.Node.body_of
validated = refl

validate_manifest-IsManifest_example : IsManifest options manifest
validate_manifest-IsManifest_example = validate_manifest-IsManifest options raw manifest validated
