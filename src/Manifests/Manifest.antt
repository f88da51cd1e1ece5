-- ===== src/Manifests/Manifest.antt =====
-- What validate_manifest guarantees of a manifest.
use agpair.Base.{String, Bool, true, false, not, ◌||◌, List, [], ◌≡◌, refl, arith, elem}
use agpair.Json.{Json, Fields, get, as_object}
use agpair.Result.{Problem, Error, ok, require, OnOk, bind-OnOk, require-OnOk, check-OnOk, read}
use agpair.Options.Profile.{validate_authorization_profile, valid_authorization_profiles}
use agpair.Options.Completion.{normalize_completion_policy, canonical_completion_policies}
use agpair.Options.Canonical.{
  validate_authorization_profile-canonical, normalize_completion_policy-canonical,
}
use agpair.Manifests.Limits.{normalize_limits}
use agpair.Manifests.Bounds.{AreLimits, normalize_limits-AreLimits}
use agpair.Manifests.Coordination.{problem, given, normalize_coordination_policy}
use agpair.Manifests.Node.{ManifestNode, Defaults, validate_nodes}
use agpair.Manifests.Accepted.{AreNodes, validate_nodes-AreNodes}
use agpair.Manifests.Acyclic.{
  Dependencies, Visit, visited, cycle, missing, out_of_fuel, assert_acyclic, Walk,
}
use agpair.Manifests.Acyclic.Order.{assert_acyclic-acyclic}
use agpair.Manifests.Forbidden.{reject_forbidden_fields}
use agpair.Manifests.Validate.{
  WorkflowManifest, Options, name_of, controller_of, nodes_in, dependencies, known_deps, no_cycle,
  is_single, ends_in_synthesis, check_graph, check_size, validate_object, validate_manifest,
  repo_path_of, is_filled, is_one,
}

-- every dependency is a node, none depends on itself, and one is a synthesis or a gate unless there is one only
pub record IsGraph (nodes : List ManifestNode) : Type 0 where
  pub known : known_deps nodes ≡ true
  pub acyclic : (node_id : String) → ¬ Walk (dependencies nodes) node_id node_id
  pub ends : (is_single nodes || ends_in_synthesis nodes) ≡ true

pub record IsManifest (options : Options) (manifest : WorkflowManifest) : Type 0 where
  pub limits : AreLimits options.allow_large_workflow manifest.limits
  pub nodes : AreNodes [] manifest.nodes
  pub graph : IsGraph manifest.nodes
  pub profile : elem manifest.authorization_profile valid_authorization_profiles ≡ true
  pub completion : elem manifest.completion_policy canonical_completion_policies ≡ true
  pub repo_path : (not options.require_repo_path || is_filled manifest.repo_path) ≡ true

no_cycle-ok :
    (nodes : Dependencies) (v : Visit)
    → assert_acyclic nodes ≡ v
    → no_cycle v ≡ ok tt
    → (a : String) → ¬ Walk nodes a a
no_cycle-ok nodes (visited done) e h a w = assert_acyclic-acyclic nodes done a e w
no_cycle-ok nodes cycle e h a w = absurd (ground arith)
no_cycle-ok nodes missing e h a w = absurd (ground arith)
no_cycle-ok nodes out_of_fuel e h a w = absurd (ground arith)

require-last :
    (P : Unit {0} → Type 0) (b : Bool) (e : Error) → (b ≡ true → P tt) → OnOk P (require b e)
require-last P true e h = h refl
require-last P false e h = tt

check_graph-IsGraph : (nodes : List ManifestNode) → check_graph nodes ≡ ok tt → IsGraph nodes
unfolding check_graph
check_graph-IsGraph nodes e =
    let P = λ (u : Unit {0}). IsGraph nodes in
    read P e (
      require-OnOk P (known_deps nodes) _ _ (λ k.
        check-OnOk P (no_cycle (assert_acyclic (dependencies nodes))) _ (λ a.
          require-last P (is_single nodes || ends_in_synthesis nodes) _ (λ z. record {
            known = k;
            acyclic = no_cycle-ok (dependencies nodes) (assert_acyclic (dependencies nodes)) refl a;
            ends = z;
          }))))

module _ (options : Options) where
  validate_object-IsManifest : (d : Fields) → OnOk (IsManifest options) (validate_object d options)
  unfolding validate_object
  validate_object-IsManifest d =
      let P = IsManifest options in
      let large = options.allow_large_workflow in
      require-OnOk P (is_one (get "version" d)) _ _ (λ _. bind-OnOk P (name_of d) _ (λ name _.
        bind-OnOk P (controller_of d) _ (λ controller _.
          require-OnOk P
            (not options.require_repo_path || is_filled (repo_path_of d options.repo_path)) _ _
            (λ r. bind-OnOk P (normalize_limits (get "limits" d) large) _ (λ limits e.
              bind-OnOk P (normalize_coordination_policy (get "coordination_policy" d)) _ (λ c _.
                bind-OnOk P (nodes_in (get "nodes" d)) _ (λ raw _.
                  check-OnOk P (check_size raw limits large) _ (λ _.
                    bind-OnOk P (validate_authorization_profile _) _ (λ p f.
                      bind-OnOk P (normalize_completion_policy _) _ (λ q g.
                        let defaults : Defaults = record {
                          limits = limits;
                          authorization_profile = p;
                          completion_policy = q;
                        } in
                        bind-OnOk P (validate_nodes raw [] defaults) _ (λ nodes i.
                          check-OnOk P (check_graph nodes) _ (λ j. record {
                            limits = normalize_limits-AreLimits _ large limits e;
                            nodes = read (AreNodes []) i (validate_nodes-AreNodes raw [] defaults);
                            graph = check_graph-IsGraph nodes j;
                            profile = (validate_authorization_profile-canonical _ p f).0;
                            completion = (normalize_completion_policy-canonical _ q g).0;
                            repo_path = r;
                          }))))))))))))

  -- A manifest that is accepted has limits in their ranges; nodes with valid ids of which none
  -- comes twice, of a known kind, with known profiles and policies and retries within bounds;
  -- dependencies on nodes of the manifest only, without a cycle; a synthesis or a gate unless it
  -- has one node; a known profile and policy; and a repository path where one is required.
  pub validate_manifest-IsManifest :
      (raw : Json) (manifest : WorkflowManifest)
      → validate_manifest raw options ≡ ok manifest
      → IsManifest options manifest
  unfolding validate_manifest
  validate_manifest-IsManifest raw manifest e =
      let P = IsManifest options in
      read P e (
        bind-OnOk P (given (as_object raw) (problem Problem.not_an_object)) _
          (λ d _. check-OnOk P (reject_forbidden_fields raw) _ (λ _. validate_object-IsManifest d)))
