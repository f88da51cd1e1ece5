-- ===== src/Manifests/Accepted.antt =====
-- What holds of a manifest that is accepted.
use agpair.Base.{
  ◌≤◌, String, true, false, not, ◌&&◌, List, [], ◌∷◌, ◌≡◌, arith, elem, length, leb, leb→le,
  Bool-cases, inl, inr, strip, ◌==◌,
}
use agpair.Base.Signed.{pos}
use agpair.Json.{
  Json, Items, Fields, text, integer, nil, cons, get, as_text, as_object, null, array,
}
use agpair.Result.{Problem, Error, OnOk, bind-OnOk, require-OnOk, read}
use agpair.Options.Profile.{validate_authorization_profile, valid_authorization_profiles}
use agpair.Options.Completion.{normalize_completion_policy, canonical_completion_policies}
use agpair.Options.Canonical.{
  validate_authorization_profile-canonical, normalize_completion_policy-canonical,
}
use agpair.Manifests.Limits.{normalize_int}
use agpair.Manifests.Bounds.{Between, normalize_int-Between}
use agpair.Manifests.Coordination.{problem, given, get_or, texts_of}
use agpair.Manifests.Node.{
  ManifestNode, Defaults, id_of, as_member, role_of, dependencies_of, body_of, validate_node,
  validate_nodes, node_kinds, executor_of, deps_value, matches_node_id,
}

-- a node of a known kind, with at most 20 dependencies and 10 retries, a valid profile and policy, and
-- an id that no node before it has
pub record IsNode (ids : List String) (node : ManifestNode) : Type 0 where
  pub matches : matches_node_id node.node_id ≡ true
  pub fresh : elem node.node_id ids ≡ false
  pub kind : elem node.kind node_kinds ≡ true
  pub dependencies : length node.depends_on ≤ 20
  pub profile : elem node.authorization_profile valid_authorization_profiles ≡ true
  pub completion : elem node.completion_policy canonical_completion_policies ≡ true
  pub retries : node.max_retries ≤ 10

-- every node in turn, beside the ids of those before it
abbrev pub AreNodes : List String → List ManifestNode → Type 0
AreNodes ids [] = Unit
AreNodes ids (node ∷ nodes) = IsNode ids node × AreNodes (node.node_id ∷ ids) nodes

record IsId (ids : List String) (node_id : String) : Type 0 where
  matches : matches_node_id node_id ≡ true
  fresh : elem node_id ids ≡ false

id_of-IsId : (node : Fields) (ids : List String) → OnOk (IsId ids) (id_of node ids)
unfolding id_of
id_of-IsId node ids =
    bind-OnOk (IsId ids) (given (as_text (get "id" node)) (problem Problem.bad_node_id)) _ (λ s _.
      require-OnOk (IsId ids) (not (strip s == "") && matches_node_id s) _ _ (λ m.
        require-OnOk (IsId ids) (not (elem s ids)) _ _
          (λ f. record { matches = ground arith; fresh = ground arith })))

as_member-In :
    (value : Json) (allowed : List String) (e : Error)
    → OnOk (λ s. elem s allowed ≡ true) (as_member value allowed e)
as_member-In (text s) allowed e = elim (Bool-cases (elem s allowed)) [
  | inl y ↦ rw y y
  | inr n ↦ rw n tt
]
as_member-In null allowed e = tt
as_member-In (Json.boolean b) allowed e = tt
as_member-In (integer n) allowed e = tt
as_member-In (Json.floating n) allowed e = tt
as_member-In (array vs) allowed e = tt
as_member-In (Json.object d) allowed e = tt

dependencies_of-le : (node : Fields) → OnOk (λ deps. length deps ≤ 20) (dependencies_of node)
unfolding dependencies_of
dependencies_of-le node =
    let P = λ (deps : List String). length deps ≤ 20 in
    bind-OnOk P
      (given (texts_of (deps_value (get "depends_on" node))) (problem Problem.bad_dependencies)) _
      (λ deps _. require-OnOk P (leb (length deps) 20) _ _ (λ h. leb→le _ _ h))

validate_node-IsNode :
    (node : Fields) (ids : List String) (defaults : Defaults)
    → OnOk (IsNode ids) (validate_node node ids defaults)
unfolding validate_node
validate_node-IsNode node ids defaults =
    let P = IsNode ids in
    bind-OnOk P (id_of node ids) _ (λ s e.
      bind-OnOk P
        (as_member (get_or "kind" node (text "task")) node_kinds (problem Problem.bad_kind)) _
        (λ k f. bind-OnOk P (role_of (get "coordination_role" node)) _ (λ r _.
          bind-OnOk P (dependencies_of node) _ (λ deps g. bind-OnOk P (body_of node k) _ (λ b _.
            bind-OnOk P (validate_authorization_profile _) _ (λ p i.
              bind-OnOk P (normalize_completion_policy _) _ (λ c j.
                bind-OnOk P
                  (normalize_int
                    (get_or "max_retries" node (integer (pos defaults.limits.max_retries_per_node)))
                    0 10)
                  _
                  (λ t u. bind-OnOk P (executor_of (get "executor" node)) _ (λ x _.
                    let is = read (IsId ids) e (id_of-IsId node ids) in
                    let between = read (Between 0 10) u (
                      normalize_int-Between
                        (get_or "max_retries" node
                          (integer (pos defaults.limits.max_retries_per_node)))
                        0 10) in
                    record {
                      matches = is.matches;
                      fresh = is.fresh;
                      kind =
                          read (λ s. elem s node_kinds ≡ true) f
                            (as_member-In (get_or "kind" node (text "task")) node_kinds
                              (problem Problem.bad_kind));
                      dependencies =
                          read (λ (ds : List String). length ds ≤ 20) g (dependencies_of-le node);
                      profile = (validate_authorization_profile-canonical _ p i).0;
                      completion = (normalize_completion_policy-canonical _ c j).0;
                      retries = between.1;
                    })))))))))

pub validate_nodes-AreNodes :
    (items : Items) (ids : List String) (defaults : Defaults)
    → OnOk (AreNodes ids) (validate_nodes items ids defaults)
unfolding validate_nodes
validate_nodes-AreNodes nil ids defaults = tt
validate_nodes-AreNodes (cons v vs) ids defaults =
    bind-OnOk (AreNodes ids) (given (as_object v) (problem Problem.bad_node)) _ (λ d _.
      bind-OnOk (AreNodes ids) (validate_node d ids defaults) _ (λ node e.
        bind-OnOk (AreNodes ids) (validate_nodes vs (node.node_id ∷ ids) defaults) _ (λ nodes f. (
          read (IsNode ids) e (validate_node-IsNode d ids defaults),
          read (AreNodes (node.node_id ∷ ids)) f
              (validate_nodes-AreNodes vs (node.node_id ∷ ids) defaults),
        ))))
