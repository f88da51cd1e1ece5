-- ===== src/Completion/Effective.antt =====
-- What the policy of a task entails.
use agpair.Base.{
  String, true, not, [], ◌∷◌, Option, ◌≡◌, refl, arith, elem, any_contained, ◌==◌, eq_iff, subst,
  Bool-cases, inl, inr,
}
use agpair.Base.Append.{differ_sym}
use agpair.Base.Chain.{if-rule}
use agpair.Result.{ok, OnOk, bind-OnOk}
use agpair.Options.Completion.{normalize_completion_policy, canonical_completion_policies}
use agpair.Options.Canonical.{normalize_completion_policy-canonical}
use agpair.Completion.Policy.{
  EffectiveTaskPolicy, resolve_effective_task_policy, derive_effective_task_safety, policy_of,
  effective_of, readonly_hints, commit_hints,
}
use agpair.Completion.Reviewed.{implies}

-- A policy that resolves has evidence, report or commit as its effect, asks for a commit exactly
-- for commit, for a report exactly for report, and always for machine evidence.
pub record IsEffective (p : EffectiveTaskPolicy) : Type 0 where
  pub effective : elem p.effective_completion_policy ("evidence" ∷ "report" ∷ "commit" ∷ []) ≡ true
  pub commit : p.requires_commit ≡ (p.effective_completion_policy == "commit")
  pub report : p.requires_report ≡ (p.effective_completion_policy == "report")
  pub evidence : p.requires_machine_evidence ≡ true
  pub edits : p.allows_file_edits ≡ not (p.authorization_profile == "local_readonly")
  pub commit_edits : implies p.allows_commit p.allows_file_edits ≡ true
  pub safety :
      (derive_effective_task_safety p).is_concurrency_safe
      ≡ (p.authorization_profile == "local_readonly")

abbrev IsKnown : String × String → Type 0
IsKnown found = elem found.0 ("evidence" ∷ "report" ∷ "commit" ∷ []) ≡ true

effective_of-known :
    (requested authorization body : String)
    → elem requested canonical_completion_policies ≡ true
    → elem (effective_of requested authorization body).0 ("evidence" ∷ "report" ∷ "commit" ∷ [])
      ≡ true
unfolding effective_of
effective_of-known requested authorization body known =
    if-rule IsKnown (requested == "auto") _ _
      (λ _.
        if-rule IsKnown (authorization == "local_readonly") _ _ (λ _. refl)
          (λ _.
            if-rule IsKnown (any_contained readonly_hints body) _ _ (λ _. refl)
              (λ _. if-rule IsKnown (any_contained commit_hints body) _ _ (λ _. refl) (λ _. refl))))
      (λ n. rw (differ_sym requested "auto" n) at known)

policy_of-IsEffective :
    (requested authorization body controller : String)
    → elem requested canonical_completion_policies ≡ true
    → IsEffective (policy_of requested authorization body controller)
unfolding policy_of derive_effective_task_safety
policy_of-IsEffective requested authorization body controller known = record {
  effective = effective_of-known requested authorization body known;
  commit = refl;
  report = refl;
  evidence = refl;
  edits = refl;
  commit_edits = elim (Bool-cases (authorization == "local_readonly")) [
    | inl y ↦ rw ((eq_iff authorization "local_readonly").0 y) refl
    | inr n ↦ rw n (ground arith)
  ];
  safety = ground arith;
}

-- A policy that resolves has evidence, report or commit as its effect, requires a commit exactly
-- for commit, a report exactly for report, and always machine evidence; it allows edits unless the
-- profile is local_readonly, which alone is safe to run beside others, and allows a commit only
-- with edits.
pub resolve_effective_task_policy-IsEffective :
    (requested : Option String) (authorization : String) (body controller : Option String)
    (p : EffectiveTaskPolicy)
    → resolve_effective_task_policy requested authorization body controller ≡ ok p
    → IsEffective p
unfolding resolve_effective_task_policy
resolve_effective_task_policy-IsEffective requested authorization body controller p e =
    subst (OnOk IsEffective) e (
      bind-OnOk IsEffective (normalize_completion_policy requested) _ (λ r same.
        policy_of-IsEffective r _ _ _ (normalize_completion_policy-canonical requested r same).0))
