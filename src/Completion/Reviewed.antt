-- ===== src/Completion/Reviewed.antt =====
-- What the decision at the end of an attempt entails.
use agpair.Base.{
  String, Bool, true, false, not, ◌&&◌, ◌||◌, Option, none, some, ◌≡◌, refl, ap, ◌∙◌, arith, elem,
  ◌==◌, if◌then◌else◌,
}
use agpair.Json.Laws.{get-put}
use agpair.Json.{Fields, Json, text, get}
use agpair.Base.Chain.{if-rule}
use agpair.Models.{blocked, ready_for_review}
use agpair.Completion.Policy.{EffectiveTaskPolicy}
use agpair.Completion.Evidence.{
  ExecutionEvidence, has_words, has_report, has_output, has_machine_evidence,
}
use agpair.Completion.Decision.{
  Ending, CompletionDecision, status_of, has_scope_violations, failed, is_given, review_statuses,
  by_policy, evaluate_completion, accept, reviewed_status, receipt_or_empty,
}

-- an end that shows nothing at all
abbrev pub is_silent : (String → Bool) → Ending → Bool
is_silent is_file e =
    (status_of e == "")
    && not (has_machine_evidence is_file e.evidence)
    && not (has_output is_file e.evidence)
    && is_given e.process_returncode

abbrev pub implies : Bool → Bool → Bool
implies a b = not a || b

-- what a policy asks of the evidence
abbrev pub meets : (String → Bool) → EffectiveTaskPolicy → ExecutionEvidence → Bool
meets is_file p e =
    implies p.requires_commit (has_words e.commit_ref)
    && implies p.requires_report (has_report is_file e)
    && implies p.requires_machine_evidence (has_machine_evidence is_file e)

-- the status that the receipt of a decision carries
abbrev pub receipt_status : Option Fields → Json
receipt_status none = Json.null
receipt_status (some d) = get "status" d

module _ (is_file : String → Bool) where
  by_policy-ok :
      (e : Ending)
      → (by_policy is_file e).ok ≡ (
          meets is_file e.effective_policy e.evidence
          && implies (failed e.process_returncode) (elem (status_of e) review_statuses))
  unfolding by_policy accept
  by_policy-ok e = ground arith

  -- The end of an attempt is accepted exactly if its receipt is not BLOCKED, it is not silent (no
  -- status and no evidence or output, of a process that ended), the receipt reports no scope
  -- violations and is valid, the evidence meets the commit, report and machine evidence that the
  -- policy requires, and a process that failed has a receipt that is COMMITTED or EVIDENCE_PACK.
  pub evaluate_completion-ok :
      (e : Ending)
      → (evaluate_completion is_file e).ok ≡ (
          not (status_of e == "BLOCKED")
          && not (is_silent is_file e)
          && not (has_scope_violations e)
          && e.structured_receipt_ok
          && meets is_file e.effective_policy e.evidence
          && implies (failed e.process_returncode) (elem (status_of e) review_statuses))
  unfolding evaluate_completion
  evaluate_completion-ok e = ground (arith, by_policy-ok e)

  -- A decision that says no blocks, and one that says yes accepts the end.
  record Follows (e : Ending) (d : CompletionDecision) : Type 0 where
    phase : d.phase ≡ (if d.ok then ready_for_review else blocked)
    accepts : d.ok ≡ true → d ≡ accept e

  blocks : (e : Ending) (d : CompletionDecision) → d.ok ≡ false → d.phase ≡ blocked → Follows e d
  blocks e d n b = record { phase = ground arith; accepts = λ y. absurd (ground arith) }

  accept-Follows : (e : Ending) → Follows e (accept e)
  unfolding accept
  accept-Follows e = record { phase = refl; accepts = λ y. refl }

  -- A blocking answer, or another that follows.
  or-blocks :
      (e : Ending) (b : Bool) (d k : CompletionDecision)
      → d.ok ≡ false
      → d.phase ≡ blocked
      → Follows e k
      → Follows e (if b then d else k)
  or-blocks e b d k n p after = if-rule (Follows e) b d k (λ _. blocks e d n p) (λ _. after)

  by_policy-Follows : (e : Ending) → Follows e (by_policy is_file e)
  unfolding by_policy
  by_policy-Follows e =
      or-blocks e (e.effective_policy.requires_commit && not (has_words e.evidence.commit_ref)) _ _
        refl refl
        (or-blocks e (e.effective_policy.requires_report && not (has_report is_file e.evidence)) _ _
          refl refl
          (or-blocks e
            (e.effective_policy.requires_machine_evidence
              && not (has_machine_evidence is_file e.evidence))
            _ _ refl refl
            (or-blocks e (failed e.process_returncode && not (elem (status_of e) review_statuses)) _
              _ refl refl (accept-Follows e))))

  silent-Follows :
      (e : Ending) (b : Bool) (x y : CompletionDecision)
      → x.ok ≡ false
      → x.phase ≡ blocked
      → y.ok ≡ false
      → y.phase ≡ blocked
      → Follows e (if b then x else y)
  silent-Follows e b x y n p m q = or-blocks e b x y n p (blocks e y m q)

  evaluate_completion-Follows : (e : Ending) → Follows e (evaluate_completion is_file e)
  unfolding evaluate_completion
  evaluate_completion-Follows e = or-blocks e (status_of e == "BLOCKED") _ _ refl refl (
      if-rule (Follows e) (is_silent is_file e) _ _
        (λ _. silent-Follows e e.effective_policy.requires_report _ _ refl refl refl refl)
        (λ _.
          or-blocks e (has_scope_violations e) _ _ refl refl
            (or-blocks e (not e.structured_receipt_ok) _ _ refl refl (by_policy-Follows e))))

  accept-status :
      (e : Ending)
      → (elem (reviewed_status e) review_statuses ≡ true)
        × ((accept e).terminal_status ≡ some (reviewed_status e))
        × (receipt_status (accept e).receipt ≡ text (reviewed_status e))
  unfolding accept reviewed_status
  accept-status e = (
    if-rule (λ s. elem s review_statuses ≡ true) (elem (status_of e) review_statuses) _ _ (λ y. y)
        (λ _. refl),
    refl,
    get-put "status" _ (receipt_or_empty e.receipt),
  )

  -- An attempt that is accepted is ready for review, and the status of the decision and of the
  -- receipt that goes with it is COMMITTED or EVIDENCE_PACK, the same in both.
  pub evaluate_completion-review :
      (e : Ending)
      → (evaluate_completion is_file e).ok ≡ true
      → ((evaluate_completion is_file e).phase ≡ ready_for_review)
        × (elem (reviewed_status e) review_statuses ≡ true)
        × ((evaluate_completion is_file e).terminal_status ≡ some (reviewed_status e))
        × (receipt_status (evaluate_completion is_file e).receipt ≡ text (reviewed_status e))
  evaluate_completion-review e h =
      let follows = evaluate_completion-Follows e in
      let (known, status, receipt) = accept-status e in
      (
        rw h at follows.phase,
        known,
        ap (λ (d : CompletionDecision). d.terminal_status) (follows.accepts h) ∙ status,
        ap (λ (d : CompletionDecision). receipt_status d.receipt) (follows.accepts h) ∙ receipt,
      )
