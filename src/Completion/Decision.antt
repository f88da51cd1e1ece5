-- ===== src/Completion/Decision.antt =====
-- completion.py: `evaluate_completion`, the decision at the end of an attempt.
use agpair.Base.{
  zero, String, Bool, true, false, not, ◌&&◌, List, [], ◌∷◌, Option, none, some, elem, or_default,
  or_option, if◌then◌else◌, ◌==◌,
}
use agpair.Base.Signed.{ℤ, pos}
use agpair.Json.{Json, Fields, text, array, cons, end, get, put}
use agpair.Models.{Phase, blocked, ready_for_review}
use agpair.Options.Completion.{normalize_receipt_status}
use agpair.Completion.Policy.{EffectiveTaskPolicy}
use agpair.Completion.Evidence.{
  ExecutionEvidence, string_value, get_from, payload_of, has_words, has_report, has_output,
  has_machine_evidence,
}

pub record CompletionDecision : Type 0 where
  pub phase : Phase
  pub ok : Bool
  pub summary : String
  pub blocker_type : Option String
  pub terminal_status : Option String
  pub receipt : Option Fields
  pub effective_policy : EffectiveTaskPolicy
  pub reason_code : String

-- the arguments of `evaluate_completion`
pub record Ending : Type 0 where
  pub effective_policy : EffectiveTaskPolicy
  pub receipt : Option Fields
  pub evidence : ExecutionEvidence
  pub process_returncode : Option ℤ
  pub structured_receipt_ok : Bool

abbrev pub review_statuses : List String
review_statuses = "COMMITTED" ∷ "EVIDENCE_PACK" ∷ []

unfoldable pub status_of : Ending → String
status_of e = normalize_receipt_status (string_value (get_from e.receipt "status"))

unfoldable pub summary_of : Ending → String
summary_of e =
    or_default
      (or_option (string_value (get_from e.receipt "summary"))
        (string_value (get "message" (payload_of e.receipt))))
      "terminal decision"

-- `isinstance(scope_violations, list) and scope_violations`
abbrev pub is_filled_list : Json → Bool
is_filled_list (array (cons v vs)) = true
is_filled_list _ = false

unfoldable pub has_scope_violations : Ending → Bool
has_scope_violations e = is_filled_list (get "scope_violations" (payload_of e.receipt))

-- `returncode not in (None, 0)`
abbrev pub failed : Option ℤ → Bool
failed none = false
failed (some (pos zero)) = false
failed (some code) = true

abbrev pub is_given : Option ℤ → Bool
is_given none = false
is_given (some code) = true

-- a decision that blocks, for a reason that is also the kind of the blocker
abbrev block : Ending → String → Option String → String → String → CompletionDecision
block e summary status blocker reason = record {
  phase = blocked;
  ok = false;
  summary = summary;
  blocker_type = some blocker;
  terminal_status = status;
  receipt = e.receipt;
  effective_policy = e.effective_policy;
  reason_code = reason;
}

-- `status or None`
abbrev given_status : String → Option String
given_status status = if status == "" then none else some status

unfoldable pub reviewed_status : Ending → String
reviewed_status e = if elem (status_of e) review_statuses then status_of e else "EVIDENCE_PACK"

abbrev pub receipt_or_empty : Option Fields → Fields
receipt_or_empty none = end
receipt_or_empty (some d) = d

unfoldable pub accept : Ending → CompletionDecision
unfolding reviewed_status
accept e = record {
  phase = ready_for_review;
  ok = true;
  summary = summary_of e;
  blocker_type = none;
  terminal_status = some (reviewed_status e);
  receipt = some (put "status" (text (reviewed_status e)) (receipt_or_empty e.receipt));
  effective_policy = e.effective_policy;
  reason_code = "ready_for_review";
}

module _ (is_file : String → Bool) where
  -- the requirements of the policy, in the order in which they are checked
  unfoldable pub by_policy : Ending → CompletionDecision
  by_policy e =
      let status = given_status (status_of e) in
      if e.effective_policy.requires_commit && not (has_words e.evidence.commit_ref)
      then block e "commit policy requires a task-specific commit" status
          "missing_commit_for_commit_policy" "missing_commit_for_commit_policy"
      else if e.effective_policy.requires_report && not (has_report is_file e.evidence)
      then block e "report policy requires captured report output" status "report_output_missing"
          "report_output_missing"
      else if e.effective_policy.requires_machine_evidence
          && not (has_machine_evidence is_file e.evidence)
      then block e "machine-readable evidence missing" status "evidence_missing" "evidence_missing"
      else if failed e.process_returncode && not (elem (status_of e) review_statuses)
      then block e (summary_of e) status "execution_error" "execution_error"
      else accept e

  unfoldable pub evaluate_completion : Ending → CompletionDecision
  evaluate_completion e =
      let blocker =
        or_default (string_value (get "blocker_type" (payload_of e.receipt))) "unknown" in
      let status = given_status (status_of e) in
      if status_of e == "BLOCKED"
      then block e (summary_of e) (some (status_of e)) blocker blocker
      else if (status_of e == "")
          && not (has_machine_evidence is_file e.evidence)
          && not (has_output is_file e.evidence)
          && is_given e.process_returncode
      then (if e.effective_policy.requires_report
          then block e "executor exited without report or terminal receipt" status
              "report_output_missing" "report_output_missing"
          else block e "executor output missing" status "output_missing" "output_missing")
      else if has_scope_violations e
      then block e "structured receipt reported scope violations" status "validation_failure"
          "scope_violations"
      else if not e.structured_receipt_ok
      then block e "structured receipt failed validation" status "validation_failure"
          "receipt_validation_failed"
      else by_policy e
