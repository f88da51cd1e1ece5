-- ===== src/Options/Completion.antt =====
-- completion.py: completion policies, success phases and the statuses of receipts.
use agpair.Base.{
  String, List, [], ◌∷◌, Option, if◌then◌else◌, strip, lower, upper, replace_char, elem, alias,
  or_default, ◌==◌,
}
use agpair.Models.{Phase, evidence_ready, committed, ready_for_review}
use agpair.Result.{Argument, Error, Result, ok, err}

abbrev pub canonical_completion_policies : List String
canonical_completion_policies = "auto" ∷ "evidence" ∷ "report" ∷ "commit" ∷ []

abbrev policy_aliases : List (String × String)
policy_aliases =
    ("direct_commit", "commit")
    ∷ ("evidence_ready", "evidence")
    ∷ ("ready_for_review", "evidence")
    ∷ []

unfoldable pub normalize_completion_policy : Option String → Result String
unfolding strip lower replace_char
normalize_completion_policy value =
    let normalized =
      alias policy_aliases (replace_char "-" "_" (lower (strip (or_default value "auto")))) in
    if elem normalized canonical_completion_policies
    then ok normalized
    else err (Error.value_error Argument.completion_policy)

unfoldable pub normalize_success_phase : Phase → Phase
normalize_success_phase evidence_ready = ready_for_review
normalize_success_phase committed = ready_for_review
normalize_success_phase ready_for_review = ready_for_review
normalize_success_phase phase = phase

unfoldable pub normalize_receipt_status : Option String → String
unfolding strip upper
normalize_receipt_status status =
    let value = upper (strip (or_default status "")) in
    if value == "READY_FOR_REVIEW" then "EVIDENCE_PACK" else value
