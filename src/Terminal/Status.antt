-- ===== src/Terminal/Status.antt =====
-- terminal_receipts.py: the statuses of terminal receipts and their aliases.
use agpair.Base.{
  String, Bool, true, false, not, ◌&&◌, List, [], ◌∷◌, Option, none, some, strip, lower, elem,
  if◌then◌else◌,
}
use agpair.Json.{Json, text, or_json, text_of}

abbrev pub valid_statuses : List String
valid_statuses = "EVIDENCE_PACK" ∷ "BLOCKED" ∷ "COMMITTED" ∷ []

abbrev evidence_words : List String
evidence_words =
    "evidence_pack" ∷ "evidence-ready" ∷ "evidence_ready" ∷ "ready-for-review" ∷ "ready_for_review"
    ∷ "report" ∷ "report_only" ∷ "success" ∷ "succeeded" ∷ "complete" ∷ "completed" ∷ "done" ∷ []

-- `_STATUS_ALIASES.get(s)`
unfoldable pub status_alias : String → Option String
status_alias s =
    if elem s evidence_words
    then some "EVIDENCE_PACK"
    else if elem s ("blocked" ∷ "block" ∷ "failed" ∷ "failure" ∷ [])
    then some "BLOCKED"
    else if elem s ("committed" ∷ "commit" ∷ [])
    then some "COMMITTED"
    else none

unfoldable pub normalize_status_text : String → Option String
unfolding strip lower
normalize_status_text value =
    let stripped = strip value in
    if elem stripped valid_statuses then some stripped else status_alias (lower stripped)

-- Only a text has a status.
unfoldable pub normalize_status : Json → Option String
unfolding normalize_status_text
normalize_status (text value) = normalize_status_text value
normalize_status _ = none

unfoldable pub status_is_alias : Json → Bool
unfolding strip
status_is_alias (text value) =
    not (elem (strip value) valid_statuses)
    && elim (normalize_status (text value)) [ none ↦ false | some s ↦ true ]
status_is_alias _ = false

unfoldable pub schema_is_alias : Json → Bool
unfolding strip
schema_is_alias value = elem (strip (text_of (or_json value (text "")))) ("1.0" ∷ "1.0.0" ∷ [])
