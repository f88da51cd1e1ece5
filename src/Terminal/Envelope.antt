-- ===== src/Terminal/Envelope.antt =====
-- terminal_receipts.py: a receipt made of the envelope in which an executor reports its own success.
use Prim.Native.String.{count, ◌++◌}
use agpair.Base.{
  String, Bool, true, false, not, ◌&&◌, ◌||◌, List, [], ◌∷◌, Option, none, some, strip, lower,
  rstrip, splitlines, take_chars, elem, ltb, if◌then◌else◌, ◌==◌,
}
use agpair.Base.Signed.{pos}
use agpair.Base.Chain.{◌>>=◌, ◌>>◌, require}
use agpair.Json.{
  Json, Fields, text, array, nil, end, field, get, is_boolean, or_json, text_of, as_text,
}
use agpair.Terminal.Status.{normalize_status_text}
use agpair.Terminal.Structured.{StructuredTerminalReceipt, Expected}
use agpair.Terminal.Wrapped.{wrapped_text_keys}

-- `str(value or "").strip().lower()`
unfoldable pub word_of : Json → String
unfolding strip lower
word_of value = lower (strip (text_of (or_json value (text ""))))

-- the guard on the status that the caller expects
unfoldable pub expects_evidence : Option String → Bool
expects_evidence none = true
expects_evidence (some s) = elim (normalize_status_text s) [
  | none ↦ true
  | some status ↦ status == "EVIDENCE_PACK"
]

abbrev cancelled_reasons : List String
cancelled_reasons = "cancelled" ∷ "canceled" ∷ "maxturns" ∷ "max_turns" ∷ "max turns" ∷ []

unfoldable pub is_success : Fields → Bool
unfolding word_of
is_success d =
    is_boolean false (get "is_error" d)
    || word_of (get "subtype" d) == "success"
    || elem (word_of (get "status" d)) ("success" ∷ "succeeded" ∷ "complete" ∷ "completed" ∷ [])
    || (word_of (get "type" d) == "result"
        && not
            (elem (word_of (or_json (get "stop_reason" d) (get "stopReason" d))) cancelled_reasons))

-- `value.strip()` of the first of the keys whose value is a text that is not blank
abbrev pub first_filled : List String → Fields → Option String
first_filled [] d = none
first_filled (key ∷ keys) d =
    let rest = first_filled keys d in
    elim (as_text (get key d)) [
      | none ↦ rest
      | some s ↦ if strip s == "" then rest else some (strip s)
    ]

abbrev pub first_line : List String → Option String
first_line [] = none
first_line (line ∷ rest) =
    let later = first_line rest in if strip line == "" then later else some (strip line)

abbrev shorten : String → String
shorten summary =
    if ltb 180 (count summary) then rstrip (take_chars 177 summary) ++ "..." else summary

unfoldable pub summary_of : String → String
unfolding strip rstrip splitlines
summary_of report = elim (first_line (splitlines report)) [
  | none ↦ "Executor produced a report"
  | some line ↦ shorten line
]

abbrev pub envelope_task_id : Fields → Option String → Option String
envelope_task_id d expected = elim (as_text (get "task_id" d)) [ none ↦ expected | some s ↦ some s ]

unfoldable pub envelope_payload : String → Fields
envelope_payload report = field "claimed_state" (text "ready_for_review") (
    field "changed_files" (array nil) (
      field "scope_violations" (array nil) (
        field "validation_not_run" (text "executor returned native success envelope")
          (field "report" (text report) end))))

unfoldable pub receipt_from_native_success_envelope :
    Fields → String → Expected → Option StructuredTerminalReceipt
unfolding strip
receipt_from_native_success_envelope d raw_body expected = do
  require (expects_evidence expected.status)
  require (not (is_boolean true (get "is_error" d)))
  require (is_success d)
  task_id ← envelope_task_id d expected.task_id
  require (not (strip task_id == ""))
  report ← first_filled wrapped_text_keys d
  some record {
    schema_version = "1";
    task_id = task_id;
    attempt_no = pos 1;
    review_round = pos 0;
    status = "EVIDENCE_PACK";
    summary = summary_of report;
    payload = envelope_payload report;
    raw_body = raw_body;
  }
