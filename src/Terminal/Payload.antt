-- ===== src/Terminal/Payload.antt =====
-- terminal_receipts.py: what the payload of a terminal receipt must hold.
use agpair.Base.{
  String, Bool, true, false, not, ◌&&◌, ◌||◌, List, [], ◌∷◌, ◌++◌, strip, elem, select,
  if◌then◌else◌, ◌==◌,
}
use agpair.Json.{Json, Items, Fields, null, text, array, nil, cons, has, get, truth}

pub record ReceiptValidationResult : Type 0 where
  pub ok : Bool
  pub required_missing : List String

-- `isinstance(value, str) and bool(value.strip())`
unfoldable pub is_filled : Json → Bool
unfolding strip
is_filled (text s) = not (strip s == "")
is_filled _ = false

unfoldable pub receipt_payload_has_missing_artifact_path : Fields → Bool
receipt_payload_has_missing_artifact_path payload =
    not (is_filled (get "raw_log_path" payload)) || not (is_filled (get "receipt_path" payload))

unfoldable pub payload_has_report : Fields → Bool
payload_has_report payload = is_filled (get "report" payload)

abbrev any_filled : Items → Bool
any_filled nil = false
any_filled (cons v vs) = is_filled v || any_filled vs

unfoldable pub declares : Json → Bool
declares null = false
declares (text s) = is_filled (text s)
declares (array vs) = any_filled vs
declares _ = true

unfoldable pub payload_declares_changed_files : Fields → Bool
payload_declares_changed_files payload =
    has "changed_files" payload && declares (get "changed_files" payload)

unfoldable pub payload_is_report_only : Fields → Bool
unfolding payload_has_report payload_declares_changed_files
payload_is_report_only payload =
    payload_has_report payload && not (payload_declares_changed_files payload)

-- `value == s` for a JSON value
abbrev pub is_text : Json → String → Bool
is_text (text v) s = v == s
is_text _ s = false

abbrev pub approval_fields : List String
approval_fields =
    "requested_authorization_profile" ∷ "requested_actions" ∷ "authorization_delta"
    ∷ "request_reason" ∷ "risk_assessment" ∷ "safe_to_retry" ∷ "raw_log_path" ∷ []

abbrev pub report_fields : List String
report_fields = "raw_log_path" ∷ "receipt_path" ∷ []

abbrev pub review_fields : List String
review_fields = "changed_files" ∷ "scope_violations" ∷ "raw_log_path" ∷ "receipt_path" ∷ []

abbrev missing_of : List String → Fields → List String
missing_of required payload = select (λ name. not (has name payload)) required

abbrev pub is_empty : List String → Bool
is_empty [] = true
is_empty (x ∷ xs) = false

abbrev pub has_validation : Fields → Bool
has_validation payload =
    truth (get "validation" payload) || truth (get "validation_not_run" payload)

abbrev validation_of : List String → ReceiptValidationResult
validation_of missing = record { ok = is_empty missing; required_missing = missing }

unfoldable pub validate_terminal_receipt_payload : String → Fields → Bool → ReceiptValidationResult
unfolding payload_is_report_only
validate_terminal_receipt_payload kind payload report_only =
    if kind == "BLOCKED" && is_text (get "blocker_type" payload) "approval_required"
    then validation_of (missing_of approval_fields payload)
    else if elem kind ("COMMITTED" ∷ "EVIDENCE_PACK" ∷ [])
        || is_text (get "claimed_state" payload) "ready_for_review"
    then (if report_only || payload_is_report_only payload
        then validation_of (missing_of report_fields payload)
        else validation_of (
            missing_of review_fields payload
            ++ (if has_validation payload then [] else "validation" ∷ [])))
    else validation_of []
