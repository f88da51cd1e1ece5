-- ===== src/Terminal/Derived.antt =====
-- terminal_receipts.py: what the rest of the program keeps of a receipt.
use agpair.Base.{
  String, Bool, false, List, [], ◌∷◌, Option, none, some, strip, elem, if◌then◌else◌, ◌==◌,
}
use agpair.Json.{
  Json, Items, Fields, boolean, text, array, nil, cons, end, field, get, put, or_json, as_text,
}
use agpair.Terminal.Structured.{StructuredTerminalReceipt}

abbrev filled_items : Items → Items
filled_items nil = nil
filled_items (cons v vs) =
    let rest = filled_items vs in
    elim (as_text v) [
      | none ↦ rest
      | some s ↦ if strip s == "" then rest else cons (text (strip s)) rest
    ]

unfoldable pub normalize_listish_field : Json → Items
unfolding strip
normalize_listish_field (text s) = filled_items (cons (text s) nil)
normalize_listish_field (array vs) = filled_items vs
normalize_listish_field _ = nil

abbrev pub listish_committed_fields : List String
listish_committed_fields = "changed_files" ∷ "validation" ∷ "residual_risks" ∷ []

abbrev normalized_payload : Fields → Fields
normalized_payload end = end
normalized_payload (field key value d) =
    field key
      (if elem key listish_committed_fields then array (normalize_listish_field value) else value)
      (normalized_payload d)

-- `{**d, **e}`
abbrev pub update_with : Fields → Fields → Fields
update_with d end = d
update_with d (field key value e) = update_with (put key value d) e

unfoldable pub committed_result_from_receipt : StructuredTerminalReceipt → Option Fields
unfolding normalize_listish_field
committed_result_from_receipt receipt =
    if receipt.status == "COMMITTED"
    then some (
        update_with
          (field "schema_version" (text receipt.schema_version)
            (field "summary" (text receipt.summary) end))
          (normalized_payload receipt.payload))
    else none

pub record FailureContext : Type 0 where
  pub summary : String
  pub blocker_type : String
  pub recoverable : Bool
  pub recommended_next_action : String
  pub last_error_excerpt : String
  pub details : Fields

-- the stripped text, or another where it is blank or no text
unfoldable pub filled_or : Json → String → String
unfolding strip
filled_or value other = elim (as_text value) [
  | none ↦ strip other
  | some s ↦ if strip s == "" then strip other else strip s
]

unfoldable pub blocked_failure_context_from_receipt :
    StructuredTerminalReceipt → Option FailureContext
unfolding filled_or
blocked_failure_context_from_receipt receipt =
    if receipt.status == "BLOCKED"
    then some record {
      summary = receipt.summary;
      blocker_type = filled_or (get "blocker_type" receipt.payload) "unknown";
      recoverable = elim (get "recoverable" receipt.payload) [ boolean b ↦ b | _ ↦ false ];
      recommended_next_action =
          filled_or
            (or_json (get "recommended_next_action" receipt.payload)
              (get "suggested_action" receipt.payload))
            "inspect_logs";
      last_error_excerpt =
          filled_or (get "last_error_excerpt" receipt.payload)
            (filled_or (get "message" receipt.payload) receipt.summary);
      details = receipt.payload;
    }
    else none

unfoldable pub blocked_reason_from_receipt : StructuredTerminalReceipt → String → String
unfolding strip
blocked_reason_from_receipt receipt fallback =
    if strip receipt.summary == ""
    then elim (as_text (get "message" receipt.payload)) [
      | none ↦ fallback
      | some s ↦ if strip s == "" then fallback else strip s
    ]
    else strip receipt.summary
