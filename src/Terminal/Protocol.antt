-- ===== src/Terminal/Protocol.antt =====
-- terminal_receipts.py: `normalize_terminal_receipt`, which looks for a receipt in the text of an executor.
use agpair.Base.{
  String, Bool, true, false, List, [], ◌∷◌, ◌++◌, Option, none, some, strip, splitlines,
  starts_with, reverse, if◌then◌else◌, ◌==◌,
}
use agpair.Base.Chain.{◌>>=◌, ◌<|>◌, if_some, require}
use agpair.Json.{Json, Fields, null, get, as_object, is_null}
use agpair.Terminal.Payload.{is_empty, receipt_payload_has_missing_artifact_path}
use agpair.Terminal.Status.{schema_is_alias, status_is_alias}
use agpair.Terminal.Structured.{
  StructuredTerminalReceipt, Expected, validate_structured_receipt_dict,
}
use agpair.Terminal.Scan.{balanced_json_object_candidates}
use agpair.Terminal.Wrapped.{wrapped_text_candidates}
use agpair.Terminal.Envelope.{receipt_from_native_success_envelope}

pub record ReceiptProtocolResult : Type 0 where
  pub receipt : Option StructuredTerminalReceipt
  pub ok : Bool
  pub warnings : List String
  pub errors : List String
  pub raw_body : String

unfoldable pub has_usable_receipt : ReceiptProtocolResult → Bool
has_usable_receipt r = elim r.receipt [ none ↦ false | some receipt ↦ is_empty r.errors ]

-- `dict.fromkeys`: each warning where it came first
abbrev pub without : String → List String → List String
without s [] = []
without s (t ∷ ts) = let rest = without s ts in if t == s then rest else t ∷ rest

abbrev pub distinct : List String → List String
distinct [] = []
distinct (s ∷ ss) = s ∷ without s (distinct ss)

abbrev when : Bool → String → List String
when b s = if b then s ∷ [] else []

abbrev payload_warnings : Json → List String
payload_warnings payload = elim (as_object payload) [
  | none ↦ []
  | some d ↦ when (receipt_payload_has_missing_artifact_path d) "artifact_path_missing"
]

abbrev parsed_warnings : Option Fields → List String
parsed_warnings none = []
parsed_warnings (some d) =
    when (schema_is_alias (get "schema_version" d)) "schema_version_alias"
    ++ (when (status_is_alias (get "status" d)) "status_alias"
        ++ payload_warnings (get "payload" d))

-- `source_warning` is the list of the one warning, or empty.
unfoldable pub protocol_for_receipt :
    StructuredTerminalReceipt → String → Option Fields → List String → ReceiptProtocolResult
protocol_for_receipt receipt raw_body parsed source_warning = record {
  receipt = some receipt;
  ok = true;
  warnings = distinct (source_warning ++ parsed_warnings parsed);
  errors = [];
  raw_body = raw_body;
}

abbrev pub failure : String → String → ReceiptProtocolResult
failure error raw_body = record {
  receipt = none;
  ok = false;
  warnings = [];
  errors = error ∷ [];
  raw_body = raw_body;
}

-- `loads` is `json.loads`, without a value where it raises `JSONDecodeError`.
module _ (loads : String → Option Json) where
  -- `None` where the text is malformed, as for the JSON text `null`
  unfoldable pub try_parse_json : String → Json
  try_parse_json value = elim (loads value) [ none ↦ null | some parsed ↦ parsed ]

  unfoldable pub parse_direct_receipt : String → Expected → Option StructuredTerminalReceipt
  parse_direct_receipt body expected =
      loads body >>= λ parsed. validate_structured_receipt_dict parsed body expected

  -- the first candidate that is a receipt
  unfoldable pub receipt_from_json_candidates :
      List String → Expected → Option StructuredTerminalReceipt
  receipt_from_json_candidates [] expected = none
  receipt_from_json_candidates (candidate ∷ rest) expected =
      parse_direct_receipt candidate expected <|> receipt_from_json_candidates rest expected

  -- a line of a wrapped text: a receipt beside the mapping it was read from
  unfoldable pub receipt_of_line : String → Expected → Option (StructuredTerminalReceipt × Fields)
  unfolding strip
  receipt_of_line line expected =
      let stripped = strip line in
      require (starts_with stripped "{") >>= λ _. as_object (try_parse_json stripped) >>= λ d.
      validate_structured_receipt_dict (Json.object d) stripped expected >>= λ receipt.
      some (receipt, d)

  unfoldable pub receipt_of_lines :
      List String → Expected → Option (StructuredTerminalReceipt × Fields)
  receipt_of_lines [] expected = none
  receipt_of_lines (line ∷ rest) expected =
      receipt_of_line line expected <|> receipt_of_lines rest expected

  unfoldable pub receipt_of_texts :
      List String → Expected → Option (StructuredTerminalReceipt × Fields)
  unfolding splitlines
  receipt_of_texts [] expected = none
  receipt_of_texts (candidate ∷ rest) expected =
      receipt_of_lines (reverse (splitlines candidate)) expected <|> receipt_of_texts rest expected

  unfoldable pub receipt_of_envelope :
      Json → String → Expected → Option (StructuredTerminalReceipt × Fields)
  receipt_of_envelope parsed body expected = as_object parsed >>= λ d.
      receipt_from_native_success_envelope d body expected >>= λ receipt. some (receipt, d)

  -- what comes after the texts that hold no receipt
  unfoldable pub by_envelope : Json → String → Expected → ReceiptProtocolResult
  by_envelope parsed body expected =
      if_some (receipt_of_envelope parsed body expected)
        (λ found. protocol_for_receipt found.0 body (some found.1) ("native_success_envelope" ∷ []))
        (failure "receipt_not_found" body)

  unfoldable pub by_wrapped_text : Json → String → Expected → ReceiptProtocolResult
  by_wrapped_text parsed body expected =
      if is_null parsed
      then failure "malformed_json" body
      else if_some (receipt_of_texts (wrapped_text_candidates parsed) expected)
          (λ found. protocol_for_receipt found.0 body (some found.1) ("wrapped_text_json" ∷ []))
          (by_envelope parsed body expected)

  unfoldable pub by_mixed_text : Json → String → Expected → ReceiptProtocolResult
  by_mixed_text parsed body expected =
      if_some (receipt_from_json_candidates (balanced_json_object_candidates body) expected)
        (λ receipt.
          protocol_for_receipt receipt body (as_object (try_parse_json receipt.raw_body))
            ("mixed_text_json" ∷ []))
        (by_wrapped_text parsed body expected)

  unfoldable pub normalize_terminal_receipt : String → Expected → ReceiptProtocolResult
  normalize_terminal_receipt body expected =
      if body == ""
      then failure "empty_body" body
      else if_some (validate_structured_receipt_dict (try_parse_json body) body expected)
          (λ receipt. protocol_for_receipt receipt body (as_object (try_parse_json body)) [])
          (by_mixed_text (try_parse_json body) body expected)

  unfoldable pub parse_structured_terminal_receipt :
      String → Expected → Option StructuredTerminalReceipt
  parse_structured_terminal_receipt body expected =
      (normalize_terminal_receipt body expected).receipt
