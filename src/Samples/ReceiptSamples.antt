-- ===== src/Samples/ReceiptSamples.antt =====
-- terminal_receipts.py and delivery.py at concrete texts.
use agpair.Base.{
  String, Bool, true, false, Option, none, some, ◌≡◌, ◌⊎◌, refl, ap, [], ◌∷◌, Memᴰ, elem, lstrip,
  ◌==◌, ◌&&◌, ◌||◌, if◌then◌else◌, inl, inr,
}
use agpair.Base.Signed.{pos}
use agpair.Json.{Json, Fields, text, end, field}
use agpair.Delivery.{parse_delivery_header}
use agpair.Delivery.Header.{parse_delivery_header-header}
use agpair.Terminal.Status.{normalize_status_text, normalize_status, valid_statuses}
use agpair.Terminal.Words.{normalize_status-canonical}
use agpair.Terminal.Structured.{StructuredTerminalReceipt, Expected, structured_receipt_to_dict}
use agpair.Terminal.Scan.{balanced_json_object_candidates}
use agpair.Terminal.Candidates.{IsPart, balanced_json_object_candidates-IsPart}
use agpair.Terminal.Protocol.{normalize_terminal_receipt, parse_structured_terminal_receipt}
use agpair.Terminal.Accepted.{Fits, IsEnvelope, normalize_terminal_receipt-receipt}
use agpair.Terminal.RoundTrip.{parse-structured_receipt_to_dict}

abbrev delivered_payload : Fields
delivered_payload =
    field "raw_log_path" (text "out.log")
      (field "receipt_path" (text "receipt.json") (field "report" (text "done") end))

abbrev receipt : StructuredTerminalReceipt
receipt = record {
  schema_version = "1";
  task_id = "TASK-1";
  attempt_no = pos 1;
  review_round = pos 0;
  status = "EVIDENCE_PACK";
  summary = "done";
  payload = delivered_payload;
  raw_body = "";
}

abbrev expected : Expected
expected = record { status = some "evidence_pack"; task_id = some "TASK-1" }

-- a reader of JSON that knows the text of one receipt
abbrev loads : String → Option Json
loads body = if body == "{}" then some (structured_receipt_to_dict receipt) else none

receipt-Fits : Fits expected receipt
unfolding normalize_status_text agpair.Terminal.Status.status_alias
receipt-Fits = record { version = refl; valid = refl; status = refl; task_id = refl }

parse-structured_receipt_to_dict_example :
    parse_structured_terminal_receipt loads "{}" expected
    ≡ some (record receipt { raw_body = "{}" })
parse-structured_receipt_to_dict_example =
    parse-structured_receipt_to_dict loads receipt "{}" expected receipt-Fits refl refl

normalized :
    (normalize_terminal_receipt loads "{}" expected).receipt
    ≡ some (record receipt { raw_body = "{}" })
unfolding parse_structured_terminal_receipt
normalized = parse-structured_receipt_to_dict loads receipt "{}" expected receipt-Fits refl refl

normalize_terminal_receipt-receipt_example :
    Fits expected (record receipt { raw_body = "{}" })
    ⊎ IsEnvelope expected
        (normalize_terminal_receipt loads "{}" expected)
        (record receipt { raw_body = "{}" })
normalize_terminal_receipt-receipt_example =
    normalize_terminal_receipt-receipt loads "{}" expected (record receipt { raw_body = "{}" })
      normalized

abbrev mixed : String
mixed = "done {\"a\": \"}\"} end"

found : balanced_json_object_candidates mixed ≡ "{\"a\": \"}\"}" ∷ []
unfolding balanced_json_object_candidates agpair.Terminal.Scan.inside
found = refl

found_here : Memᴰ "{\"a\": \"}\"}" (balanced_json_object_candidates mixed)
found_here = rw found (Memᴰ.head refl)

balanced_json_object_candidates-IsPart_example : IsPart mixed "{\"a\": \"}\"}"
balanced_json_object_candidates-IsPart_example =
    balanced_json_object_candidates-IsPart mixed "{\"a\": \"}\"}" found_here

parse_delivery_header-header_example :
    parse_delivery_header "COMMITTED" "X-Delivery-Id: d-17\n done"
    ≡ record { delivery_id = some "d-17"; clean_body = "done" }
unfolding agpair.Base.is_space lstrip
parse_delivery_header-header_example =
    parse_delivery_header-header "COMMITTED" "d-17" " done" refl refl refl

ready : normalize_status (text " Ready-For-Review ") ≡ some "EVIDENCE_PACK"
unfolding normalize_status agpair.Terminal.Status.status_alias
ready = refl

normalize_status-canonical_example :
    (elem "EVIDENCE_PACK" valid_statuses ≡ true)
    × (normalize_status (text "EVIDENCE_PACK") ≡ some "EVIDENCE_PACK")
normalize_status-canonical_example =
    normalize_status-canonical (text " Ready-For-Review ") "EVIDENCE_PACK" ready
