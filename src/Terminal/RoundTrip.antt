-- ===== src/Terminal/RoundTrip.antt =====
-- A receipt that is written is read back.
use agpair.Base.{String, Bool, false, Option, none, some, ◌≡◌, refl, ap, ◌∙◌, if◌then◌else◌, ◌==◌}
use agpair.Base.Chain.{◌>>=◌, if_some}
use agpair.Json.{Json, text_of}
use agpair.Terminal.Status.{normalize_status}
use agpair.Terminal.Words.{normalize_status_text-same}
use agpair.Terminal.Structured.{
  StructuredTerminalReceipt, Expected, schema_version_of, validate_structured_receipt_dict,
  structured_receipt_to_dict,
}
use agpair.Terminal.Protocol.{
  try_parse_json, normalize_terminal_receipt, protocol_for_receipt, ReceiptProtocolResult,
  parse_structured_terminal_receipt,
}
use agpair.Terminal.Accepted.{Fits}

validate-structured_receipt_to_dict :
    (r : StructuredTerminalReceipt) (raw : String) (expected : Expected)
    → Fits expected r
    → validate_structured_receipt_dict (structured_receipt_to_dict r) raw expected
      ≡ some (record r { raw_body = raw })
unfolding validate_structured_receipt_dict structured_receipt_to_dict schema_version_of
    normalize_status text_of ◌>>=◌
validate-structured_receipt_to_dict r raw expected fits = rw (fits.version) (
    rw (normalize_status_text-same r.status fits.valid) (rw (fits.status) (rw (fits.task_id) refl)))

if-false {ℓ} : {A : Type ℓ} {b : Bool} (x y : A) → b ≡ false → (if b then x else y) ≡ y
if-false {b} x y e = ap (λ b. if b then x else y) e

if_some-some {ℓ κ} :
    {A : Type ℓ} {B : Type κ} {m : Option A} (f : A → B) (k : B) {a : A}
    → m ≡ some a
    → if_some m f k ≡ f a
unfolding if_some
if_some-some f k e = ap (λ m. if_some m f k) e

module _ (loads : String → Option Json) where
  -- A receipt that is as expected and was written to a text that json.loads reads as its mapping
  -- is parsed from that text as it was, with the text as its raw body.
  pub parse-structured_receipt_to_dict :
      (r : StructuredTerminalReceipt) (body : String) (expected : Expected)
      → Fits expected r
      → (body == "") ≡ false
      → loads body ≡ some (structured_receipt_to_dict r)
      → parse_structured_terminal_receipt loads body expected ≡ some (record r { raw_body = body })
  unfolding parse_structured_terminal_receipt normalize_terminal_receipt try_parse_json
      protocol_for_receipt
  parse-structured_receipt_to_dict r body expected fits given loaded =
      let read : validate_structured_receipt_dict (try_parse_json loads body) body expected
          ≡ some (record r { raw_body = body }) =
        ap
          (λ o.
            validate_structured_receipt_dict (elim o [ none ↦ Json.null | some parsed ↦ parsed ])
              body expected)
          loaded
        ∙ (validate-structured_receipt_to_dict r body expected fits) in
      ap (λ (result : ReceiptProtocolResult). result.receipt)
        (if-false _ _ given ∙ if_some-some _ _ read)
