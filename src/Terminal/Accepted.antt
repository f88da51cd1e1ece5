-- ===== src/Terminal/Accepted.antt =====
-- What a receipt is that the normaliser returns.
use agpair.Base.{
  String, true, List, [], ◌∷◌, Option, none, some, ◌≡◌, ◌⊎◌, inl, inr, refl, sym, ap, ◌∙◌, subst,
  arith, elem, reverse, splitlines, ◌==◌,
}
use agpair.Base.Signed.{ℤ, pos}
use agpair.Base.Chain.{chain-some, require-some, or-some, if_some-rule, if-rule}
use agpair.Json.{Json, is_null, Fields}
use agpair.Terminal.Status.{valid_statuses}
use agpair.Terminal.Words.{normalize_status-canonical}
use agpair.Terminal.Structured.{
  StructuredTerminalReceipt, Expected, status_fits, task_id_fits, validate_structured_receipt_dict,
}
use agpair.Terminal.Envelope.{receipt_from_native_success_envelope, expects_evidence}
use agpair.Terminal.Protocol.{
  ReceiptProtocolResult, parse_direct_receipt, receipt_from_json_candidates, receipt_of_line,
  receipt_of_lines, receipt_of_texts, by_envelope, by_wrapped_text, by_mixed_text, failure,
  receipt_of_envelope, normalize_terminal_receipt, protocol_for_receipt,
}

-- a receipt of the first schema version, with a status that is known, and as expected
pub record Fits (expected : Expected) (r : StructuredTerminalReceipt) : Type 0 where
  pub version : r.schema_version ≡ "1"
  pub valid : elem r.status valid_statuses ≡ true
  pub status : status_fits expected.status r.status ≡ true
  pub task_id : task_id_fits expected.task_id r.task_id ≡ true

abbrev from :
    StructuredTerminalReceipt → Option StructuredTerminalReceipt → StructuredTerminalReceipt
from r none = r
from r (some s) = s

abbrev first_of :
    StructuredTerminalReceipt
    → Option (StructuredTerminalReceipt × Fields)
    → StructuredTerminalReceipt
first_of r none = r
first_of r (some (s, d)) = s

abbrev FitsOption : Expected → Option StructuredTerminalReceipt → Type 0
FitsOption expected none = Unit
FitsOption expected (some r) = Fits expected r

built :
    {expected : Expected} {n m : ℤ} {u raw : String} {p : Fields} {r : StructuredTerminalReceipt}
    (s t : String)
    → elem s valid_statuses ≡ true
    → status_fits expected.status s ≡ true
    → task_id_fits expected.task_id t ≡ true
    → ◌≡◌ {A = Option StructuredTerminalReceipt}
        (some record {
          schema_version = "1";
          task_id = t;
          attempt_no = n;
          review_round = m;
          status = s;
          summary = u;
          payload = p;
          raw_body = raw;
        })
        (some r)
    → Fits expected r
built {expected} s t valid fits of_task e =
    subst (λ (o : Option StructuredTerminalReceipt). FitsOption expected o) e
      (record { version = refl; valid = valid; status = fits; task_id = of_task })

validate_structured_receipt_dict-Fits :
    (parsed : Json) (raw : String) (expected : Expected) (r : StructuredTerminalReceipt)
    → validate_structured_receipt_dict parsed raw expected ≡ some r
    → Fits expected r
unfolding validate_structured_receipt_dict
validate_structured_receipt_dict-Fits parsed raw expected r e =
    let (d, _, e) = chain-some e in
    let (_, e) = require-some e in
    let (s, is, e) = chain-some e in
    let (fits, e) = require-some e in
    let (t, _, e) = chain-some e in
    let (of_task, e) = require-some e in
    let (_, _, e) = chain-some e in
    let (_, _, e) = chain-some e in
    let (_, _, e) = chain-some e in
    let (_, _, e) = chain-some e in built s t (normalize_status-canonical _ s is).0 fits of_task e

-- a receipt made of the envelope of an executor: the first attempt, ready for review, with a warning
pub record IsEnvelope (expected : Expected) (result : ReceiptProtocolResult)
    (r : StructuredTerminalReceipt) : Type 0 where
  pub version : r.schema_version ≡ "1"
  pub status : r.status ≡ "EVIDENCE_PACK"
  pub attempt_no : r.attempt_no ≡ pos 1
  pub expected_evidence : expects_evidence expected.status ≡ true
  pub warned : elem "native_success_envelope" result.warnings ≡ true

abbrev Sound : Expected → ReceiptProtocolResult → Type 0
Sound expected result =
    (r : StructuredTerminalReceipt)
    → result.receipt ≡ some r
    → Fits expected r ⊎ IsEnvelope expected result r

native_success-IsEnvelope :
    (d : Fields) (body : String) (expected : Expected) (f : Fields)
    (b r : StructuredTerminalReceipt)
    → receipt_from_native_success_envelope d body expected ≡ some r
    → IsEnvelope expected (protocol_for_receipt b body (some f) ("native_success_envelope" ∷ [])) r
unfolding receipt_from_native_success_envelope protocol_for_receipt
native_success-IsEnvelope d body expected f b r e =
    let (expects, e) = require-some e in
    let (_, e) = require-some e in
    let (_, e) = require-some e in
    let (_, _, e) = chain-some e in
    let (_, e) = require-some e in
    let (_, _, e) = chain-some e in
    record {
      version = ap (λ o. (from r o).schema_version) (sym e);
      status = ap (λ o. (from r o).status) (sym e);
      attempt_no = ap (λ o. (from r o).attempt_no) (sym e);
      expected_evidence = expects;
      warned = refl;
    }

module _ (loads : String → Option Json) where
  direct-Fits :
      (body : String) (expected : Expected) (r : StructuredTerminalReceipt)
      → parse_direct_receipt loads body expected ≡ some r
      → Fits expected r
  unfolding parse_direct_receipt
  direct-Fits body expected r e =
      let (d, _, e) = chain-some e in validate_structured_receipt_dict-Fits d body expected r e

  candidates-Fits :
      (candidates : List String) (expected : Expected) (r : StructuredTerminalReceipt)
      → receipt_from_json_candidates loads candidates expected ≡ some r
      → Fits expected r
  unfolding receipt_from_json_candidates
  candidates-Fits [] expected r e = absurd (ground arith)
  candidates-Fits (c ∷ rest) expected r e = elim (or-some e) [
    | inl here ↦ direct-Fits c expected r here
    | inr later ↦ candidates-Fits rest expected r later
  ]

  line-Fits :
      (line : String) (expected : Expected) (r : StructuredTerminalReceipt) (d : Fields)
      → receipt_of_line loads line expected ≡ some (r, d)
      → Fits expected r
  unfolding receipt_of_line
  line-Fits line expected r d e =
      let (_, e) = require-some e in
      let (d', _, e) = chain-some e in
      let (r', valid, e) = chain-some e in
      let same : r' ≡ r = ap (λ o. first_of r o) e in
      subst (Fits expected) same (validate_structured_receipt_dict-Fits _ _ expected r' valid)

  lines-Fits :
      (lines : List String) (expected : Expected) (r : StructuredTerminalReceipt) (d : Fields)
      → receipt_of_lines loads lines expected ≡ some (r, d)
      → Fits expected r
  unfolding receipt_of_lines
  lines-Fits [] expected r d e = absurd (ground arith)
  lines-Fits (line ∷ rest) expected r d e = elim (or-some e) [
    | inl here ↦ line-Fits line expected r d here
    | inr later ↦ lines-Fits rest expected r d later
  ]

  texts-Fits :
      (texts : List String) (expected : Expected) (r : StructuredTerminalReceipt) (d : Fields)
      → receipt_of_texts loads texts expected ≡ some (r, d)
      → Fits expected r
  unfolding receipt_of_texts
  texts-Fits [] expected r d e = absurd (ground arith)
  texts-Fits (t ∷ rest) expected r d e = elim (or-some e) [
    | inl here ↦ lines-Fits (reverse (splitlines t)) expected r d here
    | inr later ↦ texts-Fits rest expected r d later
  ]

  -- A result with a receipt that fits.
  protocol-Sound :
      (a : StructuredTerminalReceipt) (body : String) (d : Option Fields) (warning : List String)
      (expected : Expected)
      → Fits expected a
      → Sound expected (protocol_for_receipt a body d warning)
  unfolding protocol_for_receipt
  protocol-Sound a body d warning expected fits r e =
      inl (subst (Fits expected) (ap (λ o. from r o) e) fits)

  failure-Sound : (error body : String) (expected : Expected) → Sound expected (failure error body)
  failure-Sound error body expected r e = absurd (ground arith)

  found-Sound :
      (parsed : Json) (body : String) (expected : Expected)
      (found : StructuredTerminalReceipt × Fields)
      → receipt_of_envelope loads parsed body expected ≡ some found
      → Sound expected
          (protocol_for_receipt found.0 body (some found.1) ("native_success_envelope" ∷ []))
  unfolding receipt_of_envelope protocol_for_receipt
  found-Sound parsed body expected found e r same =
      let (d, _, e) = chain-some e in
      let (a, made, e) = chain-some e in
      let is : a ≡ found.0 = ap (λ o. first_of a o) e in
      inr (
        subst
          (λ a.
            IsEnvelope expected
              (protocol_for_receipt found.0 body (some found.1) ("native_success_envelope" ∷ [])) a)
          (is ∙ ap (λ o. from r o) same)
          (native_success-IsEnvelope d body expected found.1 found.0 a made))

  envelope-Sound :
      (parsed : Json) (body : String) (expected : Expected)
      → Sound expected (by_envelope loads parsed body expected)
  unfolding by_envelope
  envelope-Sound parsed body expected =
      if_some-rule (Sound expected) _ _ _ (found-Sound parsed body expected)
        (failure-Sound _ _ expected)

  wrapped-Sound :
      (parsed : Json) (body : String) (expected : Expected)
      → Sound expected (by_wrapped_text loads parsed body expected)
  unfolding by_wrapped_text
  wrapped-Sound parsed body expected =
      if-rule (Sound expected) (is_null parsed) _ _
        (λ _. failure-Sound "malformed_json" body expected)
        (λ _.
          if_some-rule (Sound expected) _ _ _
            (λ found e.
              protocol-Sound found.0 body (some found.1) ("wrapped_text_json" ∷ []) expected
                (texts-Fits _ expected found.0 found.1 e))
            (envelope-Sound parsed body expected))

  mixed-Sound :
      (parsed : Json) (body : String) (expected : Expected)
      → Sound expected (by_mixed_text loads parsed body expected)
  unfolding by_mixed_text
  mixed-Sound parsed body expected =
      if_some-rule (Sound expected) _ _ _
        (λ a e. protocol-Sound a body _ _ expected (candidates-Fits _ expected a e))
        (wrapped-Sound parsed body expected)

  normalize_terminal_receipt-Sound :
      (body : String) (expected : Expected)
      → Sound expected (normalize_terminal_receipt loads body expected)
  unfolding normalize_terminal_receipt
  normalize_terminal_receipt-Sound body expected =
      if-rule (Sound expected) (body == "") _ _ (λ _. failure-Sound "empty_body" body expected)
        (λ _.
          if_some-rule (Sound expected) _ _ _
            (λ a e.
              protocol-Sound a body _ [] expected
                (validate_structured_receipt_dict-Fits _ body expected a e))
            (mixed-Sound _ body expected))

  -- A receipt that the normaliser returns is of the first schema version and has a known status, the expected one
  -- and the expected task if there are such; or it was made of the envelope of an executor, where evidence may
  -- be expected: then it is evidence, at the first attempt, and the result carries a warning.
  pub normalize_terminal_receipt-receipt :
      (body : String) (expected : Expected) (r : StructuredTerminalReceipt)
      → (normalize_terminal_receipt loads body expected).receipt ≡ some r
      → Fits expected r ⊎ IsEnvelope expected (normalize_terminal_receipt loads body expected) r
  normalize_terminal_receipt-receipt body expected r e =
      normalize_terminal_receipt-Sound body expected r e
