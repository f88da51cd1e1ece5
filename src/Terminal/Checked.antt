-- ===== src/Terminal/Checked.antt =====
-- Which payloads may be reviewed.
use agpair.Base.{String, Bool, true, false, ◌&&◌, ◌||◌, [], ◌∷◌, ◌≡◌, arith, elem, ◌==◌}
use agpair.Json.{Fields, has}
use agpair.Terminal.Payload.{
  validate_terminal_receipt_payload, payload_is_report_only, has_validation,
}

-- The payload of a receipt that is COMMITTED or EVIDENCE_PACK is valid exactly if it names the raw
-- log and the receipt, and, unless only a report is asked for or declared, the changed files, the
-- scope violations and a validation.
validate_terminal_receipt_payload-review :
    (kind : String) (payload : Fields) (report_only : Bool)
    → (kind == "BLOCKED") ≡ false
    → elem kind ("COMMITTED" ∷ "EVIDENCE_PACK" ∷ []) ≡ true
    → (validate_terminal_receipt_payload kind payload report_only).ok ≡ (
        has "raw_log_path" payload
        && has "receipt_path" payload
        && (report_only
            || payload_is_report_only payload
            || (has "changed_files" payload
                && has "scope_violations" payload
                && has_validation payload)))
unfolding validate_terminal_receipt_payload
validate_terminal_receipt_payload-review kind payload report_only other review = ground arith
