-- ===== src/Terminal/Structured.antt =====
-- terminal_receipts.py: a structured receipt, read from a JSON value and written to one.
use agpair.Base.{
  String, Bool, true, List, [], ◌∷◌, Option, none, some, strip, elem, if◌then◌else◌, ◌==◌,
}
use agpair.Base.Signed.{ℤ}
use agpair.Base.Chain.{◌>>=◌, ◌>>◌, require}
use agpair.Json.{
  Json, Fields, integer, text, object, end, field, has, get, as_text, as_object, as_integer,
  text_of,
}
use agpair.Terminal.Status.{normalize_status, normalize_status_text}

pub record StructuredTerminalReceipt : Type 0 where
  pub schema_version : String
  pub task_id : String
  pub attempt_no : ℤ
  pub review_round : ℤ
  pub status : String
  pub summary : String
  pub payload : Fields
  pub raw_body : String

-- what the caller knows of the receipt: the keyword arguments `expected_status` and `expected_task_id`
pub record Expected : Type 0 where
  pub status : Option String
  pub task_id : Option String

abbrev pub schema_versions : List String
schema_versions = "1" ∷ "1.0" ∷ "1.0.0" ∷ []

-- `str(parsed.get("schema_version", "")).strip()`
unfoldable pub schema_version_of : Fields → String
unfolding strip
schema_version_of d =
    if has "schema_version" d then strip (text_of (get "schema_version" d)) else ""

-- `expected_status is None or status == _normalize_status(expected_status)`
abbrev pub status_fits : Option String → String → Bool
status_fits none status = true
status_fits (some expected) status = elim (normalize_status_text expected) [
  | none ↦ Bool.false
  | some s ↦ status == s
]

abbrev pub task_id_fits : Option String → String → Bool
task_id_fits none task_id = true
task_id_fits (some expected) task_id = task_id == expected

unfoldable pub validate_structured_receipt_dict :
    Json → String → Expected → Option StructuredTerminalReceipt
validate_structured_receipt_dict parsed raw_body expected = do
  d ← as_object parsed
  require (elem (schema_version_of d) schema_versions)
  status ← normalize_status (get "status" d)
  require (status_fits expected.status status)
  task_id ← as_text (get "task_id" d)
  require (task_id_fits expected.task_id task_id)
  attempt_no ← as_integer (get "attempt_no" d)
  review_round ← as_integer (get "review_round" d)
  summary ← as_text (get "summary" d)
  payload ← as_object (get "payload" d)
  some record {
    schema_version = "1";
    task_id = task_id;
    attempt_no = attempt_no;
    review_round = review_round;
    status = status;
    summary = summary;
    payload = payload;
    raw_body = raw_body;
  }

-- `asdict` without the raw body
unfoldable pub structured_receipt_to_dict : StructuredTerminalReceipt → Json
structured_receipt_to_dict receipt = object (
    field "schema_version" (text receipt.schema_version) (
      field "task_id" (text receipt.task_id) (
        field "attempt_no" (integer receipt.attempt_no) (
          field "review_round" (integer receipt.review_round) (
            field "status" (text receipt.status) (
              field "summary" (text receipt.summary)
                (field "payload" (object receipt.payload) end)))))))
