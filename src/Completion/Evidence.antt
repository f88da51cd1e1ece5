-- ===== src/Completion/Evidence.antt =====
-- completion.py: what an attempt left behind.
use agpair.Base.{
  String, Bool, false, not, ◌&&◌, ◌||◌, List, [], ◌∷◌, Option, none, some, strip, or_default,
  or_option, if◌then◌else◌, ◌==◌, any,
}
use agpair.Json.{
  Json, Items, Fields, null, text, array, nil, cons, end, get, as_text, as_object, or_json, is_null,
  text_of,
}
use agpair.Terminal.Payload.{has_validation, is_empty}

pub record ExecutionEvidence : Type 0 where
  pub stdout_path : Option String
  pub stderr_path : Option String
  pub receipt_path : Option String
  pub report_path : Option String
  pub evidence_path : Option String
  pub output_excerpt : Option String
  pub report_text : Option String
  pub commit_ref : Option String
  pub changed_files : List String
  pub validation_present : Bool
  pub receipt_valid : Bool
  pub structured_status : Option String

-- `_string_value`
unfoldable pub string_value : Json → Option String
unfolding strip
string_value (text s) = if strip s == "" then none else some (strip s)
string_value _ = none

-- `bool((o or "").strip())`
unfoldable pub has_words : Option String → Bool
unfolding strip
has_words o = not (strip (or_default o "") == "")

-- The paths that `evidence_from_receipt_and_paths` is called with.
pub record Paths : Type 0 where
  pub stdout_path : Option String
  pub stderr_path : Option String
  pub receipt_path : Option String
  pub report_path : Option String
  pub evidence_path : Option String
  pub output_excerpt : Option String
  pub receipt_valid : Bool

-- `receipt.get(key)` where there is a receipt
abbrev pub get_from : Option Fields → String → Json
get_from none key = null
get_from (some receipt) key = get key receipt

-- the payload of a receipt, or an empty one
abbrev pub payload_of : Option Fields → Fields
payload_of receipt = elim (as_object (get_from receipt "payload")) [ none ↦ end | some d ↦ d ]

abbrev filled_texts : Items → List String
filled_texts nil = []
filled_texts (cons v vs) =
    let rest = filled_texts vs in
    elim (as_text v) [ none ↦ rest | some s ↦ if strip s == "" then rest else s ∷ rest ]

unfoldable pub changed_files_of : Json → List String
unfolding strip
changed_files_of (text s) = if strip s == "" then [] else s ∷ []
changed_files_of (array vs) = filled_texts vs
changed_files_of _ = []

unfoldable pub commit_ref_of : Fields → Option String
commit_ref_of payload =
    let ref =
      or_json (or_json (get "commit_ref" payload) (get "commit" payload))
        (get "commit_sha" payload) in
    if is_null ref then none else some (text_of ref)

unfoldable pub evidence_from_receipt_and_paths : Option Fields → Paths → ExecutionEvidence
evidence_from_receipt_and_paths receipt paths =
    let payload = payload_of receipt in
    record {
      stdout_path = or_option paths.stdout_path (string_value (get "raw_log_path" payload));
      stderr_path = or_option paths.stderr_path (string_value (get "stderr_log_path" payload));
      receipt_path = or_option paths.receipt_path (string_value (get "receipt_path" payload));
      report_path = or_option paths.report_path (string_value (get "report_path" payload));
      evidence_path = paths.evidence_path;
      output_excerpt = paths.output_excerpt;
      report_text = string_value (get "report" payload);
      commit_ref = commit_ref_of payload;
      changed_files = changed_files_of (get "changed_files" payload);
      validation_present = has_validation payload;
      receipt_valid = paths.receipt_valid;
      structured_status = string_value (get_from receipt "status");
    }

-- `is_file` says of a path that is not empty whether it is a file with content.
module _ (is_file : String → Bool) where
  unfoldable pub path_has_content : Option String → Bool
  path_has_content none = false
  path_has_content (some path) = not (path == "") && is_file path

  unfoldable pub has_report : ExecutionEvidence → Bool
  has_report e = path_has_content e.report_path || has_words e.report_text

  unfoldable pub has_output : ExecutionEvidence → Bool
  has_output e =
      has_words e.output_excerpt
      || has_words e.report_text
      || any path_has_content (e.stdout_path ∷ e.stderr_path ∷ e.report_path ∷ [])

  unfoldable pub has_machine_evidence : ExecutionEvidence → Bool
  has_machine_evidence e =
      e.receipt_valid
      || not (is_empty e.changed_files)
      || e.validation_present
      || path_has_content e.evidence_path
      || path_has_content e.receipt_path
      || has_report e
      || has_words e.commit_ref
