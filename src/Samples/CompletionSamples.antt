-- ===== src/Samples/CompletionSamples.antt =====
-- completion.py and scope_validation.py at concrete inputs.
use agpair.Base.{
  String, Bool, true, false, not, ◌&&◌, ◌≡◌, ◌↔◌, refl, [], ◌∷◌, none, some, elem, ◌==◌,
}
use agpair.Result.{ok}
use agpair.Json.{Fields, text, object, end, field}
use agpair.Models.{ready_for_review}
use agpair.Completion.Policy.{EffectiveTaskPolicy, resolve_effective_task_policy}
use agpair.Completion.Evidence.{ExecutionEvidence, Paths, evidence_from_receipt_and_paths}
use agpair.Completion.Decision.{
  Ending, evaluate_completion, status_of, reviewed_status, review_statuses, has_scope_violations,
  failed,
}
use agpair.Completion.Reviewed.{
  is_silent, meets, implies, receipt_status, evaluate_completion-ok, evaluate_completion-review,
}
use agpair.Completion.Effective.{IsEffective, resolve_effective_task_policy-IsEffective}
use agpair.Scope.{validate_changed_files, is_forbidden, default_forbidden_path_prefixes}
use agpair.Scope.Changes.{names, changed, validate_changed_files-ok}

abbrev policy : EffectiveTaskPolicy
policy = record {
  requested_completion_policy = "auto";
  effective_completion_policy = "commit";
  authorization_profile = "local_mutating";
  allows_file_edits = true;
  allows_commit = true;
  requires_commit = true;
  requires_report = false;
  requires_machine_evidence = true;
  report_only = false;
  source = "brief_hint";
  controller = "codex";
}

resolved :
    resolve_effective_task_policy
      (some " Auto ")
      "local_mutating"
      (some "You MUST commit.")
      (some "Codex")
    ≡ ok policy
unfolding resolve_effective_task_policy agpair.Options.Completion.normalize_completion_policy
    agpair.Completion.Policy.policy_of agpair.Completion.Policy.effective_of
resolved = refl

resolve_effective_task_policy-IsEffective_example : IsEffective policy
resolve_effective_task_policy-IsEffective_example =
    resolve_effective_task_policy-IsEffective (some " Auto ") "local_mutating"
      (some "You MUST commit.") (some "Codex") policy resolved

abbrev receipt : Fields
receipt =
    field "status" (text "committed")
      (field "payload" (object (field "commit" (text "3f2a9c1") end)) end)

abbrev paths : Paths
paths = record {
  stdout_path = none;
  stderr_path = none;
  receipt_path = none;
  report_path = none;
  evidence_path = none;
  output_excerpt = none;
  receipt_valid = true;
}

abbrev ending : Ending
ending = record {
  effective_policy = policy;
  receipt = some receipt;
  evidence = evidence_from_receipt_and_paths (some receipt) paths;
  process_returncode = none;
  structured_receipt_ok = true;
}

abbrev no_file : String → Bool
no_file path = false

evaluate_completion-ok_example : (evaluate_completion no_file ending).ok ≡ (
    not (status_of ending == "BLOCKED")
    && not (is_silent no_file ending)
    && not (has_scope_violations ending)
    && true
    && meets no_file policy (evidence_from_receipt_and_paths (some receipt) paths)
    && implies (failed none) (elem (status_of ending) review_statuses))
evaluate_completion-ok_example = evaluate_completion-ok no_file ending

accepted : (evaluate_completion no_file ending).ok ≡ true
unfolding evaluate_completion status_of agpair.Options.Completion.normalize_receipt_status
    agpair.Completion.Evidence.string_value has_scope_violations
    agpair.Completion.Decision.by_policy agpair.Completion.Evidence.has_words
    evidence_from_receipt_and_paths agpair.Completion.Evidence.commit_ref_of agpair.Json.text_of
    agpair.Completion.Evidence.has_machine_evidence agpair.Completion.Decision.accept
accepted = refl

evaluate_completion-review_example :
    ((evaluate_completion no_file ending).phase ≡ ready_for_review)
    × (elem (reviewed_status ending) review_statuses ≡ true)
    × ((evaluate_completion no_file ending).terminal_status ≡ some (reviewed_status ending))
    × (receipt_status (evaluate_completion no_file ending).receipt ≡ text (reviewed_status ending))
evaluate_completion-review_example = evaluate_completion-review no_file ending accepted

abbrev declared : agpair.Base.List String
declared = "./src/a.py" ∷ "src\\b.py" ∷ []

abbrev actual : agpair.Base.List String
actual = "src/b.py" ∷ "src/a.py" ∷ "old.py" ∷ []

validate_changed_files-ok_example :
    (agpair.Scope.ok
        (validate_changed_files declared actual ("old.py" ∷ []) default_forbidden_path_prefixes)
      ≡ true)
    ↔ ((path : String)
        → (names path declared ≡ changed actual ("old.py" ∷ []) path)
          × ((changed actual ("old.py" ∷ []) path
                && is_forbidden default_forbidden_path_prefixes path)
              ≡ false))
validate_changed_files-ok_example =
    validate_changed_files-ok declared actual ("old.py" ∷ []) default_forbidden_path_prefixes

in_scope :
    agpair.Scope.ok
      (validate_changed_files declared actual ("old.py" ∷ []) default_forbidden_path_prefixes)
    ≡ true
unfolding agpair.Scope.ok validate_changed_files agpair.Scope.normalize_changed_files
    agpair.Scope.normalize_path is_forbidden
in_scope = refl
