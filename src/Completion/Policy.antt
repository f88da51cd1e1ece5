-- ===== src/Completion/Policy.antt =====
-- completion.py: the policy that a task runs under.
use agpair.Base.{
  String, Bool, true, not, ◌&&◌, List, [], ◌∷◌, Option, elem, lower, strip, or_default,
  any_contained, if◌then◌else◌, ◌==◌,
}
use agpair.Result.{Result, ok, ◌>>=◌}
use agpair.Options.Completion.{normalize_completion_policy}

pub record EffectiveTaskPolicy : Type 0 where
  pub requested_completion_policy : String
  pub effective_completion_policy : String
  pub authorization_profile : String
  pub allows_file_edits : Bool
  pub allows_commit : Bool
  pub requires_commit : Bool
  pub requires_report : Bool
  pub requires_machine_evidence : Bool
  pub report_only : Bool
  pub source : String
  pub controller : String

pub record EffectiveTaskSafety : Type 0 where
  pub is_mutating : Bool
  pub is_concurrency_safe : Bool

abbrev pub readonly_hints : List String
readonly_hints =
    "required changes: none" ∷ "required changes: 无" ∷ "禁止写入" ∷ "read-only" ∷ "read only"
    ∷ "readonly" ∷ "只读" ∷ "无需修改" ∷ "不修改" ∷ []

abbrev pub commit_hints : List String
commit_hints =
    "must commit" ∷ "commit required" ∷ "requires commit" ∷ "required commit" ∷ "提交 commit" ∷ "必须提交"
    ∷ "需要提交" ∷ []

-- the effective policy of a request, beside its source
unfoldable pub effective_of : String → String → String → String × String
effective_of requested authorization lower_body =
    if requested == "auto"
    then (if authorization == "local_readonly"
        then ("report", "authorization_profile")
        else if any_contained readonly_hints lower_body
        then ("report", "brief_hint")
        else if any_contained commit_hints lower_body
        then ("commit", "brief_hint")
        else ("evidence", "default"))
    else (requested, "explicit")

unfoldable pub policy_of : String → String → String → String → EffectiveTaskPolicy
policy_of requested authorization lower_body controller =
    let found = effective_of requested authorization lower_body in
    let edits = not (authorization == "local_readonly") in
    record {
      requested_completion_policy = requested;
      effective_completion_policy = found.0;
      authorization_profile = authorization;
      allows_file_edits = edits;
      allows_commit =
          elem authorization ("local_mutating" ∷ "local_test_heavy" ∷ "external_network" ∷ []);
      requires_commit = found.0 == "commit";
      requires_report = found.0 == "report";
      requires_machine_evidence = true;
      report_only = (found.0 == "report") && not edits;
      source = found.1;
      controller = controller;
    }

unfoldable pub resolve_effective_task_policy :
    Option String → String → Option String → Option String → Result EffectiveTaskPolicy
unfolding lower strip
resolve_effective_task_policy requested_completion_policy authorization_profile body controller =
    normalize_completion_policy requested_completion_policy >>= λ requested.
    let authorization =
      lower
        (strip (if authorization_profile == "" then "local_mutating" else authorization_profile)) in
    let named = lower (strip (or_default controller "generic")) in
    ok (
      policy_of requested authorization (lower (or_default body ""))
        (if named == "" then "generic" else named))

unfoldable pub derive_effective_task_safety : EffectiveTaskPolicy → EffectiveTaskSafety
derive_effective_task_safety policy = record {
  is_mutating = policy.allows_file_edits;
  is_concurrency_safe = not policy.allows_file_edits;
}
