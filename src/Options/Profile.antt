-- ===== src/Options/Profile.antt =====
-- models.py: authorization profiles.
use agpair.Base.{
  String, List, [], ◌∷◌, Option, if◌then◌else◌, strip, lower, replace_char, elem, or_default, ◌==◌,
}
use agpair.Result.{Argument, Error, Result, ok, err}

abbrev pub valid_authorization_profiles : List String
valid_authorization_profiles =
    "local_readonly" ∷ "local_mutating" ∷ "local_test_heavy" ∷ "external_network" ∷ []

abbrev pub authorization_profile_aliases : List (String × String)
authorization_profile_aliases =
    ("readonly", "local_readonly")
    ∷ ("read_only", "local_readonly")
    ∷ ("read-only", "local_readonly")
    ∷ ("local-readonly", "local_readonly")
    ∷ ("mutating", "local_mutating")
    ∷ ("readwrite", "local_mutating")
    ∷ ("read_write", "local_mutating")
    ∷ ("read-write", "local_mutating")
    ∷ ("test_heavy", "local_test_heavy")
    ∷ ("test-heavy", "local_test_heavy")
    ∷ ("network", "external_network")
    ∷ ("external-network", "external_network")
    ∷ []

-- `ALIASES.get(normalized, normalized.replace("-", "_"))`
unalias : List (String × String) → String → String
unalias [] s = replace_char "-" "_" s
unalias ((k, v) ∷ rest) s = if k == s then v else unalias rest s

accept : List String → Argument → String → Result String
accept valid what s = if elem s valid then ok s else err (Error.value_error what)

unfoldable pub validate_authorization_profile : Option String → Result String
unfolding unalias accept strip lower replace_char
validate_authorization_profile profile =
    accept valid_authorization_profiles Argument.authorization_profile
      (unalias authorization_profile_aliases (lower (strip (or_default profile "local_mutating"))))

summary : String → String
summary profile =
    if profile == "local_readonly"
    then "Allowed actions: inspect repository files, run read-only commands, and report findings. Denied actions: edit files, create commits, install dependencies, or access external network services."
    else if profile == "local_mutating"
    then "Allowed actions: inspect and edit repository-local files, run focused tests, and prepare commits when requested. Denied actions: destructive cleanup, credential changes, production deploys, or broad external network access."
    else if profile == "local_test_heavy"
    then "Allowed actions: inspect and edit repository-local files, run broad test/build/verification commands, and collect local logs. Denied actions: destructive cleanup, credential changes, production deploys, or unrelated external network access."
    else "Allowed actions: inspect and edit repository-local files, run tests, and use external network access needed for the task. Denied actions: credential exfiltration, production deploys, destructive cleanup, or changes outside the authorized scope."

-- `authorization_profile_summary` at a profile that was validated
unfoldable pub authorization_profile_summary : String → String
unfolding summary
authorization_profile_summary profile = summary profile
