-- ===== src/Options/Environment.antt =====
-- executors/policy.py: the ids of the executors, and the environment that a task runs in. Every
-- executor has the same default mode and policies, and no environment variable overrides them.
use agpair.Base.{
  String, List, [], ◌∷◌, Option, none, some, if◌then◌else◌, strip, lower, replace_char, elem, alias,
  or_default, ◌==◌,
}
use agpair.Result.{Argument, Error, Result, ok, err, ◌>>=◌, on_value_error}

abbrev pub canonical_executor_ids : List String
canonical_executor_ids = "antigravity-cli" ∷ "grok-cli" ∷ "claude-code" ∷ "codex" ∷ []

abbrev legacy_executor_aliases : List (String × String)
legacy_executor_aliases =
    ("antigravity", "antigravity-cli")
    ∷ ("antigravity_cli", "antigravity-cli")
    ∷ ("grok", "grok-cli")
    ∷ ("grok_cli", "grok-cli")
    ∷ ("claude", "claude-code")
    ∷ ("claude_code", "claude-code")
    ∷ ("codex_cli", "codex")
    ∷ []

abbrev rejected_executor_ids : List String
rejected_executor_ids = "gemini" ∷ "gemini-cli" ∷ "gemini_cli" ∷ []

unfoldable pub normalize_executor_id : String → Result String
unfolding strip lower replace_char
normalize_executor_id value =
    let normalized = alias legacy_executor_aliases (replace_char "_" "-" (lower (strip value))) in
    if elem normalized rejected_executor_ids
    then err (Error.value_error Argument.executor)
    else if elem normalized canonical_executor_ids
    then ok normalized
    else err (Error.value_error Argument.executor)

pub record ExecutorEnvironmentMetadata : Type 0 where
  pub environment_mode : String
  pub environment_mode_source : String
  pub skill_policy : String
  pub mcp_policy : String

-- the text asked for, if it is not blank
abbrev requested : Option String → Option String
requested none = none
requested (some mode) = if strip mode == "" then none else some (strip mode)

abbrev source_of : Option String → String
source_of none = "executor_default"
source_of (some mode) = "task_start_override"

unfoldable pub resolve_environment_metadata :
    Option String → Option String → Option String → Result ExecutorEnvironmentMetadata
unfolding normalize_executor_id
resolve_environment_metadata executor_id environment_mode source = do
  normalized ← normalize_executor_id (or_default executor_id "antigravity-cli")
  let selected = or_default (requested environment_mode) "managed-natural"
  if selected == "managed-natural"
      then ok (record {
        environment_mode = selected;
        environment_mode_source = or_default source (source_of (requested environment_mode));
        skill_policy = "inherit";
        mcp_policy = "inherit";
      })
      else err (Error.value_error Argument.environment_mode)

-- `_resolve_attempt_environment_metadata` of storage/tasks.py
unfoldable pub resolve_attempt_environment_metadata :
    Option String → Option String → Option String → Result ExecutorEnvironmentMetadata
resolve_attempt_environment_metadata executor_backend environment_mode environment_mode_source =
    on_value_error
      (resolve_environment_metadata executor_backend environment_mode environment_mode_source)
      (resolve_environment_metadata (some "antigravity-cli") none
        (some (or_default environment_mode_source "executor_default")))
