-- ===== src/Executors.antt =====
-- executors/policy.py: which executor a controller may hand a task to.
pub mod Allowed
use agpair.Base.{
  ℕ, suc, String, Bool, true, false, not, ◌&&◌, ◌||◌, List, [], ◌∷◌, ◌++◌, Option, none, some, elem,
  any, map, select, sort_by, ltb, eqb, strip, lower, replace_char, or_default, truthy,
  if◌then◌else◌, ◌==◌,
}
use agpair.Result.{Error, Result, ok, err, ◌>>=◌}
use agpair.Options.Environment.{normalize_executor_id}

-- The fields that have a default which no executor changes are left out, and what the isolation
-- profile says for the command line. Every executor is active.
pub record ExecutorSpec : Type 0 where
  pub executor_id : String
  pub env_var : String
  pub env_aliases : List String
  pub default_binary : String
  pub default_priority : ℕ
  pub enabled_by_default : Bool
  pub default_authorization_profile : String
  pub is_mutating : Bool
  pub is_concurrency_safe : Bool
  pub display_name : String
  pub receipt_capable : String
  pub controller_suppression : List String
  pub default_environment_mode : String
  pub default_skill_policy : String
  pub default_mcp_policy : String

abbrev antigravity_cli : ExecutorSpec
antigravity_cli = record {
  executor_id = "antigravity-cli";
  env_var = "AGPAIR_ANTIGRAVITY_CLI_BIN";
  env_aliases = "AGPAIR_ANTIGRAVITY_CLI" ∷ [];
  default_binary = "agy";
  default_priority = 20;
  enabled_by_default = true;
  default_authorization_profile = "local_mutating";
  is_mutating = true;
  is_concurrency_safe = false;
  display_name = "Antigravity CLI";
  receipt_capable = "prompt_contract";
  controller_suppression = [];
  default_environment_mode = "managed-natural";
  default_skill_policy = "inherit";
  default_mcp_policy = "inherit";
}

abbrev grok_cli : ExecutorSpec
grok_cli = record {
  executor_id = "grok-cli";
  env_var = "AGPAIR_GROK_CLI_BIN";
  env_aliases = "AGPAIR_GROK_CLI" ∷ [];
  default_binary = "grok";
  default_priority = 10;
  enabled_by_default = true;
  default_authorization_profile = "local_readonly";
  is_mutating = true;
  is_concurrency_safe = false;
  display_name = "Grok CLI";
  receipt_capable = "prompt_contract";
  controller_suppression = [];
  default_environment_mode = "managed-natural";
  default_skill_policy = "inherit";
  default_mcp_policy = "inherit";
}

abbrev pub claude_code : ExecutorSpec
claude_code = record {
  executor_id = "claude-code";
  env_var = "AGPAIR_CLAUDE_CODE_BIN";
  env_aliases = "AGPAIR_CLAUDE_CODE_CLI" ∷ [];
  default_binary = "claude";
  default_priority = 30;
  enabled_by_default = true;
  default_authorization_profile = "local_mutating";
  is_mutating = true;
  is_concurrency_safe = false;
  display_name = "Claude Code CLI";
  receipt_capable = "prompt_contract";
  controller_suppression = "claude" ∷ "claude-code" ∷ "claude_code" ∷ [];
  default_environment_mode = "managed-natural";
  default_skill_policy = "inherit";
  default_mcp_policy = "inherit";
}

abbrev pub codex : ExecutorSpec
codex = record {
  executor_id = "codex";
  env_var = "AGPAIR_CODEX_BIN";
  env_aliases = "AGPAIR_CODEX_CLI" ∷ [];
  default_binary = "codex";
  default_priority = 40;
  enabled_by_default = true;
  default_authorization_profile = "local_mutating";
  is_mutating = true;
  is_concurrency_safe = false;
  display_name = "Codex CLI worker";
  receipt_capable = "prompt_contract";
  controller_suppression = "codex" ∷ [];
  default_environment_mode = "managed-natural";
  default_skill_policy = "inherit";
  default_mcp_policy = "inherit";
}

abbrev pub executor_specs : List ExecutorSpec
executor_specs = antigravity_cli ∷ grok_cli ∷ claude_code ∷ codex ∷ []

-- the overlay that an operator writes, with the controllers by their normal names
pub record ExecutorPolicyOverlay : Type 0 where
  pub disabled_global : List String
  pub controller_disabled : List (String × List String)
  pub controller_priority : List (String × List String)

-- `d.get(key, ())`
abbrev pub listed_for : String → List (String × List String) → List String
listed_for key [] = []
listed_for key ((k, ids) ∷ rest) =
    let later = listed_for key rest in if k == key then ids else later

unfoldable pub controller_id : Option String → String
unfolding strip lower replace_char
controller_id value =
    let normalized = replace_char "_" "-" (lower (strip (or_default value "generic"))) in
    if normalized == "" then "generic" else normalized

abbrev pub by_priority : ExecutorSpec → ExecutorSpec → Bool
by_priority s t = ltb s.default_priority t.default_priority

unfoldable pub suppressed_executors_for_controller : String → Bool → List String
suppressed_executors_for_controller controller allow_self_executor =
    if allow_self_executor
    then []
    else map (λ (s : ExecutorSpec). s.executor_id)
        (select
          (λ s. any (λ item. replace_char "_" "-" item == controller) s.controller_suppression)
          (sort_by by_priority executor_specs))

-- `{executor_id: index for index, executor_id in enumerate(priority)}`, read at an id
abbrev pub priority_index : List String → ℕ → String → Option ℕ
priority_index [] index executor_id = none
priority_index (k ∷ ids) index executor_id =
    let later = priority_index ids (suc index) executor_id in
    elim later [ none ↦ if k == executor_id then some index else none | some found ↦ some found ]

-- whether the sort key of one executor is less than that of another
abbrev pub ahead : Option ℕ → ExecutorSpec → Option ℕ → ExecutorSpec → Bool
ahead none s none t = ltb s.default_priority t.default_priority
ahead none s (some j) t = false
ahead (some i) s none t = true
ahead (some i) s (some j) t = ltb i j || (eqb i j && ltb s.default_priority t.default_priority)

unfoldable pub ordered_specs_for_controller : List String → List ExecutorSpec
ordered_specs_for_controller priority =
    sort_by
      (λ s t.
        ahead (priority_index priority 0 s.executor_id) s (priority_index priority 0 t.executor_id)
          t)
      executor_specs

-- what is known of an executor on this machine
pub record Health : Type 0 where
  pub available : Bool
  pub last_failure_type : Option String

pub record Skipped : Type 0 where
  pub executor_id : String
  pub blocker_type : String

-- The reasons, which are sentences for the operator, are left out.
pub record ExecutorPolicyDecision : Type 0 where
  pub controller : String
  pub selected_executor : Option String
  pub eligible_executors : List String
  pub suppressed_executors : List String
  pub rejected_executor : Option String
  pub skipped_executors : List Skipped

abbrev pub first_of : List String → Option String
first_of [] = none
first_of (executor_id ∷ rest) = some executor_id

-- `EXECUTOR_SPECS[executor_id]`, for an id that was normalised
abbrev pub spec_of : String → List ExecutorSpec
spec_of executor_id = select (λ (s : ExecutorSpec). s.executor_id == executor_id) executor_specs

-- `normalize_executor_id(requested) if requested else None`
abbrev pub normalized_request : Option String → Result (Option String)
normalized_request none = ok none
normalized_request (some requested) =
    if requested == ""
    then ok none
    else normalize_executor_id requested >>= λ normalized. ok (some normalized)

abbrev pub is_requested : Option String → String → Bool
is_requested none executor_id = false
is_requested (some requested) executor_id = requested == executor_id

abbrev pub skipped_of : (String → Option String) → List String → List Skipped
skipped_of reason [] = []
skipped_of reason (executor_id ∷ rest) =
    let later = skipped_of reason rest in
    if truthy (reason executor_id)
    then record { executor_id = executor_id; blocker_type = or_default (reason executor_id) "" }
      ∷ later
    else later

-- the specs that are considered, in their order
abbrev pub considered : Option String → List String → List String
considered requested priority =
    map (λ (s : ExecutorSpec). s.executor_id)
      (elim requested [
        | none ↦ ordered_specs_for_controller priority
        | some executor_id ↦ spec_of executor_id
      ])

abbrev pub selected_of : Option String → List String → Option String
selected_of none eligible = first_of eligible
selected_of (some requested) eligible = if elem requested eligible then some requested else none

-- `health` is `executor_health_snapshot`.
module _ (health : String → Health) where
  unfoldable pub skip_reason : List String → List String → Bool → String → Option String
  skip_reason suppressed policy_disabled require_available executor_id =
      if elem executor_id suppressed
      then some "executor_suppressed"
      else if elem executor_id policy_disabled
      then some "executor_disabled_by_policy"
      else if require_available && not (health executor_id).available
      then some (or_default (health executor_id).last_failure_type "executor_unavailable")
      else none

  abbrev pub is_eligible : List String → List String → Bool → String → Bool
  is_eligible suppressed policy_disabled require_available executor_id =
      not (truthy (skip_reason suppressed policy_disabled require_available executor_id))

  unfoldable pub decide :
      String
      → Option String
      → List String
      → List String
      → Bool
      → List String
      → ExecutorPolicyDecision
  unfolding skip_reason
  decide controller requested suppressed policy_disabled require_available specs =
      let eligible = select (is_eligible suppressed policy_disabled require_available) specs in
      let skipped = skipped_of (skip_reason suppressed policy_disabled require_available) specs in
      record {
        controller = controller;
        selected_executor = selected_of requested eligible;
        eligible_executors = eligible;
        suppressed_executors = suppressed;
        rejected_executor =
            if any (λ (s : Skipped). is_requested requested s.executor_id) skipped
            then requested
            else none;
        skipped_executors = skipped;
      }

  unfoldable pub resolve_controller_policy :
      Option String
      → Option String
      → Bool
      → Bool
      → ExecutorPolicyOverlay
      → Result ExecutorPolicyDecision
  unfolding controller_id suppressed_executors_for_controller ordered_specs_for_controller decide
  resolve_controller_policy controller requested_executor allow_self_executor require_available
        overlay =
      do
        let controller = controller_id controller
        requested ← normalized_request requested_executor
        ok (
            decide controller requested
              (suppressed_executors_for_controller controller allow_self_executor)
              (overlay.disabled_global ++ listed_for controller overlay.controller_disabled)
              require_available
              (considered requested (listed_for controller overlay.controller_priority)))

  unfoldable pub next_eligible_executor :
      Option String
      → Option String
      → Option String
      → Bool
      → Bool
      → ExecutorPolicyOverlay
      → Result (Option String)
  unfolding resolve_controller_policy
  next_eligible_executor controller current_executor requested_executor allow_self_executor
        require_available overlay =
      if truthy requested_executor
      then ok none
      else resolve_controller_policy controller none allow_self_executor require_available overlay
        >>= λ resolved. ok (
            first_of (
              select (λ candidate. not (is_requested current_executor candidate))
                resolved.eligible_executors))
