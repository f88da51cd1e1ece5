-- ===== src/Samples/ExecutorSamples.antt =====
-- executors/policy.py at a controller whose own executor is suppressed.
use agpair.Base.{
  not, String, true, false, ◌≡◌, refl, [], ◌∷◌, none, some, elem, ◌==◌, if◌then◌else◌,
}
use agpair.Result.{ok}
use agpair.Executors.{
  controller_id, ExecutorPolicyOverlay, ExecutorPolicyDecision, Health, listed_for,
  resolve_controller_policy, next_eligible_executor,
}
use agpair.Executors.Allowed.{
  is_own, IsNext, resolve_controller_policy-selected, next_eligible_executor-IsNext,
}

abbrev overlay : ExecutorPolicyOverlay
overlay = record {
  disabled_global = "antigravity-cli" ∷ [];
  controller_disabled = [];
  controller_priority = ("codex", "claude-code" ∷ "codex" ∷ []) ∷ [];
}

-- Grok is not installed.
abbrev health : String → Health
health executor_id = record {
  available = if executor_id == "grok-cli" then false else true;
  last_failure_type = none;
}

abbrev decision : ExecutorPolicyDecision
decision = record {
  controller = "codex";
  selected_executor = some "claude-code";
  eligible_executors = "claude-code" ∷ [];
  suppressed_executors = "codex" ∷ [];
  rejected_executor = none;
  skipped_executors =
      record { executor_id = "codex"; blocker_type = "executor_suppressed" }
      ∷ record { executor_id = "grok-cli"; blocker_type = "executor_unavailable" }
      ∷ record { executor_id = "antigravity-cli"; blocker_type = "executor_disabled_by_policy" }
      ∷ [];
}

resolved : resolve_controller_policy health (some "Codex") none false true overlay ≡ ok decision
unfolding resolve_controller_policy
resolved = refl

resolve_controller_policy-selected_example :
    ("codex" ≡ controller_id (some "Codex"))
    × (elem "claude-code" ("claude-code" ∷ []) ≡ true)
    × (not (is_own "codex" "claude-code") ≡ true)
    × (elem "claude-code" ("antigravity-cli" ∷ listed_for "codex" overlay.controller_disabled)
        ≡ false)
    × ((health "claude-code").available ≡ true)
resolve_controller_policy-selected_example =
    resolve_controller_policy-selected health (some "Codex") none false true overlay decision
      "claude-code" resolved refl

next :
    next_eligible_executor health (some "Codex") (some "grok-cli") none false true overlay
    ≡ ok (some "claude-code")
unfolding next_eligible_executor
next = refl

next_eligible_executor-IsNext_example :
    IsNext health (some "Codex") (some "grok-cli") none false true overlay "claude-code"
next_eligible_executor-IsNext_example =
    next_eligible_executor-IsNext health (some "Codex") (some "grok-cli") none false true overlay
      "claude-code" next
