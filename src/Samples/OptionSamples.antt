-- ===== src/Samples/OptionSamples.antt =====
-- wait_policy.py, models.py, completion.py and recovery.py at concrete inputs.
use agpair.Base.{true, false, ◌≡◌, refl, ◌⊎◌, [], ◌∷◌, none, some, elem, ◌==◌}
use agpair.Base.Signed.{pos, Seconds, thousandths}
use agpair.Result.{ok}
use agpair.Options.Profile.{validate_authorization_profile}
use agpair.Options.Completion.{normalize_completion_policy}
use agpair.Options.Wait.{WaitBudget, resolve_wait_budget}
use agpair.Options.Budget.{IsResolved, resolve_wait_budget-IsResolved}
use agpair.Recovery.{
  RecoveryAction, RecoveryInput, RecoveryDecision, choose_recovery_decision, has_any_blocker,
  no_signal, retry_command,
}
use agpair.Recovery.Choice.{
  choose_recovery_decision-switches, choose_recovery_decision-uses_result,
  choose_recovery_decision-boundary,
}

read_only : validate_authorization_profile (some " Read-Only ") ≡ ok "local_readonly"
unfolding validate_authorization_profile
read_only = refl

direct_commit : normalize_completion_policy (some "Direct-Commit") ≡ ok "commit"
unfolding normalize_completion_policy
direct_commit = refl

abbrev review : WaitBudget
review = record {
  task_kind = "quick_review";
  wait_policy = "lease";
  controller_wait_seconds = some (thousandths (pos 30000));
  execution_budget_seconds = some (thousandths (pos 900000));
  background_ok = true;
}

resolved :
    resolve_wait_budget (some "Quick-Review") none (some (thousandths (pos 30000))) none none
    ≡ ok review
unfolding resolve_wait_budget agpair.Options.Wait.normalize_task_kind
    agpair.Options.Wait.normalize_wait_policy
resolved = refl

-- a NaN is not less than any bound
nan_passes :
    resolve_wait_budget none (some "background") none (some Seconds.nan) none
    ≡ ok record {
      task_kind = "generic";
      wait_policy = "background";
      controller_wait_seconds = none;
      execution_budget_seconds = some Seconds.nan;
      background_ok = false;
    }
unfolding resolve_wait_budget agpair.Options.Wait.normalize_task_kind
    agpair.Options.Wait.normalize_wait_policy
nan_passes = refl

resolve_wait_budget-IsResolved_example : IsResolved review
resolve_wait_budget-IsResolved_example =
    resolve_wait_budget-IsResolved (some "Quick-Review") none (some (thousandths (pos 30000))) none
      none review resolved

-- a blocked task of an executor that nobody asked for
abbrev silent : RecoveryInput
silent = record {
  task_id = "TASK-1";
  current_executor = some "codex";
  requested_executor = none;
  agent = record {
    state = "blocked";
    controller_action = "";
    hard_blockers = "report_missing" ∷ [];
  };
  wait_outcome = none;
  execution_budget_exhausted = false;
  artifact = record { state = ""; primary_artifact = "" };
  next_eligible_executor = some "grok-cli";
}

switched : (choose_recovery_decision silent).action ≡ RecoveryAction.switch_executor
unfolding choose_recovery_decision agpair.Recovery.by_signals
switched = refl

choose_recovery_decision-switches_example :
    (false ≡ false)
    × (true ≡ true)
    × (("blocked" == "blocked") ≡ true)
    × (has_any_blocker ("report_missing" ∷ []) no_signal ≡ true)
    × ((choose_recovery_decision silent).next_executor ≡ some "grok-cli")
    × ((choose_recovery_decision silent).command ≡ some (retry_command "TASK-1" (some "grok-cli")))
choose_recovery_decision-switches_example = choose_recovery_decision-switches silent switched

abbrev reported : RecoveryInput
reported = record silent { artifact = record { state = "usable"; primary_artifact = "report" } }

used : (choose_recovery_decision reported).action ≡ RecoveryAction.use_result
unfolding choose_recovery_decision
used = refl

choose_recovery_decision-uses_result_example :
    (("" == "use_result") ≡ true)
    ⊎ ((("" == "") ≡ true)
        × (elem "usable" ("usable" ∷ "needs_review" ∷ []) ≡ true)
        × (elem "report" ("report" ∷ "stdout_salvage" ∷ []) ≡ true))
choose_recovery_decision-uses_result_example = choose_recovery_decision-uses_result reported used

abbrev crossed : RecoveryInput
crossed = record silent {
  agent = record {
    state = "blocked";
    controller_action = "";
    hard_blockers = "scope_violation" ∷ [];
  };
}

choose_recovery_decision-boundary_example :
    ((choose_recovery_decision crossed).action ≡ RecoveryAction.inspect_evidence)
    ⊎ ((choose_recovery_decision crossed).action ≡ RecoveryAction.wait_background)
    ⊎ ((choose_recovery_decision crossed).action ≡ RecoveryAction.repair_executor)
    ⊎ ((choose_recovery_decision crossed).action ≡ RecoveryAction.retry_same_executor)
choose_recovery_decision-boundary_example = choose_recovery_decision-boundary crossed refl refl refl
