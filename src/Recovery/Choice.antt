-- ===== src/Recovery/Choice.antt =====
-- recovery.py: what the decision promises.
use agpair.Base.{
  String, true, false, [], ◌∷◌, none, some, ◌≡◌, ◌≢◌, ◌⊎◌, inl, inr, arith, elem, truthy, ◌==◌,
  Option-cases,
}
use agpair.Recovery.{
  RecoveryAction, RecoveryInput, RecoveryDecision, ArtifactResult, choose_recovery_decision,
  by_signals, by_controller, by_artifact, has_any_blocker, no_signal, boundary, retry_command,
}

by_controller-stays :
    (a : String) (r : RecoveryDecision)
    → by_controller a ≡ some r
    → r.action ≢ RecoveryAction.switch_executor
by_controller-stays a r h e = ground arith

by_artifact-stays :
    (a : String) (x : ArtifactResult) (r : RecoveryDecision)
    → by_artifact a x ≡ some r
    → r.action ≢ RecoveryAction.switch_executor
by_artifact-stays a x r h e = ground arith

by_signals-switch :
    (d : RecoveryInput)
    → (by_signals d).action ≡ RecoveryAction.switch_executor
    → (truthy d.requested_executor ≡ false)
      × (truthy d.next_eligible_executor ≡ true)
      × ((d.agent.state == "blocked") ≡ true)
      × (has_any_blocker d.agent.hard_blockers no_signal ≡ true)
      × ((by_signals d).next_executor ≡ d.next_eligible_executor)
      × ((by_signals d).command ≡ some (retry_command d.task_id d.next_eligible_executor))
unfolding by_signals
by_signals-switch d h = ground arith

module _ (d : RecoveryInput) where
  by_the_controller :
      (r : RecoveryDecision)
      → by_controller d.agent.controller_action ≡ some r
      → choose_recovery_decision d ≡ r
  unfolding choose_recovery_decision
  by_the_controller r e = rw (choose_recovery_decision, e)

  by_the_artifact :
      (r : RecoveryDecision)
      → by_controller d.agent.controller_action ≡ none
      → by_artifact d.agent.controller_action d.artifact ≡ some r
      → choose_recovery_decision d ≡ r
  unfolding choose_recovery_decision
  by_the_artifact r c e = rw (choose_recovery_decision, c, e)

  undecided :
      by_controller d.agent.controller_action ≡ none
      → by_artifact d.agent.controller_action d.artifact ≡ none
      → choose_recovery_decision d ≡ by_signals d
  unfolding choose_recovery_decision by_signals
  undecided c a = rw (choose_recovery_decision, c, a)

-- A switch of the executor is chosen only for a blocked task that gave no useful signal, where no
-- executor was requested and another one is eligible; the command then retries with that one.
pub choose_recovery_decision-switches :
    (d : RecoveryInput)
    → (choose_recovery_decision d).action ≡ RecoveryAction.switch_executor
    → (truthy d.requested_executor ≡ false)
      × (truthy d.next_eligible_executor ≡ true)
      × ((d.agent.state == "blocked") ≡ true)
      × (has_any_blocker d.agent.hard_blockers no_signal ≡ true)
      × ((choose_recovery_decision d).next_executor ≡ d.next_eligible_executor)
      × ((choose_recovery_decision d).command
          ≡ some (retry_command d.task_id d.next_eligible_executor))
choose_recovery_decision-switches d h =
    elim (Option-cases (by_controller d.agent.controller_action)) [
      | inr (r, e) ↦
          absurd
            (by_controller-stays d.agent.controller_action r e (rw (by_the_controller d r e) at h))
      | inl other ↦ elim (Option-cases (by_artifact d.agent.controller_action d.artifact)) [
        | inr (r, e) ↦ absurd (
            by_artifact-stays d.agent.controller_action d.artifact r e
              (rw (by_the_artifact d r other e) at h))
        | inl nothing ↦
            rw (undecided d other nothing)
              (by_signals-switch d (rw (undecided d other nothing) at h))
      ]
    ]

by_signals-cautious : (d : RecoveryInput) → (by_signals d).action ≢ RecoveryAction.use_result
unfolding by_signals
by_signals-cautious d h = ground arith

by_controller-uses :
    (a : String) (r : RecoveryDecision)
    → by_controller a ≡ some r
    → r.action ≡ RecoveryAction.use_result
    → (a == "use_result") ≡ true
by_controller-uses a r h e = ground arith

by_artifact-uses :
    (a : String) (x : ArtifactResult) (r : RecoveryDecision)
    → by_artifact a x ≡ some r
    → r.action ≡ RecoveryAction.use_result
    → ((a == "") ≡ true)
      × (elem x.state ("usable" ∷ "needs_review" ∷ []) ≡ true)
      × (elem x.primary_artifact ("report" ∷ "stdout_salvage" ∷ []) ≡ true)
by_artifact-uses a x r h e = ground arith

-- The result is used without a review only if the agent's result asks for that, or if it asks for nothing
-- and the artifact is usable or to be reviewed, and is a report or what was saved of the output.
pub choose_recovery_decision-uses_result :
    (d : RecoveryInput)
    → (choose_recovery_decision d).action ≡ RecoveryAction.use_result
    → ((d.agent.controller_action == "use_result") ≡ true)
      ⊎ (((d.agent.controller_action == "") ≡ true)
          × (elem d.artifact.state ("usable" ∷ "needs_review" ∷ []) ≡ true)
          × (elem d.artifact.primary_artifact ("report" ∷ "stdout_salvage" ∷ []) ≡ true))
choose_recovery_decision-uses_result d h =
    elim (Option-cases (by_controller d.agent.controller_action)) [
      | inr (r, e) ↦
          inl (by_controller-uses d.agent.controller_action r e (rw (by_the_controller d r e) at h))
      | inl other ↦ elim (Option-cases (by_artifact d.agent.controller_action d.artifact)) [
        | inr (r, e) ↦ inr (
            by_artifact-uses d.agent.controller_action d.artifact r e
              (rw (by_the_artifact d r other e) at h))
        | inl nothing ↦ absurd (by_signals-cautious d (rw (undecided d other nothing) at h))
      ]
    ]

by_signals-crossed :
    (d : RecoveryInput)
    → has_any_blocker d.agent.hard_blockers boundary ≡ true
    → ((by_signals d).action ≡ RecoveryAction.inspect_evidence)
      ⊎ ((by_signals d).action ≡ RecoveryAction.wait_background)
      ⊎ ((by_signals d).action ≡ RecoveryAction.repair_executor)
      ⊎ ((by_signals d).action ≡ RecoveryAction.retry_same_executor)
unfolding by_signals
by_signals-crossed d h = ground arith

-- If the executor crossed a boundary, and neither the agent's result asks for an action nor an artifact
-- is there, the controller inspects the evidence, waits, repairs the executor or retries with the same one:
-- the result is not used, and no other executor is switched to.
pub choose_recovery_decision-boundary :
    (d : RecoveryInput)
    → by_controller d.agent.controller_action ≡ none
    → by_artifact d.agent.controller_action d.artifact ≡ none
    → has_any_blocker d.agent.hard_blockers boundary ≡ true
    → ((choose_recovery_decision d).action ≡ RecoveryAction.inspect_evidence)
      ⊎ ((choose_recovery_decision d).action ≡ RecoveryAction.wait_background)
      ⊎ ((choose_recovery_decision d).action ≡ RecoveryAction.repair_executor)
      ⊎ ((choose_recovery_decision d).action ≡ RecoveryAction.retry_same_executor)
choose_recovery_decision-boundary d c a h = rw (undecided d c a) (by_signals-crossed d h)
