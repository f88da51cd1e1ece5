-- ===== src/Recovery.antt =====
-- recovery.py: what the controller is told to do after a task, by `choose_recovery_decision`. The
-- mappings that the function reads are records here: a field is what the source makes of the entry,
-- `str(… or "")`, and `_strings` for the blockers.
pub mod Choice
use Prim.Native.String.{◌++◌}
use agpair.Base.{
  String, Bool, true, false, not, ◌&&◌, ◌||◌, List, [], ◌∷◌, Option, none, some, if◌then◌else◌, any,
  elem, truthy, ◌==◌,
}

pub data RecoveryAction : Type 0 where
  use_result review_then_apply inspect_evidence wait_background : RecoveryAction
  retry_same_executor switch_executor native_fallback repair_executor : RecoveryAction

-- `agent_result`: no result reads as one with empty texts and no blockers
pub record AgentResult : Type 0 where
  pub state : String
  pub controller_action : String
  pub hard_blockers : List String

-- `artifact_result`
pub record ArtifactResult : Type 0 where
  pub state : String
  pub primary_artifact : String

pub record RecoveryInput : Type 0 where
  pub task_id : String
  pub current_executor : Option String
  pub requested_executor : Option String
  pub agent : AgentResult
  pub wait_outcome : Option String
  pub execution_budget_exhausted : Bool
  pub artifact : ArtifactResult
  pub next_eligible_executor : Option String

pub record RecoveryDecision : Type 0 where
  pub action : RecoveryAction
  pub reason : String
  pub next_executor : Option String
  pub command : Option String
  pub alternative_command : Option String

abbrev pub decide :
    RecoveryAction → String → Option String → Option String → Option String → RecoveryDecision
decide action reason next_executor command alternative_command = record {
  action = action;
  reason = reason;
  next_executor = next_executor;
  command = command;
  alternative_command = alternative_command;
}

abbrev pub retry_command : String → Option String → String
retry_command task_id none = "agpair task retry " ++ task_id ++ " --from-block"
retry_command task_id (some executor) =
    if executor == ""
    then "agpair task retry " ++ task_id ++ " --from-block"
    else "agpair task retry " ++ task_id ++ " --from-block --executor " ++ executor

abbrev pub has_any_blocker : List String → List String → Bool
has_any_blocker blockers names = any (λ b. elem b names) blockers

abbrev pub unhealthy : List String
unhealthy =
    "executor_auth_required" ∷ "executor_auth_failed" ∷ "executor_probe_failed"
    ∷ "executor_unavailable" ∷ "executor_quota_exhausted" ∷ []

abbrev pub unauthorized : List String
unauthorized = "approval_required" ∷ "authorization_profile_insufficient" ∷ []

abbrev pub boundary : List String
boundary = "scope_violation" ∷ "authorization_violation" ∷ []

abbrev pub no_signal : List String
no_signal =
    "no_useful_executor_signal" ∷ "terminal_receipt_missing" ∷ "report_missing"
    ∷ "execution_budget_exhausted" ∷ "executor_response_timeout" ∷ "no_progress_budget_exceeded"
    ∷ []

abbrev pub review_first : RecoveryDecision
review_first =
    decide RecoveryAction.review_then_apply
      "External executor produced code or diff evidence that must be reviewed before applying." none
      none none

-- `match controller_action`
abbrev pub by_controller : String → Option RecoveryDecision
by_controller action =
    if action == "use_result"
    then some (
        decide RecoveryAction.use_result "External executor produced usable controller evidence."
          none none none)
    else if action == "review_then_apply"
    then some review_first
    else if action == "native_fallback"
    then some (
        decide RecoveryAction.native_fallback
          "External workflow recommends controller-native fallback." none none none)
    else none

abbrev pub by_artifact : String → ArtifactResult → Option RecoveryDecision
by_artifact action artifact =
    if action == "" && elem artifact.state ("usable" ∷ "needs_review" ∷ [])
    then (if elem artifact.primary_artifact ("report" ∷ "stdout_salvage" ∷ [])
        then some (
            decide RecoveryAction.use_result "External executor produced a usable report artifact."
              none none none)
        else if elem artifact.primary_artifact ("diff" ∷ "patch_or_commit" ∷ [])
        then some review_first
        else none)
    else none

abbrev outcome_is : Option String → String → Bool
outcome_is none s = false
outcome_is (some o) s = o == s

-- a blocked task without a useful signal
abbrev pub after_silence : RecoveryInput → RecoveryDecision
after_silence d =
    if truthy d.requested_executor
    then decide RecoveryAction.retry_same_executor
        "The explicitly requested executor did not produce useful evidence; AGPair must not silently switch it."
        d.next_eligible_executor (some (retry_command d.task_id d.current_executor))
        (some (retry_command d.task_id d.next_eligible_executor))
    else if truthy d.next_eligible_executor
    then decide RecoveryAction.switch_executor
        "The current executor produced no useful evidence within its budget."
        d.next_eligible_executor (some (retry_command d.task_id d.next_eligible_executor)) none
    else decide RecoveryAction.native_fallback
        "No eligible external executor remains; use the controller's native helper or handle directly."
        none none none

-- the rest of the function, where neither the controller nor an artifact has decided
unfoldable pub by_signals : RecoveryInput → RecoveryDecision
by_signals d =
    let blockers = d.agent.hard_blockers in
    let next = d.next_eligible_executor in
    let retry = some (retry_command d.task_id d.current_executor) in
    let alternative = some (retry_command d.task_id next) in
    if outcome_is d.wait_outcome "controller_lease_expired" && not d.execution_budget_exhausted
    then decide RecoveryAction.wait_background
        "Controller wait lease expired, but execution budget is still available." none
        (some ("agpair task wait " ++ d.task_id ++ " --json")) none
    else if has_any_blocker blockers unhealthy
    then decide RecoveryAction.repair_executor
        "Executor setup, authentication, quota, or provider health is unhealthy." next
        (some "agpair doctor --fresh") alternative
    else if has_any_blocker blockers unauthorized
    then decide RecoveryAction.retry_same_executor
        "The task exceeded its dispatch-time authorization and needs a fresh attempt." next retry
        alternative
    else if has_any_blocker blockers boundary
    then decide RecoveryAction.inspect_evidence
        "Executor crossed a task boundary; inspect evidence before reusing any output." next none
        alternative
    else if d.agent.state == "blocked" && has_any_blocker blockers no_signal
    then after_silence d
    else if d.agent.controller_action == "inspect_evidence"
    then decide RecoveryAction.inspect_evidence
        "External executor produced evidence that needs controller inspection." next none none
    else if d.agent.state == "blocked"
    then decide RecoveryAction.retry_same_executor
        "Executor is blocked but may recover with a fresh attempt." next retry alternative
    else decide RecoveryAction.inspect_evidence
        "AGPair could not classify the result confidently; inspect artifacts before deciding." next
        none none

unfoldable pub choose_recovery_decision : RecoveryInput → RecoveryDecision
choose_recovery_decision d = elim (by_controller d.agent.controller_action) [
  | some r ↦ r
  | none ↦ elim (by_artifact d.agent.controller_action d.artifact) [
    | some r ↦ r
    | none ↦ by_signals d
  ]
]
