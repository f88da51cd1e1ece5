-- ===== src/Workflows/Control.antt =====
-- workflows/control.py: `cancel_workflow`, and the test of executors/__init__.py that it uses. The payload
-- that it returns only reads the tables, and is left out.
use agpair.Base.{
  ℕ, String, Bool, true, false, ◌&&◌, List, [], ◌∷◌, Option, none, some, if◌then◌else◌, elem, ◌==◌,
}
use agpair.Models.{Phase, TaskRecord}
use agpair.Models.Workflows.{WorkflowPhase, NodePhase, WorkflowNodeRecord, is_terminal, is_active}
use agpair.Result.{ok, err}
use agpair.Options.Environment.{canonical_executor_ids, normalize_executor_id}
use agpair.Db.{Exec, ◌>>=◌, ◌>>◌, pure, gets}
use agpair.Tasks.Select.{get_task}
use agpair.Tasks.Mark.{mark_abandoned}
use agpair.Journal.{append}
use agpair.Workflows.Store.{require_workflow, list_nodes, mark_workflow_phase}
use agpair.Workflows.NodeStore.{cancel_active_nodes}

-- Every canonical executor is active.
unfoldable pub is_local_cli_backend : Option String → Bool
is_local_cli_backend none = false
is_local_cli_backend (some backend) =
    if backend == "codex_cli"
    then true
    else if elem backend canonical_executor_ids
    then elim (normalize_executor_id backend) [
      | ok normalized ↦ normalized == backend
      | err e ↦ false
    ]
    else false

-- what comes of `get_executor(…).cancel(…)`, which ends a process: there is no executor, it returns, or
-- it raises an exception with a text
pub data CancelOutcome : Type 0 where
  no_executor : CancelOutcome
  returned : CancelOutcome
  raised : String → CancelOutcome

abbrev pub log_cancel : String → CancelOutcome → String → ℕ → Exec (Unit {0})
log_cancel task_id CancelOutcome.no_executor reason now = pure tt
log_cancel task_id CancelOutcome.returned reason now =
    append task_id "workflow" "executor_cancelled" reason "normal" now
log_cancel task_id (CancelOutcome.raised text) reason now =
    append task_id "workflow" "executor_cancel_failed" text "normal" now

-- `task.phase in ACTIVE_TASK_PHASES`
abbrev pub is_active_task : Phase → Bool
is_active_task Phase.new = true
is_active_task Phase.acked = true
is_active_task _ = false

abbrev is_acked : Phase → Bool
is_acked Phase.acked = true
is_acked _ = false

module _ (cancel : TaskRecord → CancelOutcome) (reason : String) (now : ℕ) where
  unfoldable pub abandon_task : TaskRecord → Exec (Unit {0})
  unfolding is_local_cli_backend
  abandon_task task =
      (if is_acked task.phase && is_local_cli_backend task.executor_backend
        then log_cancel task.task_id (cancel task) reason now
        else pure tt)
      >> mark_abandoned task.task_id reason now now
      >> append task.task_id "workflow" "abandoned" reason "normal" now

  abbrev pub abandon_found : Option TaskRecord → Exec (Unit {0})
  abandon_found none = pure tt
  abandon_found (some task) = if is_active_task task.phase then abandon_task task else pure tt

  abbrev pub abandon_id : Option String → Exec (Unit {0})
  abandon_id none = pure tt
  abandon_id (some task_id) =
      if task_id == "" then pure tt else (gets (get_task task_id) >>= abandon_found)

  -- one turn of the loop over the nodes
  unfoldable pub cancel_node_task : WorkflowNodeRecord → Exec (Unit {0})
  unfolding get_task
  cancel_node_task node = if is_active node.phase then abandon_id node.task_id else pure tt

  unfoldable pub cancel_node_tasks : List WorkflowNodeRecord → Exec (Unit {0})
  cancel_node_tasks [] = pure tt
  cancel_node_tasks (node ∷ nodes) = cancel_node_task node >> cancel_node_tasks nodes

  unfoldable pub cancel_active : String → Exec (Unit {0})
  cancel_active workflow_id = do
    nodes ← gets (list_nodes workflow_id)
    cancel_node_tasks nodes
    cancel_active_nodes workflow_id NodePhase.abandoned reason now
    mark_workflow_phase workflow_id WorkflowPhase.abandoned (some reason) none none now

  unfoldable pub cancel_workflow : String → Exec (Unit {0})
  cancel_workflow workflow_id = do
    workflow ← require_workflow workflow_id
    if is_terminal workflow.phase then pure tt else cancel_active workflow_id
