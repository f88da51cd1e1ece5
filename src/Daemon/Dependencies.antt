-- ===== src/Daemon/Dependencies.antt =====
-- daemon/loop.py: tasks that wait for other tasks. `loads` is `json.loads`; `dispatch` is what comes
-- of handing a task to its executor, without a value where the executor raises.
use agpair.Base.{
  ℕ, ◌+◌, String, Bool, false, ◌&&◌, List, [], ◌∷◌, Option, none, some, find_row, truthy,
  or_default, if◌then◌else◌, ◌==◌,
}
use agpair.Models.{
  Phase, new, blocked, abandoned, stuck, ready_for_review, evidence_ready, committed, phase_in,
  same_phase, TaskRecord,
}
use agpair.Json.{Json, Items, text, array, nil, cons}
use agpair.Db.{Db, Exec, ◌>>=◌, ◌>>◌, pure, gets}
use agpair.Tasks.Select.{get_task}
use agpair.Tasks.Queries.{list_tasks}
use agpair.Tasks.Mark.{mark_blocked, mark_acked}
use agpair.Tasks.Fields.{set_execution_repo_path}
use agpair.Journal.{append, tail}

abbrev pub dep_terminal_failure_phases : List Phase
dep_terminal_failure_phases = blocked ∷ abandoned ∷ stuck ∷ []

abbrev pub dep_success_phases : List Phase
dep_success_phases = ready_for_review ∷ evidence_ready ∷ committed ∷ []

-- what the dependencies of a task say: the ones that failed are named in `reason`
pub data Readiness : Type 0 where
  satisfied waiting failed : Readiness

abbrev pub of_dependency : Option TaskRecord → Readiness → Readiness
of_dependency none later = failed
of_dependency (some dep) later =
    if phase_in dep.phase dep_terminal_failure_phases
    then failed
    else if phase_in dep.phase dep_success_phases
    then later
    else waiting

-- the loop over the dependencies; what is no text is the id of no task
unfoldable pub classify : Items → Db → Readiness
classify nil db = satisfied
classify (cons (text dep_id) rest) db = of_dependency (get_task dep_id db) (classify rest db)
classify (cons other rest) db = failed

-- `_get_task_body_from_journal`
unfoldable pub get_task_body_from_journal : String → Db → Option String
get_task_body_from_journal task_id db =
    elim (find_row (λ row. (row.event == "created") && (row.source == "cli"))
      (tail task_id 200 false db)) [ none ↦ none | some row ↦ some row.body ]

pub record DispatchResult : Type 0 where
  pub execution_repo_path : Option String
  pub session_id : Option String

-- what `get_executor(...)` and its `dispatch` come to
pub data Outcome : Type 0 where
  unknown_executor raised : Outcome
  dispatched : DispatchResult → Outcome

module _ (dispatch : TaskRecord → String → Outcome) (reason : String) (now : ℕ) where
  unfoldable pub block_task : TaskRecord → Exec ℕ
  block_task task =
      append task.task_id "daemon" "auto_advance_failed" reason "normal" now
      >> mark_blocked task.task_id (some reason) none none none now now
      >> pure 0

  abbrev acknowledge : TaskRecord → Option String → Exec (Unit {0})
  acknowledge task none = pure tt
  acknowledge task (some session_id) =
      if session_id == "" then pure tt else mark_acked task.task_id session_id now

  unfoldable pub record_dispatch : TaskRecord → DispatchResult → Exec ℕ
  record_dispatch task result =
      (if truthy result.execution_repo_path
        then set_execution_repo_path task.task_id result.execution_repo_path now
        else pure tt)
      >> acknowledge task result.session_id
      >> append task.task_id "daemon" "auto_advanced" "dependencies satisfied" "normal" now
      >> pure 1

  abbrev pub after_dispatch : TaskRecord → Outcome → Exec ℕ
  after_dispatch task unknown_executor =
      append task.task_id "daemon" "auto_advance_failed" "unknown executor backend" "normal" now
      >> pure 0
  after_dispatch task raised = block_task task
  after_dispatch task (dispatched result) = record_dispatch task result

  -- `fresh_task is None or fresh_task.phase != "new"`
  abbrev pub is_new : Option TaskRecord → Bool
  is_new none = false
  is_new (some task) = same_phase task.phase new

  unfoldable pub dispatch_body : TaskRecord → Option String → Exec ℕ
  dispatch_body task body =
      if truthy body
      then (gets (get_task task.task_id) >>= λ fresh.
          if is_new fresh then after_dispatch task (dispatch task (or_default body "")) else pure 0)
      else (append task.task_id "daemon" "auto_advance_skipped" "no task body found in journal"
            "normal" now
          >> pure 0)

  abbrev pub by_readiness : TaskRecord → Readiness → Exec ℕ
  by_readiness task satisfied =
      gets (get_task_body_from_journal task.task_id) >>= dispatch_body task
  by_readiness task waiting = pure 0
  by_readiness task failed = block_task task

  unfoldable pub advance : TaskRecord → Items → Exec ℕ
  advance task dep_ids = gets (classify dep_ids) >>= by_readiness task

  -- `isinstance(dep_ids, list) and dep_ids`
  abbrev pub dependency_list : Option Json → Items
  dependency_list (some (array (cons v vs))) = cons v vs
  dependency_list _ = nil

  abbrev pub advance_listed : TaskRecord → Items → Exec ℕ
  advance_listed task nil = pure 0
  advance_listed task (cons v vs) = advance task (cons v vs)

  unfoldable pub advance_each : (String → Option Json) → List TaskRecord → ℕ → Exec ℕ
  unfolding advance
  advance_each loads [] count = pure count
  advance_each loads (task ∷ rest) count =
      (if truthy task.depends_on
        then advance_listed task (dependency_list (loads (or_default task.depends_on "")))
        else pure 0)
      >>= λ advanced. advance_each loads rest (count + advanced)

  unfoldable pub auto_advance_dependent_tasks : (String → Option Json) → Exec ℕ
  unfolding advance_each
  auto_advance_dependent_tasks loads =
      gets (list_tasks (some new) none none none 100) >>= λ tasks. advance_each loads tasks 0
