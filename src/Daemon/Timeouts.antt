-- ===== src/Daemon/Timeouts.antt =====
-- daemon/loop.py: tasks that made no progress. `now` is the time of the clock in all that a call writes.
-- `cleanup` is what comes of cleaning up a session. That may raise, and nothing catches it: a loop over
-- tasks ends there, with what it wrote so far.
use agpair.Base.{
  ℕ, suc, ◌-◌, String, Bool, true, false, not, ◌&&◌, ◌||◌, List, [], ◌∷◌, Option, none, some, elem,
  leb, truthy, or_option, if◌then◌else◌, eqb, map, select, ◌++◌,
}
use agpair.Base.Signed.{Seconds}
use agpair.Models.{TaskRecord}
use agpair.Result.{Error, Result, ok, err}
use agpair.Db.{Db, Exec, ◌>>=◌, ◌>>◌, pure, gets}
use agpair.Tasks.Queries.{
  list_stale_acked_tasks, list_execution_budget_expired_candidates, list_watchdog_candidates,
  list_local_cli_cleanup_candidates,
}
use agpair.Tasks.Mark.{mark_stuck}
use agpair.Tasks.Fields.{recommend_retry, clear_session_id}
use agpair.Journal.{append}
use agpair.Workflows.Control.{is_local_cli_backend}

-- `for task in tasks`, counting the tasks that are not skipped
unfoldable pub for_each :
    (TaskRecord → Bool) → (TaskRecord → Exec (Unit {0})) → List TaskRecord → ℕ → Exec ℕ
for_each skipped body [] count = pure count
for_each skipped body (task ∷ rest) count =
    (if skipped task then pure count else (body task >> pure (suc count)))
    >>= for_each skipped body rest

-- the ids of the tasks that the loop does not skip: `touched`
abbrev touched : (TaskRecord → Bool) → List TaskRecord → List String
touched skipped tasks =
    map (λ (t : TaskRecord). t.task_id) (select (λ task. not (skipped task)) tasks)

-- `task.executor_session_id or task.antigravity_session_id`
abbrev pub session_of : TaskRecord → Option String
session_of task = or_option task.executor_session_id task.antigravity_session_id

-- `try: m; return True except TaskNotFoundError: return False`
abbrev pub unless_missing : Result (Unit {0}) × Db → Result Bool × Db
unless_missing (ok u, db) = (ok true, db)
unless_missing (err (Error.task_not_found i), db) = (ok false, db)
unless_missing (err e, db) = (err e, db)

abbrev pub given_budget : Option Seconds → Bool
given_budget none = false
given_budget (some seconds) = true

-- what comes of `exec_instance.cleanup(session_id)`: it raises, or returns and has left the directory of
-- the session, or one of another name; or the directory is gone
pub data CleanupOutcome : Type 0 where
  raised : String → CleanupOutcome
  left gone : CleanupOutcome

abbrev pub after_cleanup : ℕ → TaskRecord → CleanupOutcome → Exec Bool
after_cleanup now task (raised text) db = (err (Error.executor_error text), db)
after_cleanup now task left db = (ok false, db)
after_cleanup now task gone db = unless_missing (clear_session_id task.task_id now db)

module _ (cleanup : String → CleanupOutcome) (now : ℕ) where
  abbrev pub clear_cleaned : TaskRecord → Option String → Exec Bool
  clear_cleaned task none = pure false
  clear_cleaned task (some session_id) = after_cleanup now task (cleanup session_id)

  unfoldable pub cleanup_local_cli_session : TaskRecord → Exec Bool
  unfolding is_local_cli_backend
  cleanup_local_cli_session task =
      if truthy (session_of task) && is_local_cli_backend task.executor_backend
      then clear_cleaned task (session_of task)
      else pure false

  -- what both loops do with a task that is given up
  unfoldable pub give_up : String → String → String → TaskRecord → Exec (Unit {0})
  give_up reason event message task =
      mark_stuck task.task_id reason now now
      >> recommend_retry task.task_id (some task.retry_count) now
      >> append task.task_id "daemon" event message "normal" now
      >> (if truthy (session_of task) then (cleanup_local_cli_session task >> pure tt) else pure tt)

  abbrev pub has_own_budget : List String → TaskRecord → Bool
  has_own_budget excluded task =
      elem task.task_id excluded || given_budget task.execution_budget_seconds

  unfoldable pub mark_stuck_tasks : ℕ → ℕ → List String → Exec ℕ
  unfolding for_each
  mark_stuck_tasks current timeout_seconds skip_task_ids =
      gets (list_stale_acked_tasks (current - timeout_seconds)) >>= λ tasks.
      for_each (has_own_budget skip_task_ids)
        (give_up "no progress before timeout" "stuck" "retry recommended after timeout") tasks 0

  unfoldable pub mark_execution_budget_expired_tasks : ℕ → List String → Exec (ℕ × List String)
  unfolding for_each
  mark_execution_budget_expired_tasks current skip_task_ids =
      gets (list_execution_budget_expired_candidates current) >>= λ tasks.
      for_each (λ task. elem task.task_id skip_task_ids)
        (give_up "no_progress_budget_exceeded" "execution_budget_stuck"
          "retry recommended after execution budget exceeded")
        tasks 0
      >>= λ count. pure (count, touched (λ task. elem task.task_id skip_task_ids) tasks)

  unfoldable pub warn : TaskRecord → Exec (Unit {0})
  warn task =
      recommend_retry task.task_id (some task.retry_count) now
      >> (if task.background_ok
          then append task.task_id "daemon" "soft_no_progress_recommended"
              "no fresh progress signal after watchdog threshold; background task not failed"
              "normal" now
          else append task.task_id "daemon" "watchdog_retry_recommended"
              "no progress after watchdog threshold" "normal" now)

  unfoldable pub mark_watchdog_tasks : ℕ → ℕ → ℕ → List String → Exec (ℕ × List String)
  unfolding for_each
  mark_watchdog_tasks current watchdog_seconds timeout_seconds skip_task_ids =
      if eqb watchdog_seconds 0 || leb timeout_seconds watchdog_seconds
      then pure (0, [])
      else gets (list_watchdog_candidates (current - watchdog_seconds) (current - timeout_seconds))
        >>= λ tasks. for_each (λ task. elem task.task_id skip_task_ids) warn tasks 0 >>= λ count.
            pure (count, touched (λ task. elem task.task_id skip_task_ids) tasks)

  unfoldable pub count_cleaned : List String → List TaskRecord → ℕ → Exec ℕ
  count_cleaned excluded [] count = pure count
  count_cleaned excluded (task ∷ rest) count =
      (if elem task.task_id excluded
        then pure count
        else (cleanup_local_cli_session task >>= λ done. pure (if done then suc count else count)))
      >>= count_cleaned excluded rest

  unfoldable pub sweep_local_cli_sessions : List String → Exec ℕ
  unfolding count_cleaned
  sweep_local_cli_sessions skip_task_ids =
      gets (list_local_cli_cleanup_candidates 500) >>= λ tasks. count_cleaned skip_task_ids tasks 0

  -- the three passes of `run_once` over the tasks without progress, and the cleanup of sessions;
  -- `touched_task_ids` are the tasks that a receipt came for
  unfoldable pub run_timeouts : ℕ → ℕ → ℕ → List String → Exec (ℕ × ℕ × ℕ × ℕ)
  unfolding mark_stuck_tasks mark_execution_budget_expired_tasks mark_watchdog_tasks
      sweep_local_cli_sessions
  run_timeouts current watchdog_seconds timeout_seconds touched_task_ids = do
    (watchdog_count, watchdog_task_ids) ←
        mark_watchdog_tasks current watchdog_seconds timeout_seconds touched_task_ids
    (budget_stuck, budget_task_ids) ←
        mark_execution_budget_expired_tasks current (touched_task_ids ++ watchdog_task_ids)
    stuck ←
        mark_stuck_tasks current timeout_seconds
          (touched_task_ids ++ watchdog_task_ids ++ budget_task_ids)
    cleaned_sessions ← sweep_local_cli_sessions touched_task_ids
    pure (watchdog_count, budget_stuck, stuck, cleaned_sessions)
