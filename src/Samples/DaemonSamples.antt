-- ===== src/Samples/DaemonSamples.antt =====
-- daemon/loop.py at a task that was acknowledged, and at one that depends on another.
use agpair.Base.{◌⊎◌, ℕ, String, true, false, Memᴰ, ◌≡◌, refl, [], ◌∷◌, all, any, not, ◌&&◌, ◌==◌}
use agpair.Result.{Error, ok, err}
use agpair.Models.{blocked, TaskRecord}
use agpair.Json.{text, nil, cons}
use agpair.Tasks.Select.{get_task}
use agpair.Tasks.Outcome.{IsIn}
use agpair.Tasks.Queries.{list_stale_acked_tasks}
use agpair.Daemon.Timeouts.{CleanupOutcome, mark_stuck_tasks, has_own_budget}
use agpair.Daemon.GivenUp.{IsGivenUp}
use agpair.Daemon.Ends.{cleanup_raises}
use agpair.Daemon.Stuck.{mark_stuck_tasks-gives_up, mark_stuck_tasks-others}
use agpair.Daemon.Dependencies.{Outcome, classify, advance}
use agpair.Daemon.Advance.{is_satisfied, succeeded, gave_up, classify-satisfied, advance-IsIn}
use agpair.Samples.TaskSamples.{
  acked_db, acked_db-IsConsistent, acked_task, db, db-IsConsistent, task, task_found, may_block,
}
use agpair.Samples.WatchSamples.{stale, acked_is_stale}

abbrev keep : String → CleanupOutcome
keep session_id = CleanupOutcome.left

abbrev full_disk : String → CleanupOutcome
full_disk session_id = CleanupOutcome.raised "no space left on device"

ended :
    (mark_stuck_tasks full_disk 1200 1200 900 [] acked_db).0
    ≡ err (Error.executor_error "no space left on device")
unfolding mark_stuck_tasks agpair.Db.◌>>=◌ list_stale_acked_tasks agpair.Tasks.Calls.call
    agpair.Tasks.Mark.mark_acked agpair.Tasks.Mark.checked agpair.Tasks.Select.prepare_retry
    agpair.Tasks.Mark.check_transition agpair.Tasks.Mark.may_move agpair.Tasks.Select.joined
    agpair.Tasks.Select.task_from_row agpair.Tasks.Mark.update_task agpair.Daemon.Timeouts.give_up
    agpair.Tasks.Mark.mark_stuck agpair.Tasks.Attempts.record_attempt_terminal
    agpair.Tasks.Fields.recommend_retry agpair.Journal.append
    agpair.Daemon.Timeouts.cleanup_local_cli_session agpair.Workflows.Control.is_local_cli_backend
    agpair.Options.Environment.normalize_executor_id
    agpair.Options.Profile.validate_authorization_profile
    agpair.Options.Completion.normalize_completion_policy
ended = refl

mark_stuck_tasks-gives_up_example :
    (((n : ℕ) × ((mark_stuck_tasks full_disk 1200 1200 900 [] acked_db).0 ≡ ok n))
      × IsGivenUp "TASK-1" (mark_stuck_tasks full_disk 1200 1200 900 [] acked_db).1)
    ⊎ (((e : Error) × ((mark_stuck_tasks full_disk 1200 1200 900 [] acked_db).0 ≡ err e))
        × ((u : TaskRecord) × Memᴰ u (list_stale_acked_tasks 300 acked_db)
            × (has_own_budget full_disk 1200 [] u ≡ false)
            × (cleanup_raises full_disk u ≡ true)
            × IsGivenUp u.task_id (mark_stuck_tasks full_disk 1200 1200 900 [] acked_db).1))
mark_stuck_tasks-gives_up_example =
    mark_stuck_tasks-gives_up full_disk 1200 1200 900 [] acked_db acked_task acked_db-IsConsistent
      acked_is_stale refl

none_due :
    any
      (λ (t : TaskRecord). (t.task_id == "TASK-2") && not (has_own_budget keep 1200 [] t))
      (list_stale_acked_tasks 300 acked_db)
    ≡ false
none_due = rw stale refl

mark_stuck_tasks-others_example :
    get_task "TASK-2" (mark_stuck_tasks keep 1200 1200 900 [] acked_db).1
    ≡ get_task "TASK-2" acked_db
mark_stuck_tasks-others_example =
    mark_stuck_tasks-others keep 1200 1200 900 [] acked_db "TASK-2" none_due

classify-satisfied_example :
    is_satisfied (classify (cons (text "TASK-1") nil) acked_db)
    ≡ all (λ dep_id. succeeded (get_task dep_id acked_db)) ("TASK-1" ∷ [])
classify-satisfied_example = classify-satisfied ("TASK-1" ∷ []) acked_db

abbrev dispatch : TaskRecord → String → Outcome
dispatch t body = Outcome.raised

missing : gave_up (get_task "TASK-0" db) ≡ true
unfolding get_task
missing = refl

advance-IsIn_example :
    ((advance dispatch "missing" 110 task (cons (text "TASK-0") (cons (text "TASK-9") nil)) db).0
      ≡ ok 0)
    × IsIn "TASK-1" 1 blocked
        (advance dispatch "missing" 110 task (cons (text "TASK-0") (cons (text "TASK-9") nil)) db).1
advance-IsIn_example =
    advance-IsIn dispatch "missing" 110 task [] "TASK-0" ("TASK-9" ∷ []) db db-IsConsistent
      task_found may_block refl missing
