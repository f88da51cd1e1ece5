-- ===== src/Samples/WatchSamples.antt =====
-- storage/tasks.py: the timeout queries at a task that was acked at 105.
use agpair.Base.{◌≡◌, refl, [], ◌∷◌, Memᴰ}
use agpair.Tasks.Queries.{list_stale_acked_tasks, list_watchdog_candidates}
use agpair.Tasks.Watch.{stale_not_watched}
use agpair.Samples.TaskSamples.{acked_db, acked_task}

pub stale : list_stale_acked_tasks 300 acked_db ≡ acked_task ∷ []
unfolding list_stale_acked_tasks agpair.Tasks.Calls.call agpair.Tasks.Mark.mark_acked
    agpair.Db.◌>>=◌ agpair.Tasks.Mark.checked agpair.Tasks.Select.prepare_retry
    agpair.Tasks.Mark.check_transition agpair.Tasks.Mark.may_move agpair.Tasks.Select.joined
    agpair.Tasks.Select.task_from_row agpair.Tasks.Mark.update_task
    agpair.Options.Completion.normalize_completion_policy
    agpair.Options.Profile.validate_authorization_profile
stale = refl

pub acked_is_stale : Memᴰ acked_task (list_stale_acked_tasks 300 acked_db)
acked_is_stale = rw stale (Memᴰ.head refl)

stale_not_watched_example : ¬ Memᴰ acked_task (list_watchdog_candidates 400 300 acked_db)
stale_not_watched_example = stale_not_watched 400 300 acked_db acked_task acked_is_stale

watched : list_watchdog_candidates 400 100 acked_db ≡ acked_task ∷ []
unfolding list_watchdog_candidates agpair.Tasks.Calls.call agpair.Tasks.Mark.mark_acked
    agpair.Db.◌>>=◌ agpair.Tasks.Mark.checked agpair.Tasks.Select.prepare_retry
    agpair.Tasks.Mark.check_transition agpair.Tasks.Mark.may_move agpair.Tasks.Select.joined
    agpair.Tasks.Select.task_from_row agpair.Tasks.Mark.update_task
    agpair.Options.Completion.normalize_completion_policy
    agpair.Options.Profile.validate_authorization_profile
watched = refl
