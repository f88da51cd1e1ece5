-- ===== src/Tasks/Select.antt =====
-- storage/tasks.py: reading one task.
use agpair.Base.{
  ℕ, String, Bool, ◌&&◌, List, Option, none, some, find_row, eqb, or_default, or_option, ◌==◌,
}
use agpair.Models.{TaskRow, TaskRecord, TaskAttemptRecord}
use agpair.Result.{Error, Result, ok, err}
use agpair.Options.Profile.{validate_authorization_profile}
use agpair.Options.Completion.{normalize_completion_policy}
use agpair.Db.{Db, Exec, require_some}

-- a value that was read, or what `except ValueError` puts in its place
abbrev value_or : Result String → String → String
value_or (ok s) d = s
value_or (err e) d = d

-- `_task_from_row`: `session` is the column of the joined attempt
unfoldable pub task_from_row : TaskRow → Option String → TaskRecord
task_from_row r session = record {
  row = record r {
    completion_policy = value_or (normalize_completion_policy (some r.completion_policy)) "auto";
    authorization_profile =
        value_or (validate_authorization_profile (some r.authorization_profile)) "local_mutating";
    task_kind = or_default (some r.task_kind) "generic";
    wait_policy = or_default (some r.wait_policy) "terminal";
  };
  executor_session_id = or_option session r.antigravity_session_id;
}

-- WHERE task_id=?
abbrev pub has_id : String → TaskRow → Bool
has_id task_id r = r.task_id == task_id

-- WHERE task_id=? AND attempt_no=?
abbrev pub is_attempt : String → ℕ → TaskAttemptRecord → Bool
is_attempt task_id attempt_no a = a.task_id == task_id && eqb a.attempt_no attempt_no

abbrev pub session_of : Option TaskAttemptRecord → Option String
session_of none = none
session_of (some a) = a.executor_session_id

-- the row with what LEFT JOIN task_attempts adds to it
unfoldable pub joined : List TaskAttemptRecord → TaskRow → TaskRecord
joined attempts r =
    task_from_row r (session_of (find_row (is_attempt r.task_id r.attempt_no) attempts))

abbrev option_map : (TaskRow → TaskRecord) → Option TaskRow → Option TaskRecord
option_map f none = none
option_map f (some r) = some (f r)

unfoldable pub get_task : String → Db → Option TaskRecord
get_task task_id db = option_map (joined db.attempts) (find_row (has_id task_id) db.tasks)

-- the first lines of the methods that want the task to be there; also `prepare_retry`
unfoldable pub prepare_retry : String → Exec TaskRecord
unfolding get_task
prepare_retry task_id db = require_some (get_task task_id db) (Error.task_not_found task_id) db
