-- ===== src/Tasks/Mark.antt =====
-- storage/tasks.py: the methods that move a task from phase to phase.
use agpair.Base.{
  ℕ, String, Bool, true, false, ◌&&◌, List, [], ◌∷◌, Option, none, some, any, update_rows,
  delete_rows, select, length, ltb, or_option,
}
use agpair.Models.{
  Phase, new, acked, ready_for_review, evidence_ready, committed, blocked, stuck, abandoned,
  phase_in, TaskRow, TaskRecord, TaskAttemptRecord, WaiterRecord, terminal_phases,
}
use agpair.Result.{Error}
use agpair.Db.{Db, Exec, ◌>>=◌, ◌>>◌, pure, transaction, require_that}
use agpair.Tasks.Select.{has_id, prepare_retry}
use agpair.Tasks.Attempts.{coalesce, update_attempt, record_attempt_terminal}

-- `_VALID_TRANSITIONS`: the phases that a task may come from; `none` is any phase
unfoldable pub valid_sources : Phase → Option (List Phase)
valid_sources acked =
    some (new ∷ ready_for_review ∷ evidence_ready ∷ blocked ∷ committed ∷ stuck ∷ abandoned ∷ [])
valid_sources ready_for_review = some (acked ∷ evidence_ready ∷ committed ∷ [])
valid_sources evidence_ready = some (acked ∷ [])
valid_sources blocked = some (acked ∷ new ∷ ready_for_review ∷ evidence_ready ∷ committed ∷ [])
valid_sources committed = some (acked ∷ evidence_ready ∷ ready_for_review ∷ [])
valid_sources stuck = some (acked ∷ [])
valid_sources abandoned = none
valid_sources new = none

unfoldable pub may_move : Phase → Phase → Bool
unfolding valid_sources
may_move source target = elim (valid_sources target) [
  | none ↦ true
  | some sources ↦ phase_in source sources
]

-- `_check_transition`
unfoldable pub check_transition : TaskRecord → Phase → Exec (Unit {0})
check_transition task target =
    require_that (may_move task.phase target)
      (Error.illegal_transition task.task_id task.phase target)

-- `_update`: one UPDATE of `tasks` by task_id, and an exception if no row has it
unfoldable pub update_task : String → (TaskRow → TaskRow) → Exec (Unit {0})
update_task task_id f = transaction λ db.
    require_that (any (has_id task_id) db.tasks) (Error.task_not_found task_id)
      (record db { tasks = update_rows (has_id task_id) f db.tasks })

-- the first lines of the methods below
unfoldable pub checked : String → Phase → Exec TaskRecord
checked task_id target = do task ← prepare_retry task_id; check_transition task target; pure task

-- the two UPDATE statements of `mark_acked`
abbrev pub acked_row : String → ℕ → TaskRow → TaskRow
acked_row session_id now r = record r {
  phase = acked;
  antigravity_session_id = some session_id;
  stuck_reason = none;
  retry_recommended = false;
  last_receipt_id = none;
  last_heartbeat_at = none;
  last_workspace_activity_at = none;
  last_activity_at = now;
  updated_at = now;
}

abbrev pub acked_attempt : String → ℕ → TaskAttemptRecord → TaskAttemptRecord
acked_attempt session_id now a = record a {
  phase = acked;
  executor_session_id = some session_id;
  started_at = now;
  updated_at = now;
}

unfoldable pub mark_acked : String → String → ℕ → Exec (Unit {0})
mark_acked task_id session_id now = do
  task ← checked task_id acked
  transaction (
      update_task task_id (acked_row session_id now)
      >> update_attempt task_id task.attempt_no (acked_attempt session_id now))

unfoldable pub mark_evidence_ready : String → Option String → ℕ → Exec (Unit {0})
mark_evidence_ready task_id last_receipt_id now = do
  checked task_id evidence_ready
  update_task task_id λ r. record r {
    phase = evidence_ready;
    last_receipt_id = last_receipt_id;
    last_activity_at = now;
    updated_at = now;
  }

unfoldable pub mark_ready_for_review :
    String
    → (last_receipt_id terminal_source terminal_receipt_json : Option String) → ℕ
    → Exec (Unit {0})
mark_ready_for_review task_id last_receipt_id terminal_source terminal_receipt_json now = do
  checked task_id ready_for_review
  update_task task_id λ r. record r {
    phase = ready_for_review;
    last_receipt_id = last_receipt_id;
    terminal_source = terminal_source;
    terminal_receipt_json = terminal_receipt_json;
    last_activity_at = now;
    updated_at = now;
  }

unfoldable pub mark_blocked :
    String
    → (reason last_receipt_id terminal_source terminal_receipt_json : Option String)
    → (now later : ℕ) → Exec (Unit {0})
mark_blocked task_id reason last_receipt_id terminal_source terminal_receipt_json now later = do
  task ← checked task_id blocked
  update_task task_id λ r. record r {
    phase = blocked;
    stuck_reason = reason;
    last_receipt_id = coalesce last_receipt_id r.last_receipt_id;
    terminal_source = coalesce terminal_source r.terminal_source;
    terminal_receipt_json = coalesce terminal_receipt_json r.terminal_receipt_json;
    last_activity_at = now;
    updated_at = now;
  }
  record_attempt_terminal task_id task.attempt_no blocked terminal_receipt_json
      (or_option terminal_source (some "cli")) none later

unfoldable pub mark_committed :
    String → (last_receipt_id terminal_source : Option String) → ℕ → Exec (Unit {0})
mark_committed task_id last_receipt_id terminal_source now = do
  checked task_id committed
  update_task task_id λ r. record r {
    phase = committed;
    last_receipt_id = last_receipt_id;
    terminal_source = terminal_source;
    last_activity_at = now;
    updated_at = now;
  }

unfoldable pub mark_approved : String → ℕ → Exec (Unit {0})
mark_approved task_id now = do
  prepare_retry task_id
  update_task task_id λ r. record r { is_approved = true; last_activity_at = now; updated_at = now }

unfoldable pub mark_stuck : String → String → (now later : ℕ) → Exec (Unit {0})
mark_stuck task_id reason now later = do
  task ← checked task_id stuck
  update_task task_id λ r. record r {
    phase = stuck;
    stuck_reason = some reason;
    last_activity_at = now;
    updated_at = now;
  }
  record_attempt_terminal task_id task.attempt_no stuck none (some "timeout") none later

unfoldable pub mark_abandoned : String → String → (now later : ℕ) → Exec (Unit {0})
mark_abandoned task_id reason now later = do
  task ← checked task_id abandoned
  update_task task_id λ r. record r {
    phase = abandoned;
    stuck_reason = some reason;
    last_activity_at = now;
    updated_at = now;
  }
  record_attempt_terminal task_id task.attempt_no abandoned none (some "cli") none later

-- WHERE phase IN (…) AND created_at < ?
abbrev pub is_old : ℕ → TaskRow → Bool
is_old cutoff r = phase_in r.phase terminal_phases && ltb r.created_at cutoff

-- WHERE task_id IN (SELECT task_id FROM tasks WHERE …)
abbrev waits_for_old : ℕ → List TaskRow → WaiterRecord → Bool
waits_for_old cutoff tasks w = any (λ r. is_old cutoff r && has_id w.task_id r) tasks

unfoldable pub delete_terminal_older_than : ℕ → Exec ℕ
delete_terminal_older_than cutoff = transaction λ db.
    pure (length (select (is_old cutoff) db.tasks)) (record db {
      waiters = delete_rows (waits_for_old cutoff db.tasks) db.waiters;
      tasks = delete_rows (is_old cutoff) db.tasks;
    })

unfoldable pub count_terminal_older_than : ℕ → Db → ℕ
count_terminal_older_than cutoff db = length (select (is_old cutoff) db.tasks)
