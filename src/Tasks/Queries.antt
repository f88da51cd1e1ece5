-- ===== src/Tasks/Queries.antt =====
-- storage/tasks.py: the queries that return tasks. Rows that ORDER BY leaves equal are in the order of
-- the table.
use Prim.Native.String.{compare}
use Prim.Native.Nat.{Ordering}
use agpair.Base.{
  ℕ, ◌+◌, ◌/◌, String, Bool, true, false, ◌&&◌, ◌||◌, not, List, [], ◌∷◌, Option, none, some, map,
  if◌then◌else◌, select, sort_by, take, eqb, leb, ltb, ◌==◌,
}
use agpair.Base.Signed.{pos, Seconds, thousandths}
use agpair.Models.{
  Phase, new, acked, ready_for_review, evidence_ready, blocked, stuck, same_phase, phase_in,
  TaskRow, TaskRecord, terminal_phases,
}
use agpair.Db.{Db}
use agpair.Tasks.Select.{task_from_row}
use agpair.Tasks.Create.{same_key}

-- a row of a query that joins nothing
abbrev pub plain : TaskRow → TaskRecord
plain r = task_from_row r none

abbrev first_of_rows : List TaskRow → Option TaskRecord
first_of_rows [] = none
first_of_rows (r ∷ rest) = some (plain r)

-- ORDER BY created_at DESC LIMIT 1
unfoldable pub get_task_by_idempotency_key : String → String → Db → Option TaskRecord
get_task_by_idempotency_key repo_path key db = first_of_rows (
    sort_by (λ a b. ltb b.created_at a.created_at)
      (select (same_key repo_path (some key)) db.tasks))

abbrev relevance : Phase → ℕ
relevance phase =
    if phase_in phase (new ∷ acked ∷ ready_for_review ∷ evidence_ready ∷ [])
    then 0
    else if phase_in phase (blocked ∷ stuck ∷ [])
    then 1
    else 2

-- ORDER BY CASE … END ASC, updated_at DESC
abbrev pub more_relevant : TaskRow → TaskRow → Bool
more_relevant a b =
    ltb (relevance a.phase) (relevance b.phase)
    || (eqb (relevance a.phase) (relevance b.phase) && ltb b.updated_at a.updated_at)

unfoldable pub get_most_relevant_active_task : String → Db → Option TaskRecord
get_most_relevant_active_task repo_path db =
    first_of_rows
      (sort_by more_relevant (select (λ r. r.repo_path == repo_path && not r.is_approved) db.tasks))

-- t IS NULL OR t < ?
abbrev quiet_since : Option ℕ → ℕ → Bool
quiet_since none cutoff = true
quiet_since (some t) cutoff = ltb t cutoff

abbrev pub is_stale : ℕ → TaskRow → Bool
is_stale cutoff r =
    same_phase r.phase acked
    && ltb r.last_activity_at cutoff
    && quiet_since r.last_heartbeat_at cutoff
    && quiet_since r.last_workspace_activity_at cutoff

abbrev pub by_activity : TaskRow → TaskRow → Bool
by_activity a b = ltb a.last_activity_at b.last_activity_at

unfoldable pub list_stale_acked_tasks : ℕ → Db → List TaskRecord
list_stale_acked_tasks cutoff db =
    map plain (sort_by by_activity (select (is_stale cutoff) db.tasks))

abbrev pub is_watched : ℕ → ℕ → TaskRow → Bool
is_watched watchdog_cutoff hard_timeout_cutoff r =
    same_phase r.phase acked
    && not r.retry_recommended
    && ltb r.last_activity_at watchdog_cutoff
    && leb hard_timeout_cutoff r.last_activity_at
    && quiet_since r.last_heartbeat_at watchdog_cutoff
    && quiet_since r.last_workspace_activity_at watchdog_cutoff

unfoldable pub list_watchdog_candidates : ℕ → ℕ → Db → List TaskRecord
list_watchdog_candidates watchdog_cutoff hard_timeout_cutoff db =
    map plain
      (sort_by by_activity (select (is_watched watchdog_cutoff hard_timeout_cutoff) db.tasks))

-- datetime(created_at, '+' || budget || ' seconds') <= datetime(?): `datetime` drops fractions of a
-- second, and is NULL where the budget is no finite number; a budget that is negative, which no method
-- writes, counts as none
abbrev expired : Option Seconds → ℕ → ℕ → Bool
expired (some (thousandths (pos budget))) created now = leb (created + budget / 1000) now
expired _ created now = false

abbrev pub is_over_budget : ℕ → TaskRow → Bool
is_over_budget now r =
    same_phase r.phase acked && expired r.execution_budget_seconds r.created_at now

unfoldable pub list_execution_budget_expired_candidates : ℕ → Db → List TaskRecord
list_execution_budget_expired_candidates now db =
    map plain
      (sort_by (λ a b. ltb a.created_at b.created_at) (select (is_over_budget now) db.tasks))

-- ORDER BY updated_at DESC, task_id DESC
abbrev recent_first : TaskRow → TaskRow → Bool
recent_first a b =
    ltb b.updated_at a.updated_at
    || (eqb b.updated_at a.updated_at
        && elim (compare b.task_id a.task_id) [ Ordering.lt ↦ true | _ ↦ false ])

-- column = ?, if the argument is given
abbrev phase_is : Option Phase → Phase → Bool
phase_is none q = true
phase_is (some p) q = same_phase q p

abbrev text_is : Option String → Option String → Bool
text_is none t = true
text_is (some s) none = false
text_is (some s) (some t) = t == s

unfoldable pub list_tasks :
    Option Phase → (repo_path workflow_id parent_task_id : Option String) → ℕ → Db → List TaskRecord
list_tasks phase repo_path workflow_id parent_task_id limit db = map plain (
    take limit (
      sort_by recent_first (
        select
          (λ r.
            phase_is phase r.phase
            && text_is repo_path (some r.repo_path)
            && text_is workflow_id r.workflow_id
            && text_is parent_task_id r.parent_task_id)
          db.tasks)))

abbrev pub has_session : TaskRow → Bool
has_session r = elim r.antigravity_session_id [ none ↦ false | some s ↦ true ]

unfoldable pub list_local_cli_cleanup_candidates : ℕ → Db → List TaskRecord
list_local_cli_cleanup_candidates limit db = map plain (
    take limit (
      sort_by recent_first
        (select (λ r. phase_in r.phase terminal_phases && has_session r) db.tasks)))
