-- ===== src/Tasks/Retried.antt =====
-- storage/tasks.py: what `apply_retry_dispatch` makes of a task that can be retried.
use agpair.Base.{
  ℕ, ◌+◌, String, false, ◌≡◌, refl, ap, inl, inr, [], ◌∷◌, none, some, any, find_row, Bool-cases,
  arith, eq_iff, eq_refl, or_default,
}
use agpair.Base.Members.{
  mem_of_any, mem-find_row, any_of_find, find_row-holds, find_row-update_rows, find_row-append,
  find_row-none,
}
use agpair.Models.{Phase, TaskRow, TaskRecord}
use agpair.Result.{ok}
use agpair.Options.Profile.{authorization_profile_summary}
use agpair.Db.{Db, ◌>>=◌}
use agpair.Tasks.Select.{has_id, is_attempt, get_task, joined, prepare_retry, task_from_row}
use agpair.Tasks.Create.{Opening, open_attempt}
use agpair.Tasks.Retry.{Retry, apply_retry_dispatch, next_opening, reset_row}
use agpair.Tasks.Consistent.{IsConsistent}
use agpair.Tasks.Found.{get_task-some, get_task-found, joined_fields}
use agpair.Tasks.Reopen.{reopen_lem, reopened}

-- The number of the next attempt is free.
next_is_free :
    (i : String) (t : TaskRecord) (db : Db)
    → IsConsistent db
    → get_task i db ≡ some t
    → any (is_attempt i (t.attempt_no + 1)) db.attempts ≡ false
next_is_free i t db c found =
    let (r, e, same) = get_task-found i db found in
    elim (Bool-cases (any (is_attempt i (t.attempt_no + 1)) db.attempts)) [
      | inr free ↦ free
      | inl taken ↦
          let (b, m, key) = mem_of_any _ db.attempts taken in
          let mine : r.task_id ≡ i = (eq_iff _ _).0 (find_row-holds (has_id i) db.tasks e) in
          let bound = c.latest r b (mem-find_row (has_id i) db.tasks e) m in
          absurd (
            ground (
              arith,
              eq_iff b.task_id i,
              mine,
              bound,
              ap (λ x. x.attempt_no) same,
              (joined_fields db r).1,
            ))
    ]

module _ (a : Retry) (now : ℕ) (db : Db) (t : TaskRecord) (o : Opening) where
  abbrev summary : String
  summary =
      or_default a.authorization_summary (authorization_profile_summary o.authorization_profile)

  abbrev after : Db
  after = reopened a.task_id (t.attempt_no + 1) (t.retry_count + 1) o summary now db

  abbrev row : TaskRow → TaskRow
  row = reset_row (t.attempt_no + 1) (t.retry_count + 1) o summary now

  row_after :
      (r : TaskRow)
      → find_row (has_id a.task_id) db.tasks ≡ some r
      → find_row (has_id a.task_id) after.tasks ≡ some (row r)
  row_after r e = rw (
    find_row-update_rows (has_id a.task_id) (has_id a.task_id) row db.tasks (λ x. refl),
    e,
    find_row-holds (has_id a.task_id) db.tasks e,
  )

  dispatched :
      (r : TaskRow)
      → get_task a.task_id db ≡ some t
      → find_row (has_id a.task_id) db.tasks ≡ some r
      → any (is_attempt a.task_id (t.attempt_no + 1)) db.attempts ≡ false
      → next_opening a t ≡ ok o
      → apply_retry_dispatch a now db ≡ (ok (joined after.attempts (row r)), after)
  unfolding apply_retry_dispatch ◌>>=◌ prepare_retry
  dispatched r found e free opening = rw (
    found,
    opening,
    reopen_lem a.task_id (t.attempt_no + 1) (t.retry_count + 1) o summary now db
        (any_of_find (has_id a.task_id) db.tasks e) free,
    get_task-some a.task_id after (row_after r e),
  )

  opened :
      any (is_attempt a.task_id (t.attempt_no + 1)) db.attempts ≡ false
      → find_row (is_attempt a.task_id (t.attempt_no + 1)) after.attempts
        ≡ some (open_attempt a.task_id (t.attempt_no + 1) o now)
  opened free =
      rw
        (
          find_row-append (is_attempt a.task_id (t.attempt_no + 1)) db.attempts
              (open_attempt a.task_id (t.attempt_no + 1) o now ∷ []),
          find_row-none _ db.attempts free,
          eq_refl a.task_id,
        )
        (ground arith)

  no_session :
      (r : TaskRow)
      → find_row (has_id a.task_id) db.tasks ≡ some r
      → any (is_attempt a.task_id (t.attempt_no + 1)) db.attempts ≡ false
      → (joined after.attempts (row r)).executor_session_id ≡ none
  unfolding joined task_from_row
  no_session r e free =
      rw ((eq_iff _ _).0 (find_row-holds (has_id a.task_id) db.tasks e), opened free)

-- If the tables are consistent, the task is there and the arguments are valid, a retry returns the task at
-- the start of the next attempt: new, with one retry more, without a session, and with the attempt
-- that was opened for it.
pub apply_retry_dispatch-opens :
    (a : Retry) (now : ℕ) (db : Db) (t : TaskRecord) (o : Opening)
    → IsConsistent db
    → get_task a.task_id db ≡ some t
    → next_opening a t ≡ ok o
    → (u : TaskRecord) × ((apply_retry_dispatch a now db).0 ≡ ok u)
      × (get_task a.task_id (apply_retry_dispatch a now db).1 ≡ some u)
      × (u.phase ≡ Phase.new)
      × (u.attempt_no ≡ t.attempt_no + 1)
      × (u.retry_count ≡ t.retry_count + 1)
      × (u.executor_session_id ≡ none)
      × (find_row (is_attempt a.task_id u.attempt_no) (apply_retry_dispatch a now db).1.attempts
          ≡ some (open_attempt a.task_id u.attempt_no o now))
apply_retry_dispatch-opens a now db t o c found opening =
    let (r, e, same) = get_task-found a.task_id db found in
    let free = next_is_free a.task_id t db c found in
    let u = joined (after a now db t o).attempts (row a now db t o r) in
    let (p, q, k, _) = joined_fields (after a now db t o) (row a now db t o r) in
    let it = dispatched a now db t o r found e free opening in
    (
      u,
      ap (λ x. x.0) it,
      rw it (get_task-some a.task_id (after a now db t o) (row_after a now db t o r e)),
      p,
      q,
      k,
      no_session a now db t o r e free,
      rw (it, q) (opened a now db t o free),
    )
