-- ===== src/Tasks/Inserted.antt =====
-- What the transaction of `create_task` does to the tables.
use agpair.Base.{true, false, ◌≡◌, ◌++◌, [], ◌∷◌, any, Bool-cases, ◌⊎◌, inl, inr, ◌||◌}
use agpair.Models.{TaskRow, TaskAttemptRecord}
use agpair.Result.{Error, ok, err}
use agpair.Db.{Db, ◌>>=◌}
use agpair.Tasks.Select.{has_id, is_attempt}
use agpair.Tasks.Create.{insert_both, insert_task, insert_attempt, same_key}

module _ (r : TaskRow) (a : TaskAttemptRecord) (db : Db) where
  abbrev pub inserted : Db
  inserted = record db { tasks = db.tasks ++ r ∷ []; attempts = db.attempts ++ a ∷ [] }

  -- the three keys that must be new
  pub record IsFresh : Type 0 where
    pub id : any (has_id r.task_id) db.tasks ≡ false
    pub key : any (same_key r.repo_path r.client_idempotency_key) db.tasks ≡ false
    pub attempt : any (is_attempt a.task_id a.attempt_no) db.attempts ≡ false

  pub insert_both_fresh : IsFresh → insert_both r a db ≡ (ok tt, inserted)
  unfolding insert_both insert_task insert_attempt ◌>>=◌
  insert_both_fresh f = rw (f.id, f.key, f.attempt)

  pub insert_both_attempt :
      any (is_attempt a.task_id a.attempt_no) db.attempts ≡ true
      → insert_both r a db ≡ (err Error.integrity_error, db)
  unfolding insert_both insert_task insert_attempt ◌>>=◌
  insert_both_attempt h =
      elim (Bool-cases (
        any (has_id r.task_id) db.tasks
        || any (same_key r.repo_path r.client_idempotency_key) db.tasks)) [
          | inl taken ↦ rw taken
          | inr free ↦ rw (free, h)
        ]

  pub insert_both_cases :
      (IsFresh × (insert_both r a db ≡ (ok tt, inserted)))
      ⊎ (insert_both r a db ≡ (err Error.integrity_error, db))
  unfolding insert_both insert_task insert_attempt ◌>>=◌
  insert_both_cases = elim (Bool-cases (any (has_id r.task_id) db.tasks)) [
    | inl i ↦ inr (rw i)
    | inr i ↦ elim (Bool-cases (any (same_key r.repo_path r.client_idempotency_key) db.tasks)) [
      | inl k ↦ inr (rw (i, k))
      | inr k ↦ elim (Bool-cases (any (is_attempt a.task_id a.attempt_no) db.attempts)) [
        | inl n ↦ inr (rw (i, k, n))
        | inr n ↦ inl (record { id = i; key = k; attempt = n }, rw (i, k, n))
      ]
    ]
  ]
