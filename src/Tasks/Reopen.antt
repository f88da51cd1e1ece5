-- ===== src/Tasks/Reopen.antt =====
-- What the transaction of `apply_retry_dispatch` does to the tables.
use agpair.Base.{
  ℕ, String, true, false, ◌≡◌, refl, ap, inl, inr, some, if◌then◌else◌, ◌++◌, [], ◌∷◌, any,
  update_rows, Bool-cases,
}
use agpair.Base.Members.{find_row-update_rows, find_of_any}
use agpair.Models.{TaskRecord}
use agpair.Result.{Error, ok, err}
use agpair.Db.{Db, ◌>>=◌}
use agpair.Tasks.Select.{has_id, is_attempt, get_task, joined}
use agpair.Tasks.Create.{Opening, open_attempt, insert_attempt}
use agpair.Tasks.Mark.{update_task}
use agpair.Tasks.Retry.{reopen, reset_row}

module _ (i : String) (n k : ℕ) (o : Opening) (summary : String) (now : ℕ) (db : Db) where
  abbrev pub reopened : Db
  reopened = record db {
    tasks = update_rows (has_id i) (reset_row n k o summary now) db.tasks;
    attempts = db.attempts ++ open_attempt i n o now ∷ [];
  }

  pub reopen_lem :
      any (has_id i) db.tasks ≡ true
      → any (is_attempt i n) db.attempts ≡ false
      → reopen i n k o summary now db ≡ (ok tt, reopened)
  unfolding reopen update_task insert_attempt ◌>>=◌
  reopen_lem h f = rw (h, f)

  pub reopen_unknown :
      any (has_id i) db.tasks ≡ false
      → reopen i n k o summary now db ≡ (err (Error.task_not_found i), db)
  unfolding reopen update_task insert_attempt ◌>>=◌
  reopen_unknown h = rw h

  pub reopen_twice :
      any (has_id i) db.tasks ≡ true
      → any (is_attempt i n) db.attempts ≡ true
      → reopen i n k o summary now db ≡ (err Error.integrity_error, db)
  unfolding reopen update_task insert_attempt ◌>>=◌
  reopen_twice h f = rw (h, f)

  -- After the transaction the task can be read again.
  pub reopened_task :
      {u : Unit {0}}
      → (reopen i n k o summary now db).0 ≡ ok u
      → (t : TaskRecord) × (get_task i (reopen i n k o summary now db).1 ≡ some t)
  unfolding get_task
  reopened_task h = elim (Bool-cases (any (has_id i) db.tasks)) [
    | inr unknown ↦ absurd (cc (h, ap (λ r. r.0) (reopen_unknown unknown)))
    | inl known ↦ elim (Bool-cases (any (is_attempt i n) db.attempts)) [
      | inl old ↦ absurd (cc (h, ap (λ r. r.0) (reopen_twice known old)))
      | inr fresh ↦
          let (r, e) = find_of_any (has_id i) db.tasks known in
          let f = reset_row n k o summary now in
          (
            joined reopened.attempts (if has_id i r then f r else r),
            rw (reopen_lem known fresh)
                (rw (find_row-update_rows (has_id i) (has_id i) f db.tasks (λ a. refl), e)),
          )
    ]
  ]
