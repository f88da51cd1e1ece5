-- ===== src/Tasks/Found.antt =====
-- What `get_task` returns, in terms of the row that it finds.
use agpair.Base.{String, ◌≡◌, refl, Option, none, some, find_row, Option-cases, inl, inr, String}
use agpair.Models.{TaskRow, TaskRecord}
use agpair.Result.{Error, err}
use agpair.Db.{Db, Exec, ◌>>=◌}
use agpair.Tasks.Select.{has_id, get_task, joined, task_from_row, prepare_retry}

pub get_task-found :
    (i : String) (db : Db) {t : TaskRecord}
    → get_task i db ≡ some t
    → (r : TaskRow) × (find_row (has_id i) db.tasks ≡ some r) × (t ≡ joined db.attempts r)
unfolding get_task
get_task-found i db h = elim (Option-cases (find_row (has_id i) db.tasks)) [
  | inl missing ↦ absurd (none_some (rw missing at h))
  | inr (r, e) ↦ (r, e, some_some (rw e at h))
]
  where
    none_some : {t : TaskRecord} → ◌≡◌ {A = Option TaskRecord} none (some t) → ⊥
    none_some e = cc

    some_some : {s t : TaskRecord} → some s ≡ some t → t ≡ s
    some_some e = cc

pub get_task-some :
    (i : String) (db : Db) {r : TaskRow}
    → find_row (has_id i) db.tasks ≡ some r
    → get_task i db ≡ some (joined db.attempts r)
unfolding get_task
get_task-some i db h = rw h

pub get_task-none :
    (i : String) (db : Db) → find_row (has_id i) db.tasks ≡ none → get_task i db ≡ none
unfolding get_task
get_task-none i db h = rw h

-- The record has the row's phase and counters.
pub joined_fields :
    (db : Db) (r : TaskRow)
    → let t = joined db.attempts r in
      (t.phase ≡ r.phase)
      × (t.attempt_no ≡ r.attempt_no)
      × (t.retry_count ≡ r.retry_count)
      × (t.task_id ≡ r.task_id)
unfolding joined task_from_row
joined_fields db r = (refl, refl, refl, refl)

-- An action that begins by reading the task does nothing if there is none, and else goes on with it.
pub prepare_retry_bind {ℓ} :
    {B : Type ℓ} (i : String) (f : TaskRecord → Exec B) (db : Db)
    → get_task i db ≡ none
    → (prepare_retry i >>= f) db ≡ (err (Error.task_not_found i), db)
unfolding prepare_retry ◌>>=◌
prepare_retry_bind i f db h = rw h

pub prepare_retry_bind_some {ℓ} :
    {B : Type ℓ} (i : String) (f : TaskRecord → Exec B) (db : Db) {t : TaskRecord}
    → get_task i db ≡ some t
    → (prepare_retry i >>= f) db ≡ f t db
unfolding prepare_retry ◌>>=◌
prepare_retry_bind_some i f db h = rw h
