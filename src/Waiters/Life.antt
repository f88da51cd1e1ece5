-- ===== src/Waiters/Life.antt =====
-- storage/waiters.py: one waiter from its start to its end.
use agpair.Base.{
  eq_iff, subst, find_row, none, refl, ℕ, String, true, false, ◌≡◌, ap, inl, inr, List, [], ◌∷◌,
  ◌++◌, ◌||◌, none, some, any, update_rows, Bool-cases, eq_refl, arith,
}
use agpair.Base.Members.{any_of_find, find_row-append, find_row-none}
use agpair.Waiters.Active.{OneActive, any-weaken}
use agpair.Models.{WaiterRecord}
use agpair.Result.{Error, ok, err}
use agpair.Db.{Db}
use agpair.Waiters.{
  waits_for, has_waiter_id, new_waiter, start_waiter, finalize, finalized, get_active_waiter,
}

module _ (i t c : String) (now : ℕ) (db : Db) where
  abbrev w : WaiterRecord
  w = new_waiter i t c now

  abbrev started : Db
  started = record db { waiters = db.waiters ++ w ∷ [] }

  start_fresh :
      any (has_waiter_id i) db.waiters ≡ false
      → any (waits_for t) db.waiters ≡ false
      → start_waiter i t c now db ≡ (ok w, started)
  unfolding start_waiter
  start_fresh n m = rw (n, m)

  start_refused :
      (any (has_waiter_id i) db.waiters || any (waits_for t) db.waiters) ≡ true
      → start_waiter i t c now db ≡ (err Error.integrity_error, db)
  unfolding start_waiter
  start_refused h = rw h

  get_started : any (waits_for t) db.waiters ≡ false → get_active_waiter t started ≡ some w
  unfolding get_active_waiter
  get_started m = rw (
    find_row-append (waits_for t) db.waiters (w ∷ []),
    find_row-none (waits_for t) db.waiters m,
    eq_refl t,
  )

waits_none :
    (t : String) (ws : List WaiterRecord)
    → find_row (waits_for t) ws ≡ none
    → any (waits_for t) ws ≡ false
waits_none t [] e = refl
waits_none t (v ∷ ws) e = elim (Bool-cases (waits_for t v)) [
  | inl y ↦ absurd (ground arith)
  | inr n ↦ rw n (waits_none t ws (rw n at e))
]

-- While a task has an active waiter, no other starts.
start_waiter-active :
    (i t c : String) (now : ℕ) (db : Db) (u : WaiterRecord)
    → get_active_waiter t db ≡ some u
    → start_waiter i t c now db ≡ (err Error.integrity_error, db)
unfolding start_waiter get_active_waiter
start_waiter-active i t c now db u e = rw (any_of_find (waits_for t) db.waiters e) (ground arith)

waits_for-finalized :
    (t outcome : String) (later : ℕ) (v : WaiterRecord)
    → waits_for t v ≡ false
    → waits_for t (finalized outcome later v) ≡ false
waits_for-finalized t outcome later v n = ground arith

-- Where a task has one active waiter at most, none is left once it is finalized.
any-finalized :
    (t outcome : String) (later : ℕ) (ws : List WaiterRecord) (u : WaiterRecord)
    → OneActive ws
    → find_row (waits_for t) ws ≡ some u
    → any (waits_for t) (update_rows (has_waiter_id u.waiter_id) (finalized outcome later) ws)
      ≡ false
any-finalized t outcome later [] u one e = refl
any-finalized t outcome later (v ∷ ws) u one e = elim (Bool-cases (waits_for t v)) [
  | inl y ↦
      let same : v ≡ u = cc (rw y at e) in
      let task : v.task_id ≡ t = (eq_iff v.task_id t).0 (ground arith) in
      let rest : any (waits_for t) ws ≡ false = rw task at (one.0 (ground arith)) in
      let kept =
        any-weaken (waits_for t) (has_waiter_id v.waiter_id) (finalized outcome later) ws
          (waits_for-finalized t outcome later) rest in
      subst
        (λ (x : WaiterRecord).
          any (waits_for t)
            (update_rows (has_waiter_id x.waiter_id) (finalized outcome later) (v ∷ ws))
          ≡ false)
        same (rw (eq_refl v.waiter_id) (ground (arith, kept)))
  | inr n ↦ ground (
    arith,
    waits_for-finalized t outcome later v n,
    any-finalized t outcome later ws u one.1 (rw n at e),
  )
]

-- A waiter that start_waiter returns is the active waiter of its task; in any database with one
-- active waiter of a task at most, as long as the task has an active one no other can be started
-- for it, which raises and writes nothing, and once that one is finalized, with any outcome, the
-- task has no active waiter.
pub start_waiter-life :
    (i t c : String) (now : ℕ) (db after : Db) (i' c' outcome : String) (now' later : ℕ)
    (v u : WaiterRecord)
    → (start_waiter i t c now db).0 ≡ ok v
    → OneActive after.waiters
    → get_active_waiter t after ≡ some u
    → (get_active_waiter t (start_waiter i t c now db).1 ≡ some v)
      × (start_waiter i' t c' now' after ≡ (err Error.integrity_error, after))
      × (get_active_waiter t (finalize u.waiter_id outcome later after).1 ≡ none)
unfolding get_active_waiter finalize
start_waiter-life i t c now db after i' c' outcome now' later v u h one active = (
  elim (Bool-cases (any (has_waiter_id i) db.waiters || any (waits_for t) db.waiters)) [
    | inl taken ↦ absurd (cc (h, ap (λ r. r.0) (start_refused i t c now db taken)))
    | inr free ↦
        let m : any (waits_for t) db.waiters ≡ false = ground arith in
        let e = start_fresh i t c now db (ground arith) m in
        let same : v ≡ new_waiter i t c now = cc (h, ap (λ r. r.0) e) in
        rw (e, same) (get_started i t c now db m)
  ],
  start_waiter-active i' t c' now' after u active,
  find_row-none (waits_for t) _ (any-finalized t outcome later after.waiters u one active),
)
