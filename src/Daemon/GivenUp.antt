-- ===== src/Daemon/GivenUp.antt =====
-- The tasks that are given up for want of progress.
use agpair.Base.{
  ℕ, String, true, Option, none, some, ◌≡◌, refl, sym, ap, ◌∙◌, subst, arith, find_row,
}
use agpair.Base.Members.{find_row-update_rows, find_row-holds, any_of_find}
use agpair.Models.{acked, stuck, TaskRow}
use agpair.Result.{Result, ok, err}
use agpair.Db.{Db, Exec, ◌>>=◌, pure, continue}
use agpair.Tasks.Select.{has_id, joined}
use agpair.Tasks.Mark.{mark_stuck, update_task, may_move}
use agpair.Tasks.Fields.{recommend_retry, clear_session_id, advised_row}
use agpair.Tasks.Consistent.{IsConsistent}
use agpair.Tasks.Found.{get_task-some, get_task-found, joined_fields}
use agpair.Tasks.Outcome.{mark_stuck-IsIn}
use agpair.Journal.{append}
use agpair.Daemon.Timeouts.{unless_missing}

-- the row of a task that was acknowledged, and of one that was given up
pub record IsAcked (i : String) (db : Db) : Type 0 where
  pub row : TaskRow
  pub found : find_row (has_id i) db.tasks ≡ some row
  pub phase : row.phase ≡ acked

pub record IsGivenUp (i : String) (db : Db) : Type 0 where
  pub row : TaskRow
  pub found : find_row (has_id i) db.tasks ≡ some row
  pub phase : row.phase ≡ stuck
  pub retry : row.retry_recommended ≡ true

module _ (i : String) (db : Db) where
  updated_row :
      (f : TaskRow → TaskRow) (r : TaskRow)
      → ((x : TaskRow) → (f x).task_id ≡ x.task_id)
      → find_row (has_id i) db.tasks ≡ some r
      → ((update_task i f db).0 ≡ ok tt)
        × (find_row (has_id i) (update_task i f db).1.tasks ≡ some (f r))
  unfolding update_task
  updated_row f r same e = rw (any_of_find (has_id i) db.tasks e) (
    refl,
    rw (
      find_row-update_rows (has_id i) (has_id i) f db.tasks (λ x. rw (same x)),
      e,
      find_row-holds (has_id i) db.tasks e,
    ),
  )

  recommend_retry-IsGivenUp :
      (k : Option ℕ) (now : ℕ) (r : TaskRow)
      → find_row (has_id i) db.tasks ≡ some r
      → r.phase ≡ stuck
      → ((recommend_retry i k now db).0 ≡ ok tt) × IsGivenUp i (recommend_retry i k now db).1
  unfolding recommend_retry
  recommend_retry-IsGivenUp k now r e p =
      let (returns, found) = updated_row (advised_row k now) r (λ x. refl) e in
      (returns, record { row = advised_row k now r; found = found; phase = p; retry = refl })

  pub clear_session_id-IsGivenUp :
      (now : ℕ)
      → IsGivenUp i db
      → ((clear_session_id i now db).0 ≡ ok tt) × IsGivenUp i (clear_session_id i now db).1
  unfolding clear_session_id
  clear_session_id-IsGivenUp now is =
      let f = λ (r : TaskRow). record r { antigravity_session_id = none; updated_at = now } in
      let (returns, found) = updated_row f is.row (λ x. refl) is.found in
      (returns, record { row = f is.row; found = found; phase = is.phase; retry = is.retry })

pub unless_missing-ok : (x : Result (Unit {0}) × Db) → x.0 ≡ ok tt → (unless_missing x).0 ≡ ok true
unless_missing-ok (ok u, db) e = refl
unless_missing-ok (err x, db) e = absurd (ground arith)

-- An action that returns, and leaves what is asked for.
pub record Leaves {ℓ} {A : Type ℓ} (P Q : Db → Type 0) (m : Exec A) : Type ℓ where
  pub at : (db : Db) → P db → ((a : A) × ((m db).0 ≡ ok a)) × Q (m db).1

pub Leaves-bind {ℓ κ} :
    {A : Type ℓ} {B : Type κ} {P R Q : Db → Type 0} (m : Exec A) (f : A → Exec B)
    → Leaves P R m
    → ((a : A) → Leaves R Q (f a))
    → Leaves P Q (m >>= f)
unfolding ◌>>=◌
Leaves-bind {Q = Q} m f h k = record {
  at = λ db p.
      let ((a, e), r) = h.at db p in
      let ((b, e'), q) = (k a).at (m db).1 r in
      (
        (b, ap (λ x. (continue x f (m db).1).0) e ∙ e'),
        subst Q (sym (ap (λ x. (continue x f (m db).1).1) e)) q,
      );
}

module _ (i : String) where
  pub record IsStuck (db : Db) : Type 0 where
    row : TaskRow
    found : find_row (has_id i) db.tasks ≡ some row
    phase : row.phase ≡ stuck

  pub record Awaits (db : Db) : Type 0 where
    pub consistent : IsConsistent db
    pub acked : IsAcked i db

  pub mark_stuck-Leaves : (why : String) (n m : ℕ) → Leaves Awaits IsStuck (mark_stuck i why n m)
  unfolding may_move
  mark_stuck-Leaves why n m = record {
    at = λ db p.
        let row = p.acked.row in
        let found = get_task-some i db p.acked.found in
        let moves : may_move (joined db.attempts row).phase stuck ≡ true =
          rw ((joined_fields db row).0 ∙ p.acked.phase) refl in
        let (returns, is) =
          mark_stuck-IsIn i (joined db.attempts row) db why n m p.consistent found moves in
        let (r, e, same) = get_task-found i (mark_stuck i why n m db).1 is.task_found in
        (
          (tt, returns),
          record {
            row = r;
            found = e;
            phase =
                sym (joined_fields (mark_stuck i why n m db).1 r).0
                ∙ ap (λ x. x.phase) (sym same)
                ∙ is.task_phase;
          },
        );
  }

  pub recommend_retry-Leaves :
      (k : Option ℕ) (n : ℕ) → Leaves IsStuck (IsGivenUp i) (recommend_retry i k n)
  recommend_retry-Leaves k n = record {
    at = λ db p.
        let (returns, is) = recommend_retry-IsGivenUp i db k n p.row p.found p.phase in
        ((tt, returns), is);
  }

  pub append-Leaves :
      (j s e b c : String) (n : ℕ) → Leaves (IsGivenUp i) (IsGivenUp i) (append j s e b c n)
  unfolding append
  append-Leaves j s e b c n = record {
    at = λ db p.
        ((tt, refl), record { row = p.row; found = p.found; phase = p.phase; retry = p.retry });
  }

  pub pure-Leaves {ℓ} : {A : Type ℓ} (a : A) → Leaves (IsGivenUp i) (IsGivenUp i) (pure a)
  pure-Leaves a = record { at = λ db p. ((a, refl), p) }
