-- ===== src/Daemon/Ends.antt =====
-- How giving up a task ends: with the task given up, even where the cleanup of its session raises.
use agpair.Base.{
  ℕ, String, Bool, true, false, ◌&&◌, Option, none, some, ◌≡◌, ◌⊎◌, inl, inr, refl, sym, subst,
  arith, truthy,
}
use agpair.Base.Chain.{if-rule}
use agpair.Workflows.Control.{is_local_cli_backend}
use agpair.Models.{TaskRecord}
use agpair.Result.{Error, Result, ok, err}
use agpair.Db.{Db, Exec, ◌>>=◌, continue}
use agpair.Tasks.Fields.{clear_session_id}
use agpair.Daemon.Timeouts.{
  session_of, cleanup_local_cli_session, clear_cleaned, give_up, CleanupOutcome, raised, left, gone,
  after_cleanup,
}
use agpair.Daemon.Kept.{unless_missing-state}
use agpair.Daemon.GivenUp.{
  IsGivenUp, Awaits, Leaves, Leaves-bind, mark_stuck-Leaves, recommend_retry-Leaves, append-Leaves,
  pure-Leaves, unless_missing-ok, clear_session_id-IsGivenUp,
}

-- An action that returns where `b` is false, may raise where it is true, and either way leaves what is
-- asked for.
abbrev pub Returned {ℓ} : {A : Type ℓ} → Bool → Result A → Type ℓ
Returned {A = A} b r = ((a : A) × (r ≡ ok a)) ⊎ ((e : Error) × (b ≡ true) × (r ≡ err e))

pub record Ends {ℓ} {A : Type ℓ} (b : Bool) (P Q : Db → Type 0) (m : Exec A) : Type ℓ where
  pub at : (db : Db) → P db → Returned b (m db).0 × Q (m db).1

Ends-of_Leaves {ℓ} :
    {A : Type ℓ} {b : Bool} {P Q : Db → Type 0} {m : Exec A} → Leaves P Q m → Ends b P Q m
Ends-of_Leaves l = record { at = λ db p. let (r, q) = l.at db p in (inl r, q) }

-- Where the first action raises, it has left already what is asked for.
Ends-bind {ℓ κ} :
    {A : Type ℓ} {B : Type κ} {b : Bool} {P Q : Db → Type 0} (m : Exec A) (f : A → Exec B)
    → Ends b P Q m
    → ((a : A) → Ends b Q Q (f a))
    → Ends b P Q (m >>= f)
unfolding ◌>>=◌
Ends-bind {b = b} {P = P} {Q = Q} m f h k = record { at = λ db p. both db (h.at db p) }
  where
    both :
        (db : Db)
        → Returned b (m db).0 × Q (m db).1
        → Returned b (continue (m db).0 f (m db).1).0 × Q (continue (m db).0 f (m db).1).1
    both db (inl (a, e), q) =
        subst (λ r. Returned b (continue r f (m db).1).0 × Q (continue r f (m db).1).1) (sym e)
          ((k a).at (m db).1 q)
    both db (inr (x, y, e), q) =
        subst (λ r. Returned b (continue r f (m db).1).0 × Q (continue r f (m db).1).1) (sym e)
          (inr (x, y, refl), q)

Ends-after {ℓ κ} :
    {A : Type ℓ} {B : Type κ} {b : Bool} {P R Q : Db → Type 0} (m : Exec A) (f : A → Exec B)
    → Leaves P R m
    → ((a : A) → Ends b R Q (f a))
    → Ends b P Q (m >>= f)
unfolding ◌>>=◌
Ends-after {b = b} {Q = Q} m f h k = record {
  at = λ db p.
      let ((a, e), r) = h.at db p in
      subst (λ x. Returned b (continue x f (m db).1).0 × Q (continue x f (m db).1).1) (sym e)
        ((k a).at (m db).1 r);
}

abbrev is_raised : CleanupOutcome → Bool
is_raised (raised text) = true
is_raised left = false
is_raised gone = false

abbrev raises_at : (String → CleanupOutcome) → Option String → Bool
raises_at cleanup none = false
raises_at cleanup (some session_id) = is_raised (cleanup session_id)

-- Whether a local executor raises when it cleans up the session of a task.
abbrev pub cleanup_raises : (String → CleanupOutcome) → TaskRecord → Bool
cleanup_raises cleanup task =
    truthy (session_of task)
    && is_local_cli_backend task.executor_backend
    && raises_at cleanup (session_of task)

module _ (cleanup : String → CleanupOutcome) (now : ℕ) where
  clear_cleaned-Ends :
      (t : TaskRecord) (o : Option String)
      → Ends
          (raises_at cleanup o)
          (IsGivenUp t.task_id)
          (IsGivenUp t.task_id)
          (clear_cleaned cleanup now t o)
  clear_cleaned-Ends t none = record { at = λ db p. (inl (false, refl), p) }
  clear_cleaned-Ends t (some s) = record { at = λ db p. after (cleanup s) db p }
    where
      after :
          (o : CleanupOutcome) (db : Db)
          → IsGivenUp t.task_id db
          → Returned (is_raised o) (after_cleanup now t o db).0
            × IsGivenUp t.task_id (after_cleanup now t o db).1
      after (raised text) db p = (inr (Error.executor_error text, refl, refl), p)
      after left db p = (inl (false, refl), p)
      after gone db p =
          let (returns, is) = clear_session_id-IsGivenUp t.task_id db now p in
          (
            inl (true, unless_missing-ok (clear_session_id t.task_id now db) returns),
            subst (IsGivenUp t.task_id)
                (sym (unless_missing-state (clear_session_id t.task_id now db))) is,
          )

  weaken :
      {b c : Bool} {i : String} {m : Exec Bool}
      → (b ≡ true → c ≡ true)
      → Ends b (IsGivenUp i) (IsGivenUp i) m
      → Ends c (IsGivenUp i) (IsGivenUp i) m
  weaken k h = record {
    at = λ db p.
        let (r, q) = h.at db p in
        (elim r [ inl returned ↦ inl returned | inr (e, y, same) ↦ inr (e, k y, same) ], q);
  }

  cleanup-Ends :
      (t : TaskRecord)
      → Ends
          (cleanup_raises cleanup t)
          (IsGivenUp t.task_id)
          (IsGivenUp t.task_id)
          (cleanup_local_cli_session cleanup now t)
  unfolding cleanup_local_cli_session
  cleanup-Ends t =
      if-rule (Ends (cleanup_raises cleanup t) (IsGivenUp t.task_id) (IsGivenUp t.task_id))
        (truthy (session_of t) && is_local_cli_backend t.executor_backend) _ _
        (λ y. weaken (λ z. ground arith) (clear_cleaned-Ends t (session_of t)))
        (λ _. Ends-of_Leaves (pure-Leaves t.task_id false))

  pub give_up-Ends :
      (why event message : String) (t : TaskRecord)
      → Ends
          (cleanup_raises cleanup t)
          (Awaits t.task_id)
          (IsGivenUp t.task_id)
          (give_up cleanup now why event message t)
  unfolding give_up
  give_up-Ends why event message t =
      let i = t.task_id in
      Ends-after _ _
        (Leaves-bind _ _
          (Leaves-bind _ _ (mark_stuck-Leaves i why now now)
            (λ _. recommend_retry-Leaves i (some t.retry_count) now))
          (λ _. append-Leaves i i "daemon" event message "normal" now))
        (λ _.
          if-rule (Ends {A = Unit {0}} (cleanup_raises cleanup t) (IsGivenUp i) (IsGivenUp i))
            (truthy (session_of t)) _ _
            (λ _. Ends-bind _ _ (cleanup-Ends t) (λ _. Ends-of_Leaves (pure-Leaves i tt)))
            (λ _. Ends-of_Leaves (pure-Leaves i tt)))
