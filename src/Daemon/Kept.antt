-- ===== src/Daemon/Kept.antt =====
-- What the loop over the tasks without progress keeps, whether it returns or raises.
use agpair.Base.{
  ℕ, suc, String, Bool, false, ◌&&◌, List, [], ◌∷◌, Option, none, some, Memᴰ, ◌≡◌, refl, sym, subst,
  truthy, if◌then◌else◌, ◌==◌,
}
use agpair.Base.Chain.{if-rule}
use agpair.Workflows.Control.{is_local_cli_backend}
use agpair.Models.{TaskRecord}
use agpair.Result.{Error, Result, ok, err}
use agpair.Db.{Db, Exec, ◌>>◌, pure}
use agpair.Db.Rules.{Keeps, Keeps-bind, Keeps-of_Reads, Reads-pure}
use agpair.Tasks.Mark.{mark_stuck}
use agpair.Tasks.Fields.{recommend_retry, clear_session_id}
use agpair.Tasks.Calls.{Call, call}
use agpair.Tasks.Frame.{Same, call-Keeps-Same}
use agpair.Tasks.Consistent.{IsConsistent}
use agpair.Tasks.Preserved.{call-Keeps-IsConsistent}
use agpair.Journal.{append}
use agpair.Daemon.Timeouts.{
  for_each, session_of, cleanup_local_cli_session, clear_cleaned, unless_missing, give_up,
  CleanupOutcome, raised, left, gone, after_cleanup,
}

-- What `give_up` keeps: what its calls of the repository, and entries in the journal, keep.
pub record Kept (P : Db → Type 0) (i : String) : Type 0 where
  pub journal : (s e b c : String) (n : ℕ) → Keeps P (append i s e b c n)
  pub marked : (why : String) (n m : ℕ) → Keeps P (mark_stuck i why n m)
  pub advised : (k : Option ℕ) (n : ℕ) → Keeps P (recommend_retry i k n)
  pub cleared : (n : ℕ) → Keeps P (clear_session_id i n)

pub IsConsistent-Kept : (i : String) → Kept IsConsistent i
unfolding call append
IsConsistent-Kept i = record {
  journal = λ s e b c n. record {
    at = λ db h. record {
      unique = h.unique;
      current_exists = h.current_exists;
      latest = h.latest;
      first_exists = h.first_exists;
    };
  };
  marked = λ why n m. call-Keeps-IsConsistent (Call.mark_stuck i why n m);
  advised = λ k n. call-Keeps-IsConsistent (Call.recommend_retry i k n);
  cleared = λ n. call-Keeps-IsConsistent (Call.clear_session_id i n);
}

pub Same-Kept : (j i : String) (db : Db) → (i == j) ≡ false → Kept (Same j db) i
unfolding call append
Same-Kept j i db other = record {
  journal = λ s e b c n. record {
    at = λ d h. record { row = h.row; attempts = h.attempts; attempt = h.attempt };
  };
  marked = λ why n m. call-Keeps-Same j db (Call.mark_stuck i why n m) other;
  advised = λ k n. call-Keeps-Same j db (Call.recommend_retry i k n) other;
  cleared = λ n. call-Keeps-Same j db (Call.clear_session_id i n) other;
}

pub unless_missing-state : (x : Result (Unit {0}) × Db) → (unless_missing x).1 ≡ x.1
unless_missing-state (ok u, db) = refl
unless_missing-state (err (Error.task_not_found i), db) = refl
unless_missing-state (err _, db) = refl

module _ (cleanup : String → CleanupOutcome) (now : ℕ) where
  clear_cleaned-Keeps :
      (P : Db → Type 0) (t : TaskRecord) (o : Option String)
      → Kept P t.task_id
      → Keeps P (clear_cleaned cleanup now t o)
  clear_cleaned-Keeps P t none k = record { at = λ db h. h }
  clear_cleaned-Keeps P t (some s) k = record {
    at = λ db h. after (cleanup s) db h (
        subst P (sym (unless_missing-state (clear_session_id t.task_id now db)))
          ((k.cleared now).at db h));
  }
    where
      after :
          (o : CleanupOutcome) (db : Db)
          → P db
          → P (unless_missing (clear_session_id t.task_id now db)).1
          → P (after_cleanup now t o db).1
      after (raised text) db h c = h
      after left db h c = h
      after gone db h c = c

  cleanup-Keeps :
      (P : Db → Type 0) (t : TaskRecord)
      → Kept P t.task_id
      → Keeps P (cleanup_local_cli_session cleanup now t)
  unfolding cleanup_local_cli_session
  cleanup-Keeps P t k =
      if-rule (Keeps P) (truthy (session_of t) && is_local_cli_backend t.executor_backend) _ _
        (λ _. clear_cleaned-Keeps P t (session_of t) k) (λ _. Keeps-of_Reads _ (Reads-pure false))

  end-Keeps :
      (P : Db → Type 0) (t : TaskRecord)
      → Kept P t.task_id
      → Keeps {A = Unit {0}} P (
          if truthy (session_of t)
          then (cleanup_local_cli_session cleanup now t >> pure tt)
          else pure tt)
  end-Keeps P t k =
      if-rule (Keeps {A = Unit {0}} P) (truthy (session_of t)) _ _
        (λ _. Keeps-bind _ _ (cleanup-Keeps P t k) (λ _. Keeps-of_Reads _ (Reads-pure tt)))
        (λ _. Keeps-of_Reads _ (Reads-pure tt))

  pub give_up-Keeps :
      (P : Db → Type 0) (why event message : String) (t : TaskRecord)
      → Kept P t.task_id
      → Keeps P (give_up cleanup now why event message t)
  unfolding give_up
  give_up-Keeps P why event message t k =
      Keeps-bind _ _
        (Keeps-bind _ _
          (Keeps-bind _ _ (k.marked why now now) (λ _. k.advised (some t.retry_count) now))
          (λ _. k.journal "daemon" event message "normal" now))
        (λ _. end-Keeps P t k)

  pub for_each-Keeps :
      (P : Db → Type 0) (skipped : TaskRecord → Bool) (body : TaskRecord → Exec (Unit {0}))
      (ts : List TaskRecord) (count : ℕ)
      → ((t : TaskRecord) → Memᴰ t ts → skipped t ≡ false → Keeps P (body t))
      → Keeps P (for_each skipped body ts count)
  unfolding for_each
  for_each-Keeps P skipped body [] count k = Keeps-of_Reads _ (Reads-pure count)
  for_each-Keeps P skipped body (t ∷ ts) count k =
      Keeps-bind _ _
        (if-rule (Keeps P) (skipped t) _ _ (λ _. Keeps-of_Reads _ (Reads-pure count))
          (λ n.
            Keeps-bind _ _ (k t (Memᴰ.head refl) n)
              (λ _. Keeps-of_Reads _ (Reads-pure (suc count)))))
        (λ c. for_each-Keeps P skipped body ts c (λ u m. k u (Memᴰ.tail m)))
