-- ===== src/Daemon/Stuck.antt =====
-- What `mark_stuck_tasks` does to the tasks that are due, and to the others.
use agpair.Base.{
  ℕ, suc, ◌-◌, String, Bool, true, false, not, ◌&&◌, List, [], ◌∷◌, Memᴰ, ◌≡◌, ◌⊎◌, refl, sym, ap,
  ◌∙◌, subst, arith, any, find_row, ◌==◌, Bool-cases, inl, inr,
}
use agpair.Base.Append.{differ_sym}
use agpair.Models.{TaskRecord}
use agpair.Result.{Error, Result, ok, err}
use agpair.Db.{Db, Exec, ◌>>=◌, pure, continue}
use agpair.Tasks.Select.{has_id, get_task}
use agpair.Tasks.Queries.{list_stale_acked_tasks}
use agpair.Tasks.Frame.{Same, get_task-Same}
use agpair.Tasks.Consistent.{IsConsistent}
use agpair.Daemon.Timeouts.{CleanupOutcome, for_each, give_up, has_own_budget, mark_stuck_tasks}
use agpair.Daemon.GivenUp.{IsGivenUp}
use agpair.Daemon.Kept.{IsConsistent-Kept, Same-Kept, give_up-Keeps, for_each-Keeps}
use agpair.Daemon.Ends.{Returned, cleanup_raises, give_up-Ends}
use agpair.Daemon.Due.{Ahead, stale-Ahead}

-- what the loop leaves
record Done (skipped : TaskRecord → Bool) (ts : List TaskRecord) (before after : Db) : Type 0 where
  given_up : (t : TaskRecord) → Memᴰ t ts → skipped t ≡ false → IsGivenUp t.task_id after
  rest :
      (j : String)
      → any (λ (u : TaskRecord). u.task_id == j) ts ≡ false
      → find_row (has_id j) after.tasks ≡ find_row (has_id j) before.tasks

Same-refl : (j : String) (db : Db) → Same j db db
Same-refl j db = record { row = refl; attempts = refl; attempt = λ n. refl }

apart_ids :
    (t : TaskRecord) (ts : List TaskRecord) (u : TaskRecord)
    → any (λ (v : TaskRecord). v.task_id == t.task_id) ts ≡ false
    → Memᴰ u ts
    → (t.task_id == u.task_id) ≡ false
apart_ids t [] u h m = elim m [ ]
apart_ids t (v ∷ ts) u h (Memᴰ.head e) = rw e (differ_sym v.task_id t.task_id (ground arith))
apart_ids t (v ∷ ts) u h (Memᴰ.tail m) = apart_ids t ts u (ground arith) m

module _ (cleanup : String → CleanupOutcome) (now : ℕ) (why event message : String)
    (skipped : TaskRecord → Bool) where
  abbrev body : TaskRecord → Exec (Unit {0})
  body = give_up cleanup now why event message

  -- One turn of the loop that does not skip.
  turn :
      (t : TaskRecord) (ts : List TaskRecord) (count : ℕ) (db : Db)
      → skipped t ≡ false
      → (body t db).0 ≡ ok tt
      → for_each skipped body (t ∷ ts) count db ≡ for_each skipped body ts (suc count) (body t db).1
  unfolding for_each ◌>>=◌
  turn t ts count db n e =
      rw n (ap (λ r. after (continue r (λ _. pure (suc count)) (body t db).1)) e)
    where
      after : Result ℕ × Db → Result ℕ × Db
      after x = continue x.0 (for_each skipped body ts) x.1

  turn_raised :
      (t : TaskRecord) (ts : List TaskRecord) (count : ℕ) (db : Db) (e : Error)
      → skipped t ≡ false
      → (body t db).0 ≡ err e
      → for_each skipped body (t ∷ ts) count db ≡ (err e, (body t db).1)
  unfolding for_each ◌>>=◌
  turn_raised t ts count db x n e =
      rw n (ap (λ r. after (continue r (λ _. pure (suc count)) (body t db).1)) e)
    where
      after : Result ℕ × Db → Result ℕ × Db
      after x = continue x.0 (for_each skipped body ts) x.1

  pass :
      (t : TaskRecord) (ts : List TaskRecord) (count : ℕ) (db : Db)
      → skipped t ≡ true
      → for_each skipped body (t ∷ ts) count db ≡ for_each skipped body ts count db
  unfolding for_each ◌>>=◌
  pass t ts count db y = rw y refl

  row_kept :
      (t : TaskRecord) (j : String) (db : Db)
      → (t.task_id == j) ≡ false
      → find_row (has_id j) (body t db).1.tasks ≡ find_row (has_id j) db.tasks
  row_kept t j db other =
      ((give_up-Keeps cleanup now (Same j db) why event message t
          (Same-Kept j t.task_id db other)).at
        db (Same-refl j db)).row

  -- what is ahead after a turn
  Ahead-after :
      (t : TaskRecord) (ts : List TaskRecord) (db : Db)
      → Ahead skipped (t ∷ ts) db
      → Ahead skipped ts (body t db).1
  Ahead-after t ts db a = record {
    consistent =
        (give_up-Keeps cleanup now IsConsistent why event message t
            (IsConsistent-Kept t.task_id)).at
          db a.consistent;
    distinct = a.distinct.1;
    acked = λ u m.
        let is = a.acked u (Memᴰ.tail m) in
        record {
          row = is.row;
          found = row_kept t u.task_id db (apart_ids t ts u a.distinct.0 m) ∙ is.found;
          phase = is.phase;
        };
  }

  -- The cleanup of a task raised, and the loop ended there; the task itself is given up.
  record Aborted (ts : List TaskRecord) (x : Result ℕ × Db) : Type 0 where
    error : Error
    raised : x.0 ≡ err error
    task : TaskRecord
    due : Memᴰ task ts
    counted : skipped task ≡ false
    fails : cleanup_raises cleanup task ≡ true
    given_up : IsGivenUp task.task_id x.1

  abbrev ResultOf : List TaskRecord → Db → Result ℕ × Db → Type 0
  ResultOf ts db x = (((n : ℕ) × (x.0 ≡ ok n)) × Done skipped ts db x.1) ⊎ Aborted ts x

  later :
      (t : TaskRecord) (ts : List TaskRecord) (x : Result ℕ × Db)
      → Aborted ts x
      → Aborted (t ∷ ts) x
  later t ts x a = record {
    error = a.error;
    raised = a.raised;
    task = a.task;
    due = Memᴰ.tail a.due;
    counted = a.counted;
    fails = a.fails;
    given_up = a.given_up;
  }

  skip_Done :
      (t : TaskRecord) (ts : List TaskRecord) (db after : Db)
      → skipped t ≡ true
      → Done skipped ts db after
      → Done skipped (t ∷ ts) db after
  skip_Done t ts db after y done = record {
    given_up = given;
    rest = λ j h. done.rest j (ground arith);
  }
    where
      given : (u : TaskRecord) → Memᴰ u (t ∷ ts) → skipped u ≡ false → IsGivenUp u.task_id after
      given u (Memᴰ.head e) n = absurd (ground (arith, ap skipped e))
      given u (Memᴰ.tail m) n = done.given_up u m n

  turn_Done :
      (t : TaskRecord) (ts : List TaskRecord) (db after : Db)
      → any (λ (u : TaskRecord). u.task_id == t.task_id) ts ≡ false
      → IsGivenUp t.task_id (body t db).1
      → Done skipped ts (body t db).1 after
      → Done skipped (t ∷ ts) db after
  turn_Done t ts db after distinct is done = record {
    given_up = given;
    rest = λ j h. done.rest j (ground arith) ∙ row_kept t j db (ground arith);
  }
    where
      given : (u : TaskRecord) → Memᴰ u (t ∷ ts) → skipped u ≡ false → IsGivenUp u.task_id after
      given u (Memᴰ.head e) n =
          subst (λ (v : TaskRecord). IsGivenUp v.task_id after) (sym e)
            (record {
              row = is.row;
              found = done.rest t.task_id distinct ∙ is.found;
              phase = is.phase;
              retry = is.retry;
            })
      given u (Memᴰ.tail m) n = done.given_up u m n

  after_turn :
      (t : TaskRecord) (ts : List TaskRecord) (count : ℕ) (db : Db)
      → skipped t ≡ false
      → any (λ (u : TaskRecord). u.task_id == t.task_id) ts ≡ false
      → Returned (cleanup_raises cleanup t) (body t db).0
      → IsGivenUp t.task_id (body t db).1
      → ResultOf ts (body t db).1 (for_each skipped body ts (suc count) (body t db).1)
      → ResultOf (t ∷ ts) db (for_each skipped body (t ∷ ts) count db)
  after_turn t ts count db n distinct (inl (u, returned)) is rest =
      subst (ResultOf (t ∷ ts) db) (sym (turn t ts count db n returned)) (elim rest [
        | inl (returns, done) ↦ inl (returns, turn_Done t ts db _ distinct is done)
        | inr aborted ↦ inr (later t ts _ aborted)
      ])
  after_turn t ts count db n distinct (inr (e, fails, threw)) is rest =
      subst (ResultOf (t ∷ ts) db) (sym (turn_raised t ts count db e n threw)) (
        inr (record {
          error = e;
          raised = refl;
          task = t;
          due = Memᴰ.head refl;
          counted = n;
          fails = fails;
          given_up = is;
        }))

  loop :
      (ts : List TaskRecord) (count : ℕ) (db : Db)
      → Ahead skipped ts db
      → ResultOf ts db (for_each skipped body ts count db)
  unfolding for_each
  loop [] count db a =
      inl ((count, refl), record { given_up = λ t m n. elim m [ ]; rest = λ j h. refl })
  loop (t ∷ ts) count db a = elim (Bool-cases (skipped t)) [
    | inl y ↦
        let ahead : Ahead skipped ts db = record {
          consistent = a.consistent;
          distinct = a.distinct.1;
          acked = λ u m. a.acked u (Memᴰ.tail m);
        } in
        subst (ResultOf (t ∷ ts) db) (sym (pass t ts count db y)) (elim (loop ts count db ahead) [
          | inl (returns, done) ↦ inl (returns, skip_Done t ts db _ y done)
          | inr aborted ↦ inr (later t ts _ aborted)
        ])
    | inr n ↦
        let (returned, is) =
          (give_up-Ends cleanup now why event message t).at db
            (record { consistent = a.consistent; acked = a.acked t (Memᴰ.head refl) }) in
        after_turn t ts count db n a.distinct.0 returned is
          (loop ts (suc count) (body t db).1 (Ahead-after t ts db a))
  ]

none_such :
    (q : TaskRecord → Bool) (ts : List TaskRecord) {t : TaskRecord}
    → Memᴰ t ts
    → any q ts ≡ false
    → q t ≡ false
none_such q [] m h = elim m [ ]
none_such q (u ∷ ts) (Memᴰ.head e) h = ap q e ∙ ground arith
none_such q (u ∷ ts) (Memᴰ.tail m) h = none_such q ts m (ground arith)

module _ (cleanup : String → CleanupOutcome) (now current timeout_seconds : ℕ) (skip : List String)
    (db : Db) where
  stuck_loop :
      IsConsistent db
      → ResultOf cleanup now "no progress before timeout" "stuck" "retry recommended after timeout"
          (has_own_budget cleanup now skip)
          (list_stale_acked_tasks (current - timeout_seconds) db)
          db
          (mark_stuck_tasks cleanup now current timeout_seconds skip db)
  unfolding mark_stuck_tasks ◌>>=◌
  stuck_loop c =
      loop cleanup now "no progress before timeout" "stuck" "retry recommended after timeout"
        (has_own_budget cleanup now skip) (list_stale_acked_tasks (current - timeout_seconds) db) 0
        db (stale-Ahead (has_own_budget cleanup now skip) (current - timeout_seconds) db c)

  -- From consistent tables with a stale acked task that is not skipped and has no budget of its
  -- own, either mark_stuck_tasks returns, and that task is stuck with a retry recommended then; or
  -- it raises, and then the cleanup of a session raised for a task of that sort, which is itself
  -- stuck with a retry recommended.
  pub mark_stuck_tasks-gives_up :
      (t : TaskRecord)
      → IsConsistent db
      → Memᴰ t (list_stale_acked_tasks (current - timeout_seconds) db)
      → has_own_budget cleanup now skip t ≡ false
      → (((n : ℕ) × ((mark_stuck_tasks cleanup now current timeout_seconds skip db).0 ≡ ok n))
          × IsGivenUp t.task_id (mark_stuck_tasks cleanup now current timeout_seconds skip db).1)
        ⊎ (((e : Error) × ((mark_stuck_tasks cleanup now current timeout_seconds skip db).0
                ≡ err e))
            × ((u : TaskRecord) × Memᴰ u (list_stale_acked_tasks (current - timeout_seconds) db)
                × (has_own_budget cleanup now skip u ≡ false)
                × (cleanup_raises cleanup u ≡ true)
                × IsGivenUp u.task_id
                    (mark_stuck_tasks cleanup now current timeout_seconds skip db).1))
  mark_stuck_tasks-gives_up t c m n = elim (stuck_loop c) [
    | inl (returns, done) ↦ inl (returns, done.given_up t m n)
    | inr a ↦ inr ((a.error, a.raised), (a.task, a.due, a.counted, a.fails, a.given_up))
  ]

-- Mark_stuck_tasks leaves what get_task returns for a task that is not among the stale ones, or
-- that it skips.
pub mark_stuck_tasks-others :
    (cleanup : String → CleanupOutcome) (now current timeout_seconds : ℕ) (skip : List String)
    (db : Db) (j : String)
    → any
        (λ (t : TaskRecord). (t.task_id == j) && not (has_own_budget cleanup now skip t))
        (list_stale_acked_tasks (current - timeout_seconds) db)
      ≡ false
    → (get_task j (mark_stuck_tasks cleanup now current timeout_seconds skip db).1 ≡ get_task j db)
unfolding mark_stuck_tasks ◌>>=◌
mark_stuck_tasks-others cleanup now current timeout skip db j h =
    let after =
      (for_each-Keeps cleanup now (Same j db) (has_own_budget cleanup now skip) _
          (list_stale_acked_tasks (current - timeout) db) 0
          (λ t m n.
            give_up-Keeps cleanup now (Same j db) _ _ _ t
              (Same-Kept j t.task_id db (not_due t m n)))).at
        db (Same-refl j db) in
    get_task-Same j db _ after
  where
    not_due :
        (t : TaskRecord)
        → Memᴰ t (list_stale_acked_tasks (current - timeout) db)
        → has_own_budget cleanup now skip t ≡ false
        → (t.task_id == j) ≡ false
    not_due t m n = ground (
      arith,
      none_such (λ (t : TaskRecord). (t.task_id == j) && not (has_own_budget cleanup now skip t)) _
          m h,
    )
