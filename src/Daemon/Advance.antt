-- ===== src/Daemon/Advance.antt =====
-- When a task that waits for others goes on, and when it is blocked.
use agpair.Base.{
  arith, ◌++◌, ℕ, String, Bool, true, false, ◌&&◌, List, [], ◌∷◌, Option, none, some, ◌≡◌, refl,
  sym, ap, ◌∙◌, subst, all, if◌then◌else◌,
}
use agpair.Json.{Items, text, nil, cons}
use agpair.Models.{
  Phase, new, acked, ready_for_review, evidence_ready, committed, blocked, stuck, abandoned,
  phase_in, TaskRecord,
}
use agpair.Result.{ok}
use agpair.Db.{Db, ◌>>=◌, pure, continue}
use agpair.Tasks.Select.{get_task}
use agpair.Tasks.Mark.{mark_blocked, may_move}
use agpair.Tasks.Consistent.{IsConsistent}
use agpair.Tasks.Outcome.{IsIn, mark_blocked-IsIn}
use agpair.Journal.{append}
use agpair.Daemon.Dependencies.{
  Readiness, satisfied, waiting, failed, of_dependency, classify, Outcome, block_task, advance,
  dep_success_phases, dep_terminal_failure_phases,
}

-- the list of ids that `depends_on` holds
abbrev pub listed : List String → Items
listed [] = nil
listed (i ∷ is) = cons (text i) (listed is)

abbrev pub is_satisfied : Readiness → Bool
is_satisfied satisfied = true
is_satisfied waiting = false
is_satisfied failed = false

-- a task in one of the three successful phases
abbrev pub succeeded : Option TaskRecord → Bool
succeeded none = false
succeeded (some task) = phase_in task.phase (ready_for_review ∷ evidence_ready ∷ committed ∷ [])

-- a task that is missing, or will not succeed
abbrev pub gave_up : Option TaskRecord → Bool
gave_up none = true
gave_up (some task) = phase_in task.phase (blocked ∷ abandoned ∷ stuck ∷ [])

by_phase :
    (p : Phase) (later : Readiness)
    → is_satisfied (
        if phase_in p dep_terminal_failure_phases
        then failed
        else if phase_in p dep_success_phases
        then later
        else waiting)
      ≡ (phase_in p dep_success_phases && is_satisfied later)
by_phase new later = refl
by_phase acked later = refl
by_phase ready_for_review later = refl
by_phase evidence_ready later = refl
by_phase committed later = refl
by_phase blocked later = refl
by_phase stuck later = refl
by_phase abandoned later = refl

of_dependency-satisfied :
    (o : Option TaskRecord) (later : Readiness)
    → is_satisfied (of_dependency o later) ≡ (succeeded o && is_satisfied later)
of_dependency-satisfied none later = refl
of_dependency-satisfied (some t) later = by_phase t.phase later

-- The dependencies of a task are satisfied exactly if each of them is a task that is
-- ready_for_review, evidence_ready or committed.
pub classify-satisfied :
    (dep_ids : List String) (db : Db)
    → is_satisfied (classify (listed dep_ids) db)
      ≡ all (λ dep_id. succeeded (get_task dep_id db)) dep_ids
unfolding classify
classify-satisfied [] db = refl
classify-satisfied (i ∷ is) db =
    of_dependency-satisfied (get_task i db) (classify (listed is) db)
    ∙ ap (λ b. succeeded (get_task i db) && b) (classify-satisfied is db)

phase_succeeds :
    (p : Phase) (later : Readiness)
    → phase_in p (ready_for_review ∷ evidence_ready ∷ committed ∷ []) ≡ true
    → (if phase_in p dep_terminal_failure_phases
        then failed
        else if phase_in p dep_success_phases
        then later
        else waiting)
      ≡ later
phase_succeeds ready_for_review later h = refl
phase_succeeds evidence_ready later h = refl
phase_succeeds committed later h = refl
phase_succeeds new later h = absurd (ground arith)
phase_succeeds acked later h = absurd (ground arith)
phase_succeeds blocked later h = absurd (ground arith)
phase_succeeds stuck later h = absurd (ground arith)
phase_succeeds abandoned later h = absurd (ground arith)

of_dependency-succeeded :
    (o : Option TaskRecord) (later : Readiness) → succeeded o ≡ true → of_dependency o later ≡ later
of_dependency-succeeded none later h = absurd (ground arith)
of_dependency-succeeded (some t) later h = phase_succeeds t.phase later h

of_dependency-gave_up :
    (o : Option TaskRecord) (later : Readiness) → gave_up o ≡ true → of_dependency o later ≡ failed
of_dependency-gave_up none later h = refl
of_dependency-gave_up (some t) later h = ground arith

classify-failed :
    (before : List String) (dep_id : String) (after : List String) (db : Db)
    → all (λ i. succeeded (get_task i db)) before ≡ true
    → gave_up (get_task dep_id db) ≡ true
    → classify (listed (before ++ dep_id ∷ after)) db ≡ failed
unfolding classify
classify-failed [] dep_id after db h g = of_dependency-gave_up (get_task dep_id db) _ g
classify-failed (i ∷ before) dep_id after db h g =
    of_dependency-succeeded (get_task i db) _ (ground arith)
    ∙ classify-failed before dep_id after db (ground arith) g

module _ (dispatch : TaskRecord → String → Outcome) (reason : String) (now : ℕ) where
  abbrev with_entry : TaskRecord → Db → Db
  with_entry t db = (append t.task_id "daemon" "auto_advance_failed" reason "normal" now db).1

  with_entry-IsConsistent :
      (t : TaskRecord) (db : Db) → IsConsistent db → IsConsistent (with_entry t db)
  unfolding append
  with_entry-IsConsistent t db c = record {
    unique = c.unique;
    current_exists = c.current_exists;
    latest = c.latest;
    first_exists = c.first_exists;
  }

  get_task-with_entry :
      (t : TaskRecord) (db : Db) (i : String) → get_task i (with_entry t db) ≡ get_task i db
  unfolding append get_task
  get_task-with_entry t db i = refl

  block_task-IsIn :
      (t : TaskRecord) (db : Db)
      → IsConsistent db
      → get_task t.task_id db ≡ some t
      → may_move t.phase blocked ≡ true
      → ((block_task dispatch reason now t db).0 ≡ ok 0)
        × IsIn t.task_id t.attempt_no blocked (block_task dispatch reason now t db).1
  unfolding block_task append ◌>>=◌
  block_task-IsIn t db c found moves =
      let db' = with_entry t db in
      let (returned, is) =
        mark_blocked-IsIn t.task_id t db' (some reason) none none none now now
          (with_entry-IsConsistent t db c) (get_task-with_entry t db t.task_id ∙ found) moves in
      let after = (mark_blocked t.task_id (some reason) none none none now now db').1 in
      (
        ap (λ r. (continue r (λ _. pure {A = ℕ} 0) after).0) returned,
        subst (IsIn t.task_id t.attempt_no blocked)
            (sym (ap (λ r. (continue r (λ _. pure {A = ℕ} 0) after).1) returned)) is,
      )

  advance-failed :
      (t : TaskRecord) (dep_ids : Items) (db : Db)
      → classify dep_ids db ≡ failed
      → advance dispatch reason now t dep_ids db ≡ block_task dispatch reason now t db
  unfolding advance ◌>>=◌
  advance-failed t dep_ids db gone = rw gone refl

  -- From consistent tables, a task that may be blocked and has a dependency that is missing,
  -- blocked, abandoned or stuck, while those before it are ready_for_review, evidence_ready or
  -- committed, is blocked, and its current attempt with it, and counts as not advanced, whatever
  -- the dependencies after it are.
  pub advance-IsIn :
      (t : TaskRecord) (before : List String) (dep_id : String) (after : List String) (db : Db)
      → IsConsistent db
      → get_task t.task_id db ≡ some t
      → may_move t.phase blocked ≡ true
      → all (λ i. succeeded (get_task i db)) before ≡ true
      → gave_up (get_task dep_id db) ≡ true
      → ((advance dispatch reason now t (listed (before ++ dep_id ∷ after)) db).0 ≡ ok 0)
        × IsIn t.task_id t.attempt_no blocked
            (advance dispatch reason now t (listed (before ++ dep_id ∷ after)) db).1
  advance-IsIn t before dep_id after db c found moves good bad =
      rw
        (advance-failed t (listed (before ++ dep_id ∷ after)) db
          (classify-failed before dep_id after db good bad))
        (block_task-IsIn t db c found moves)
