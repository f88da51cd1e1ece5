-- ===== src/Tasks/Moves.antt =====
-- The state diagram of a task, and that every call follows it.
use agpair.Base.{
  ◌+◌, String, true, ◌≡◌, ◌≢◌, refl, ap, sym, ◌∙◌, inl, inr, some, find_row, update_rows, any,
  Bool-cases, Option-cases, eq_iff, if◌then◌else◌,
}
use agpair.Base.Members.{find_row-update_rows, find_row-holds}
use agpair.Models.{
  Phase, new, acked, ready_for_review, evidence_ready, committed, blocked, stuck, abandoned,
  TaskRow, TaskRecord,
}
use agpair.Db.{Db, Exec, ◌>>=◌}
use agpair.Tasks.Select.{has_id, get_task, prepare_retry}
use agpair.Tasks.Mark.{may_move, check_transition, checked, update_task}
use agpair.Tasks.Found.{get_task-found, joined_fields}

-- the arrows between the phases of one attempt
pub data Edge : Phase → Phase → Type 0 where
  ack_new : Edge new acked
  ack_review : Edge ready_for_review acked
  ack_evidence : Edge evidence_ready acked
  ack_blocked : Edge blocked acked
  ack_committed : Edge committed acked
  ack_stuck : Edge stuck acked
  ack_abandoned : Edge abandoned acked
  review_acked : Edge acked ready_for_review
  review_evidence : Edge evidence_ready ready_for_review
  review_committed : Edge committed ready_for_review
  evidence_acked : Edge acked evidence_ready
  block_acked : Edge acked blocked
  block_new : Edge new blocked
  block_review : Edge ready_for_review blocked
  block_evidence : Edge evidence_ready blocked
  block_committed : Edge committed blocked
  commit_acked : Edge acked committed
  commit_evidence : Edge evidence_ready committed
  commit_review : Edge ready_for_review committed
  stick : Edge acked stuck
  abandon : {p : Phase} → Edge p abandoned

ruleset edges = (
  ack_new, ack_review, ack_evidence, ack_blocked, ack_committed, ack_stuck, ack_abandoned,
  review_acked, review_evidence, review_committed, evidence_acked, block_acked, block_new,
  block_review, block_evidence, block_committed, commit_acked, commit_evidence, commit_review,
  stick, abandon,
)

into_acked : (p : Phase) → may_move p acked ≡ true → Edge p acked
unfolding may_move
into_acked new h = first_of (search edges, cc)
into_acked _ h = first_of (search edges, cc)

into_ready_for_review : (p : Phase) → may_move p ready_for_review ≡ true → Edge p ready_for_review
unfolding may_move
into_ready_for_review new h = first_of (search edges, cc)
into_ready_for_review _ h = first_of (search edges, cc)

into_evidence_ready : (p : Phase) → may_move p evidence_ready ≡ true → Edge p evidence_ready
unfolding may_move
into_evidence_ready new h = first_of (search edges, cc)
into_evidence_ready _ h = first_of (search edges, cc)

into_committed : (p : Phase) → may_move p committed ≡ true → Edge p committed
unfolding may_move
into_committed new h = first_of (search edges, cc)
into_committed _ h = first_of (search edges, cc)

into_blocked : (p : Phase) → may_move p blocked ≡ true → Edge p blocked
unfolding may_move
into_blocked new h = first_of (search edges, cc)
into_blocked _ h = first_of (search edges, cc)

into_stuck : (p : Phase) → may_move p stuck ≡ true → Edge p stuck
unfolding may_move
into_stuck new h = first_of (search edges, cc)
into_stuck _ h = first_of (search edges, cc)

pub may_move-Edge : (p q : Phase) → may_move p q ≡ true → q ≢ new → Edge p q
may_move-Edge p new h n = absurd (n refl)
may_move-Edge p abandoned h n = abandon
may_move-Edge p acked h n = into_acked p h
may_move-Edge p ready_for_review h n = into_ready_for_review p h
may_move-Edge p evidence_ready h n = into_evidence_ready p h
may_move-Edge p committed h n = into_committed p h
may_move-Edge p blocked h n = into_blocked p h
may_move-Edge p stuck h n = into_stuck p h

-- How a call may change the row of a task: not its phase; along an arrow, within the attempt; or to the
-- start of the next attempt.
pub data Moves (r s : TaskRow) : Type 0 where
  stays : s.phase ≡ r.phase → s.attempt_no ≡ r.attempt_no → Moves r s
  follows : Edge r.phase s.phase → s.attempt_no ≡ r.attempt_no → Moves r s
  starts_over :
      s.phase ≡ new
      → s.attempt_no ≡ r.attempt_no + 1
      → s.retry_count ≡ r.retry_count + 1
      → Moves r s

pub Moves-refl : (r s : TaskRow) → r ≡ s → Moves r s
Moves-refl r s e = stays (ap (λ t. t.phase) (sym e)) (ap (λ t. t.attempt_no) (sym e))

-- What the calls below establish from the database `db`: the row of every task moves as above.
pub record AllMove (db after : Db) : Type 0 where
  pub row :
      (j : String) (r s : TaskRow)
      → find_row (has_id j) db.tasks ≡ some r
      → find_row (has_id j) after.tasks ≡ some s
      → Moves r s

pub some_eq : {r s : TaskRow} → some r ≡ some s → r ≡ s
some_eq e = cc

pub AllMove-same : (db after : Db) → after.tasks ≡ db.tasks → AllMove db after
AllMove-same db after e = record {
  row = λ j r s p q. Moves-refl r s (some_eq (sym p ∙ ap (find_row (has_id j)) (sym e) ∙ q));
}

updated :
    (i : String) (f : TaskRow → TaskRow) (j : String) (r s : TaskRow)
    → ((i ≡ j) → Moves r (f r))
    → r.task_id ≡ j
    → s ≡ (if has_id i r then f r else r)
    → Moves r s
updated i f j r s h mine e = elim (Bool-cases (has_id i r)) [
  | inl y ↦ let p : s ≡ f r = rw y at e in rw p (h (sym ((eq_iff _ _).0 y) ∙ mine))
  | inr n ↦ let p : s ≡ r = rw n at e in Moves-refl r s (sym p)
]

-- An UPDATE by task_id.
pub update_rows-AllMove :
    (i : String) (f : TaskRow → TaskRow) (db after : Db)
    → ((r : TaskRow) → (f r).task_id ≡ r.task_id)
    → ((r : TaskRow) → find_row (has_id i) db.tasks ≡ some r → Moves r (f r))
    → after.tasks ≡ update_rows (has_id i) f db.tasks
    → AllMove db after
update_rows-AllMove i f db after same_id h e = record {
  row = λ j r s p q.
      updated i f j r s (λ ij. h r (rw ij p))
        ((eq_iff _ _).0 (find_row-holds (has_id j) db.tasks p)) (some_eq (found j r s p q));
}
  where
    found :
        (j : String) (r s : TaskRow)
        → find_row (has_id j) db.tasks ≡ some r
        → find_row (has_id j) after.tasks ≡ some s
        → some s ≡ some (if has_id i r then f r else r)
    found j r s p q =
        sym q
        ∙ rw (e, find_row-update_rows (has_id j) (has_id i) f db.tasks (λ a. rw (same_id a)), p)

pub update_task-AllMove :
    (i : String) (f : TaskRow → TaskRow) (db : Db)
    → ((r : TaskRow) → (f r).task_id ≡ r.task_id)
    → ((r : TaskRow) → find_row (has_id i) db.tasks ≡ some r → Moves r (f r))
    → AllMove db (update_task i f db).1
unfolding update_task
update_task-AllMove i f db same_id h = elim (Bool-cases (any (has_id i) db.tasks)) [
  | inl known ↦ rw known (update_rows-AllMove i f db _ same_id h refl)
  | inr unknown ↦ rw unknown (AllMove-same db db refl)
]

module _ (i : String) (target : Phase) (db : Db) where
  -- What follows the check of a transition need only be looked at where the check passes.
  pub checked_bind {ℓ} :
      {B : Type ℓ} (f : TaskRecord → Exec B)
      → ((t : TaskRecord) (r : TaskRow)
          → find_row (has_id i) db.tasks ≡ some r
          → may_move r.phase target ≡ true
          → AllMove db (f t db).1)
      → AllMove db ((checked i target >>= f) db).1
  unfolding checked check_transition prepare_retry ◌>>=◌
  checked_bind f k = elim (Option-cases (get_task i db)) [
    | inl missing ↦ rw missing (AllMove-same db db refl)
    | inr (t, found) ↦
        let (r, e, same) = get_task-found i db found in
        let phase : t.phase ≡ r.phase = ap (λ x. x.phase) same ∙ (joined_fields db r).0 in
        elim (Bool-cases (may_move t.phase target)) [
          | inl legal ↦ rw (found, legal) (k t r e (rw phase at legal))
          | inr illegal ↦ rw (found, illegal) (AllMove-same db db refl)
        ]
  ]

  -- The UPDATE after a check that passed.
  pub legal-AllMove :
      (g : TaskRow → TaskRow) (r : TaskRow)
      → target ≢ new
      → find_row (has_id i) db.tasks ≡ some r
      → may_move r.phase target ≡ true
      → ((s : TaskRow) → (g s).task_id ≡ s.task_id)
      → ((s : TaskRow) → (g s).attempt_no ≡ s.attempt_no)
      → ((s : TaskRow) → (g s).phase ≡ target)
      → AllMove db (update_task i g db).1
  legal-AllMove g r old e legal same_id same_no to_target =
      update_task-AllMove i g db same_id λ s e'.
        let q : s ≡ r = some_eq (sym e' ∙ e) in
        follows (rw (to_target s, q) (may_move-Edge r.phase target legal old)) (same_no s)
