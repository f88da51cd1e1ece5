-- ===== src/Tasks/Frame.antt =====
-- A call that is about one task leaves the other tasks.
use agpair.Base.{
  ℕ, String, Bool, true, false, ◌≡◌, refl, ap, ◌∙◌, inl, inr, List, [], ◌∷◌, ◌++◌, Option, none,
  some, any, find_row, select, update_rows, sort_by, ltb, Bool-cases, arith, eq_iff, ◌==◌,
}
use agpair.Base.Members.{find_of_any, find_row-holds, find_row-none}
use agpair.Models.{TaskRow, TaskAttemptRecord}
use agpair.Db.{Db}
use agpair.Db.Rules.{Keeps, Keeps-bind, Keeps-transaction, Keeps-of_Reads, reads_rules}
use agpair.Tasks.Select.{has_id, is_attempt, get_task, joined}
use agpair.Tasks.Attempts.{
  of_task, list_attempts, update_attempt, record_attempt_terminal, update_attempt_adoption,
  update_attempt_dirty_snapshot, record_artifact,
}
use agpair.Tasks.Create.{create_task, insert_both, insert_attempt}
use agpair.Tasks.Mark.{
  update_task, mark_acked, mark_evidence_ready, mark_ready_for_review, mark_blocked, mark_committed,
  mark_approved, mark_stuck, mark_abandoned,
}
use agpair.Tasks.Fields.{
  record_heartbeat, update_workspace_activity, clear_session_id, set_execution_repo_path,
  recommend_retry,
}
use agpair.Tasks.Retry.{apply_retry_dispatch, reopen}
use agpair.Tasks.Inserted.{insert_both_cases}
use agpair.Tasks.Calls.{Call, call}
use agpair.Tasks.Atomic.{Reads-prepare_retry, Reads-checked}

-- the task that a call is about; the cleanup is about none
abbrev pub subject : Call → Option String
subject (Call.create_task a now) = some a.task_id
subject (Call.mark_acked i s now) = some i
subject (Call.mark_evidence_ready i r now) = some i
subject (Call.mark_ready_for_review i r s j now) = some i
subject (Call.mark_blocked i why r s j now later) = some i
subject (Call.mark_committed i r s now) = some i
subject (Call.mark_approved i now) = some i
subject (Call.mark_stuck i why now later) = some i
subject (Call.mark_abandoned i why now later) = some i
subject (Call.delete_terminal_older_than cutoff) = none
subject (Call.record_heartbeat i at now) = some i
subject (Call.update_workspace_activity i at now) = some i
subject (Call.clear_session_id i now) = some i
subject (Call.set_execution_repo_path i p now) = some i
subject (Call.recommend_retry i n now) = some i
subject (Call.apply_retry_dispatch a now) = some a.task_id
subject (Call.record_attempt_terminal i n p j s e now) = some i
subject (Call.update_attempt_adoption i n w e a v r now) = some i
subject (Call.update_attempt_dirty_snapshot i n m s b now) = some i
subject (Call.record_artifact i n t p size digest now) = some i

-- Whether a call may touch the task `j`: the cleanup may touch any.
abbrev pub concerns : String → Call → Bool
concerns j c = elim (subject c) [ none ↦ true | some i ↦ i == j ]

-- What the tables hold of the task `j` is what they held in `db`.
pub record Same (j : String) (db after : Db) : Type 0 where
  pub row : find_row (has_id j) after.tasks ≡ find_row (has_id j) db.tasks
  pub attempts : select (of_task j) after.attempts ≡ select (of_task j) db.attempts
  pub attempt :
      (n : ℕ) → find_row (is_attempt j n) after.attempts ≡ find_row (is_attempt j n) db.attempts

module _ {A : Type 0} (q p : A → Bool) (f : A → A) (keeps : (a : A) → p a ≡ true → q (f a) ≡ false)
    (apart : (a : A) → p a ≡ true → q a ≡ false) where
  find-update : (xs : List A) → find_row q (update_rows p f xs) ≡ find_row q xs
  find-update [] = refl
  find-update (x ∷ xs) = elim (Bool-cases (p x)) [
    | inl y ↦ rw (y, keeps x y, apart x y) (find-update xs)
    | inr n ↦ rw n (rw (find-update xs))
  ]

  select-update : (xs : List A) → select q (update_rows p f xs) ≡ select q xs
  select-update [] = refl
  select-update (x ∷ xs) = elim (Bool-cases (p x)) [
    | inl y ↦ rw (y, keeps x y, apart x y) (select-update xs)
    | inr n ↦ rw n (rw (select-update xs))
  ]

module _ (j : String) (db : Db) where
  update_task-Keeps :
      (i : String) (f : TaskRow → TaskRow)
      → (i == j) ≡ false
      → ((r : TaskRow) → (f r).task_id ≡ r.task_id)
      → Keeps (Same j db) (update_task i f)
  unfolding update_task
  update_task-Keeps i f other same_id = record {
    at = λ d h. elim (Bool-cases (any (has_id i) d.tasks)) [
      | inr n ↦ rw n h
      | inl y ↦ rw y (record {
        row =
            find-update (has_id j) (has_id i) f
              (λ r mine. ground (arith, same_id r, eq_iff r.task_id i))
              (λ r mine. ground (arith, eq_iff r.task_id i)) d.tasks
            ∙ h.row;
        attempts = h.attempts;
        attempt = h.attempt;
      })
    ];
  }

  update_attempt-Keeps :
      (i : String) (n : ℕ) (f : TaskAttemptRecord → TaskAttemptRecord)
      → (i == j) ≡ false
      → ((a : TaskAttemptRecord) → (f a).task_id ≡ a.task_id)
      → Keeps (Same j db) (update_attempt i n f)
  update_attempt-Keeps i n f other same_id = record {
    at = λ d h. record {
      row = h.row;
      attempts =
          select-update (of_task j) (is_attempt i n) f
            (λ a mine. ground (arith, same_id a, eq_iff a.task_id i))
            (λ a mine. ground (arith, eq_iff a.task_id i)) d.attempts
          ∙ h.attempts;
      attempt = λ k.
          find-update (is_attempt j k) (is_attempt i n) f
            (λ a mine. ground (arith, same_id a, eq_iff a.task_id i))
            (λ a mine. ground (arith, eq_iff a.task_id i)) d.attempts
          ∙ h.attempt k;
    };
  }

  select_more :
      (xs : List TaskAttemptRecord) (a : TaskAttemptRecord)
      → of_task j a ≡ false
      → select (of_task j) (xs ++ a ∷ []) ≡ select (of_task j) xs
  select_more [] a other = rw other
  select_more (x ∷ xs) a other = rw (select_more xs a other)

  find_more {ℓ} :
      {A : Type ℓ} (q : A → Bool) (xs : List A) (a : A)
      → q a ≡ false
      → find_row q (xs ++ a ∷ []) ≡ find_row q xs
  find_more q [] a other = rw other
  find_more q (x ∷ xs) a other = rw (find_more q xs a other)

  attempt_more :
      (d : Db) (a : TaskAttemptRecord) (k : ℕ)
      → (a.task_id == j) ≡ false
      → find_row (is_attempt j k) (d.attempts ++ a ∷ []) ≡ find_row (is_attempt j k) d.attempts
  attempt_more d a k other = find_more (is_attempt j k) d.attempts a (rw other)

  insert_attempt-Keeps :
      (a : TaskAttemptRecord) → (a.task_id == j) ≡ false → Keeps (Same j db) (insert_attempt a)
  unfolding insert_attempt
  insert_attempt-Keeps a other = record {
    at = λ d h. elim (Bool-cases (any (is_attempt a.task_id a.attempt_no) d.attempts)) [
      | inl y ↦ rw y h
      | inr n ↦ rw n (record {
        row = h.row;
        attempts = select_more d.attempts a other ∙ h.attempts;
        attempt = λ k. attempt_more d a k other ∙ h.attempt k;
      })
    ];
  }

  insert_both-Keeps :
      (r : TaskRow) (a : TaskAttemptRecord)
      → (r.task_id == j) ≡ false
      → (a.task_id == j) ≡ false
      → Keeps (Same j db) (insert_both r a)
  insert_both-Keeps r a other also = record {
    at = λ d h. elim (insert_both_cases r a d) [
      | inr e ↦ rw e h
      | inl (f, e) ↦ rw e (record {
        row = find_more (has_id j) d.tasks r other ∙ h.row;
        attempts = select_more d.attempts a also ∙ h.attempts;
        attempt = λ k. attempt_more d a k also ∙ h.attempt k;
      })
    ];
  }

ruleset frame_rules = (
  Keeps-bind, Keeps-transaction, update_task-Keeps, update_attempt-Keeps, insert_both-Keeps,
  insert_attempt-Keeps, Keeps-of_Reads, Reads-checked, Reads-prepare_retry, reads_rules,
)

pub call-Keeps-Same :
    (j : String) (db : Db) (c : Call) → concerns j c ≡ false → Keeps (Same j db) (call c)
unfolding call reopen create_task mark_acked mark_evidence_ready mark_ready_for_review mark_blocked
    mark_committed mark_approved mark_stuck mark_abandoned record_heartbeat
    update_workspace_activity clear_session_id set_execution_repo_path recommend_retry
    record_attempt_terminal update_attempt_adoption update_attempt_dirty_snapshot record_artifact
    apply_retry_dispatch
call-Keeps-Same j db (Call.delete_terminal_older_than cutoff) other = absurd (cc)
call-Keeps-Same j db (Call.record_artifact k n t p size digest now) other = record {
  at = λ d h. record { row = h.row; attempts = h.attempts; attempt = h.attempt };
}
call-Keeps-Same j db _ other = search frame_rules depth 9

pub get_task-Same :
    (j : String) (db after : Db) → Same j db after → get_task j after ≡ get_task j db
unfolding get_task joined
get_task-Same j db after h = elim (Bool-cases (any (has_id j) db.tasks)) [
  | inl y ↦
      let (r, e) = find_of_any (has_id j) db.tasks y in
      let mine : r.task_id ≡ j = (eq_iff _ _).0 (find_row-holds (has_id j) db.tasks e) in
      rw (h.row, e, mine) (rw (h.attempt r.attempt_no))
  | inr n ↦ rw (h.row, find_row-none (has_id j) db.tasks n)
]

-- A call that is about one task, whether it returns or raises, leaves what `get_task` and
-- `list_attempts` return for every other task.
pub other_tasks_unchanged :
    (c : Call) (j : String) (db : Db)
    → concerns j c ≡ false
    → (get_task j (call c db).1 ≡ get_task j db)
      × (list_attempts j (call c db).1 ≡ list_attempts j db)
unfolding list_attempts
other_tasks_unchanged c j db other =
    let same =
      (call-Keeps-Same j db c other).at db
        (record { row = refl; attempts = refl; attempt = λ n. refl }) in
    (
      get_task-Same j db (call c db).1 same,
      ap (sort_by (λ a b. ltb a.attempt_no b.attempt_no)) same.attempts,
    )
