-- ===== src/Tasks/Diagram.antt =====
-- The state diagram, one method at a time.
use agpair.Base.{
  ℕ, ◌+◌, String, ◌≡◌, refl, ap, sym, ◌∙◌, inl, inr, [], ◌∷◌, Option, some, arith, any, delete_rows,
  Bool-cases, Option-cases, eq_iff,
}
use agpair.Base.Members.{
  find_row-append, mem-find_row, mem-delete_rows, find_row-holds, any_of_find,
}
use agpair.Models.{
  acked, evidence_ready, ready_for_review, committed, stuck, abandoned, blocked, TaskRow,
  TaskRecord, TaskAttemptRecord,
}
use agpair.Result.{Result, ok, err}
use agpair.Db.{Db, Exec, ◌>>◌, transaction}
use agpair.Db.Rules.{
  Keeps, lift_bind, bind_Keeps, Keeps-of_Reads, Reads-bind, Reads-gets, Reads-require_some,
}
use agpair.Tasks.Select.{has_id, get_task, is_attempt, joined}
use agpair.Tasks.Attempts.{update_attempt, record_attempt_terminal}
use agpair.Tasks.Create.{NewTask, create_task, insert_both, Opening}
use agpair.Tasks.Mark.{
  update_task, acked_row, acked_attempt, mark_acked, mark_evidence_ready, mark_ready_for_review,
  mark_blocked, mark_committed, mark_approved, mark_stuck, mark_abandoned, is_old,
  delete_terminal_older_than,
}
use agpair.Tasks.Retry.{Retry, apply_retry_dispatch, reopen, next_opening, reset_row}
use agpair.Tasks.Consistent.{IsConsistent, find_of_mem}
use agpair.Tasks.Found.{get_task-found, joined_fields, prepare_retry_bind, prepare_retry_bind_some}
use agpair.Tasks.Inserted.{insert_both_cases}
use agpair.Tasks.Reopen.{reopen_lem, reopen_twice}
use agpair.Tasks.Moves.{
  stays, starts_over, AllMove, AllMove-same, update_rows-AllMove, update_task-AllMove,
  legal-AllMove, checked_bind, Moves-refl, some_eq,
}

module _ (db : Db) where
  pub attempts_only :
      (i : String) (n : ℕ) (f : TaskAttemptRecord → TaskAttemptRecord)
      → Keeps (AllMove db) (update_attempt i n f)
  attempts_only i n f = record { at = λ d h. record { row = h.row } }

  -- a column that the diagram does not speak of
  pub column :
      (i : String) (f : TaskRow → TaskRow)
      → ((r : TaskRow) → (f r).task_id ≡ r.task_id)
      → ((r : TaskRow) → (f r).attempt_no ≡ r.attempt_no)
      → ((r : TaskRow) → (f r).phase ≡ r.phase)
      → AllMove db (update_task i f db).1
  column i f same_id same_no same_phase =
      update_task-AllMove i f db same_id (λ r e. stays (same_phase r) (same_no r))

  settled {ℓ} :
      {A : Type ℓ} (r : Result A) (after : Db)
      → AllMove db after
      → AllMove db (transaction (λ _. (r, after)) db).1
  settled (ok a) after k = k
  settled (err e) after k = AllMove-same db db refl

  in_transaction {ℓ} :
      {A : Type ℓ} (m : Exec A) → AllMove db (m db).1 → AllMove db (transaction m db).1
  in_transaction m h = settled (m db).0 (m db).1 h

  pub mark_acked-AllMove : (i s : String) (now : ℕ) → AllMove db (mark_acked i s now db).1
  unfolding mark_acked
  mark_acked-AllMove i s now = checked_bind i acked db _ λ t r e legal.
      let g = acked_row s now in
      let rest : Exec (Unit {0}) = update_attempt i t.attempt_no (acked_attempt s now) in
      in_transaction (update_task i g >> rest) (
        bind_Keeps (AllMove db) (update_task i g) (λ _. rest) db
          (legal-AllMove i acked db g r (λ p. cc) e legal (λ s. refl) (λ s. refl) (λ s. refl))
          (λ _. attempts_only i t.attempt_no (acked_attempt s now)))

  pub mark_evidence_ready-AllMove :
      (i : String) (r : Option String) (now : ℕ) → AllMove db (mark_evidence_ready i r now db).1
  unfolding mark_evidence_ready
  mark_evidence_ready-AllMove i s now = checked_bind i evidence_ready db _ λ t r e legal.
      legal-AllMove i evidence_ready db _ r (λ p. cc) e legal (λ s. refl) (λ s. refl) (λ s. refl)

  pub mark_ready_for_review-AllMove :
      (i : String) (a b c : Option String) (now : ℕ)
      → AllMove db (mark_ready_for_review i a b c now db).1
  unfolding mark_ready_for_review
  mark_ready_for_review-AllMove i a b c now = checked_bind i ready_for_review db _ λ t r e legal.
      legal-AllMove i ready_for_review db _ r (λ p. cc) e legal (λ s. refl) (λ s. refl) (λ s. refl)

  pub mark_committed-AllMove :
      (i : String) (a b : Option String) (now : ℕ) → AllMove db (mark_committed i a b now db).1
  unfolding mark_committed
  mark_committed-AllMove i a b now = checked_bind i committed db _ λ t r e legal.
      legal-AllMove i committed db _ r (λ p. cc) e legal (λ s. refl) (λ s. refl) (λ s. refl)

  pub mark_blocked-AllMove :
      (i : String) (a b c d : Option String) (now later : ℕ)
      → AllMove db (mark_blocked i a b c d now later db).1
  unfolding mark_blocked record_attempt_terminal
  mark_blocked-AllMove i a b c d now later = checked_bind i blocked db _ λ t r e legal.
      bind_Keeps (AllMove db) _ _ db
        (legal-AllMove i blocked db _ r (λ p. cc) e legal (λ s. refl) (λ s. refl) (λ s. refl))
        (λ _. attempts_only _ _ _)

  pub mark_stuck-AllMove :
      (i why : String) (now later : ℕ) → AllMove db (mark_stuck i why now later db).1
  unfolding mark_stuck record_attempt_terminal
  mark_stuck-AllMove i why now later = checked_bind i stuck db _ λ t r e legal.
      bind_Keeps (AllMove db) _ _ db
        (legal-AllMove i stuck db _ r (λ p. cc) e legal (λ s. refl) (λ s. refl) (λ s. refl))
        (λ _. attempts_only _ _ _)

  pub mark_abandoned-AllMove :
      (i why : String) (now later : ℕ) → AllMove db (mark_abandoned i why now later db).1
  unfolding mark_abandoned record_attempt_terminal
  mark_abandoned-AllMove i why now later = checked_bind i abandoned db _ λ t r e legal.
      bind_Keeps (AllMove db) _ _ db
        (legal-AllMove i abandoned db _ r (λ p. cc) e legal (λ s. refl) (λ s. refl) (λ s. refl))
        (λ _. attempts_only _ _ _)

  pub mark_approved-AllMove : (i : String) (now : ℕ) → AllMove db (mark_approved i now db).1
  unfolding mark_approved
  mark_approved-AllMove i now = elim (Option-cases (get_task i db)) [
    | inl missing ↦ rw (prepare_retry_bind i _ db missing) (AllMove-same db db refl)
    | inr (t, found) ↦
        rw (prepare_retry_bind_some i _ db found) (column i _ (λ r. refl) (λ r. refl) (λ r. refl))
  ]

  -- A row that INSERT adds is no row of an older task.
  pub insert_both-AllMove :
      (r : TaskRow) (a : TaskAttemptRecord) → AllMove db (insert_both r a db).1
  insert_both-AllMove r a = elim (insert_both_cases r a db) [
    | inr refused ↦ rw refused (AllMove-same db db refl)
    | inl (f, e) ↦ rw e (record {
      row = λ j s s' p q.
          Moves-refl s s'
            (some_eq (sym (rw (find_row-append (has_id j) db.tasks (r ∷ []), p) refl) ∙ q));
    })
  ]

  pub reopen-AllMove :
      (a : Retry) (t : TaskRecord) (o : Opening) (summary : String) (now : ℕ)
      → get_task a.task_id db ≡ some t
      → AllMove db (reopen a.task_id (t.attempt_no + 1) (t.retry_count + 1) o summary now db).1
  reopen-AllMove a t o summary now found =
      let i = a.task_id in
      let n = t.attempt_no + 1 in
      let k = t.retry_count + 1 in
      let (r, e, same) = get_task-found i db found in
      let known = any_of_find (has_id i) db.tasks e in
      elim (Bool-cases (any (is_attempt i n) db.attempts)) [
        | inl old ↦ rw (reopen_twice i n k o summary now db known old) (AllMove-same db db refl)
        | inr fresh ↦ rw (reopen_lem i n k o summary now db known fresh) (
            update_rows-AllMove i (reset_row n k o summary now) db _ (λ s. refl)
              (λ s e'.
                let q : s ≡ r = some_eq (sym e' ∙ e) in
                starts_over refl (counted t r s same q) (recounted t r s same q))
              refl)
      ]
    where
      counted :
          (t : TaskRecord) (r s : TaskRow)
          → t ≡ joined db.attempts r
          → s ≡ r
          → t.attempt_no + 1 ≡ s.attempt_no + 1
      counted t r s same q =
          omega
            (arith, ap (λ x. x.attempt_no) same, (joined_fields db r).1, ap (λ x. x.attempt_no) q)

      recounted :
          (t : TaskRecord) (r s : TaskRow)
          → t ≡ joined db.attempts r
          → s ≡ r
          → t.retry_count + 1 ≡ s.retry_count + 1
      recounted t r s same q =
          omega
            (arith, ap (λ x. x.retry_count) same, (joined_fields db r).2, ap (λ x. x.retry_count) q)

  pub apply_retry_dispatch-AllMove :
      (a : Retry) (now : ℕ) → AllMove db (apply_retry_dispatch a now db).1
  unfolding apply_retry_dispatch
  apply_retry_dispatch-AllMove a now = elim (Option-cases (get_task a.task_id db)) [
    | inl missing ↦ rw (prepare_retry_bind a.task_id _ db missing) (AllMove-same db db refl)
    | inr (t, found) ↦ rw (prepare_retry_bind_some a.task_id _ db found) (
        lift_bind (AllMove db) (next_opening a t) _ db (AllMove-same db db refl) (λ o.
          bind_Keeps (AllMove db) _ _ db (reopen-AllMove a t o _ now found)
            (λ _. Keeps-of_Reads _ (Reads-bind _ _ (Reads-gets _) (λ o. Reads-require_some o _)))))
  ]

  -- A DELETE leaves a task as it is, or without a row.
  pub delete-AllMove :
      (cutoff : ℕ) → IsConsistent db → AllMove db (delete_terminal_older_than cutoff db).1
  unfolding delete_terminal_older_than
  delete-AllMove cutoff c = record {
    row = λ j r s p q.
        let m =
          mem-delete_rows (is_old cutoff) db.tasks
            (mem-find_row (has_id j) (delete_rows (is_old cutoff) db.tasks) q) in
        let same =
          (eq_iff _ _).0 (find_row-holds (has_id j) (delete_rows (is_old cutoff) db.tasks) q) in
        Moves-refl r s (some_eq (sym p ∙ find_of_mem db.tasks s j c.unique m same));
  }

  pub create_task-AllMove : (a : NewTask) (now : ℕ) → AllMove db (create_task a now db).1
  unfolding create_task
  create_task-AllMove a now = lift_bind (AllMove db) _ _ db same λ _.
      lift_bind (AllMove db) _ _ db same λ _. lift_bind (AllMove db) _ _ db same λ _.
        lift_bind (AllMove db) _ _ db same
          λ _. lift_bind (AllMove db) _ _ db same λ _. insert_both-AllMove _ _
    where
      same : AllMove db db
      same = AllMove-same db db refl
