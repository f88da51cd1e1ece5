-- ===== src/Tasks/Outcome.antt =====
-- storage/tasks.py: the ends of an attempt, in the two tables.
use agpair.Base.{
  ℕ, String, true, ◌≡◌, refl, ap, sym, ◌∙◌, Option, some, any, find_row, update_rows, eq_iff,
}
use agpair.Base.Members.{
  find_row-update_rows, find_row-holds, any_of_find, mem-find_row, find_of_any,
}
use agpair.Models.{Phase, TaskRow, TaskRecord, TaskAttemptRecord, blocked, stuck, abandoned}
use agpair.Result.{ok}
use agpair.Db.{Db, ◌>>=◌}
use agpair.Tasks.Select.{has_id, is_attempt, get_task, prepare_retry, joined}
use agpair.Tasks.Attempts.{record_attempt_terminal}
use agpair.Tasks.Mark.{
  may_move, checked, check_transition, update_task, mark_blocked, mark_stuck, mark_abandoned,
}
use agpair.Tasks.Consistent.{IsConsistent}
use agpair.Tasks.Found.{get_task-found, get_task-some, joined_fields}

-- The task `i` can be read in the phase `p`, and so can its attempt `n`.
pub record IsIn (i : String) (n : ℕ) (p : Phase) (db : Db) : Type 0 where
  pub task : TaskRecord
  pub task_found : get_task i db ≡ some task
  pub task_phase : task.phase ≡ p
  pub task_attempt : task.attempt_no ≡ n
  pub attempt : TaskAttemptRecord
  pub attempt_found : find_row (is_attempt i n) db.attempts ≡ some attempt
  pub attempt_phase : attempt.phase ≡ p

module _ (i : String) (t : TaskRecord) (p : Phase) (db : Db) (c : IsConsistent db)
    (found : get_task i db ≡ some t) (g : TaskRow → TaskRow)
    (f : TaskAttemptRecord → TaskAttemptRecord) (g_id : (r : TaskRow) → (g r).task_id ≡ r.task_id)
    (g_no : (r : TaskRow) → (g r).attempt_no ≡ r.attempt_no)
    (g_phase : (r : TaskRow) → (g r).phase ≡ p)
    (f_id : (a : TaskAttemptRecord) → (f a).task_id ≡ a.task_id)
    (f_no : (a : TaskAttemptRecord) → (f a).attempt_no ≡ a.attempt_no)
    (f_phase : (a : TaskAttemptRecord) → (f a).phase ≡ p) where
  abbrev ended : Db
  ended = record db {
    tasks = update_rows (has_id i) g db.tasks;
    attempts = update_rows (is_attempt i t.attempt_no) f db.attempts;
  }

  ended-IsIn : IsIn i t.attempt_no p ended
  ended-IsIn =
      let (r, e, same) = get_task-found i db found in
      let mine = find_row-holds (has_id i) db.tasks e in
      let no : t.attempt_no ≡ r.attempt_no = ap (λ x. x.attempt_no) same ∙ (joined_fields db r).1 in
      let row : find_row (has_id i) ended.tasks ≡ some (g r) =
        rw (find_row-update_rows (has_id i) (has_id i) g db.tasks (λ x. rw (g_id x)), e, mine) in
      let there : any (is_attempt i t.attempt_no) db.attempts ≡ true =
        rw (no, sym ((eq_iff _ _).0 mine))
          (c.current_exists r (mem-find_row (has_id i) db.tasks e)) in
      let (a, e') = find_of_any (is_attempt i t.attempt_no) db.attempts there in
      let fields = joined_fields ended (g r) in
      record {
        task = joined ended.attempts (g r);
        task_found = get_task-some i ended row;
        task_phase = fields.0 ∙ g_phase r;
        task_attempt = fields.1 ∙ g_no r ∙ sym no;
        attempt = f a;
        attempt_found = rw (
          find_row-update_rows (is_attempt i t.attempt_no) (is_attempt i t.attempt_no) f db.attempts
              (λ x. rw (f_id x, f_no x)),
          e',
          find_row-holds (is_attempt i t.attempt_no) db.attempts e',
        );
        attempt_phase = f_phase a;
      }

module _ (i : String) (t : TaskRecord) (db : Db) where
  -- From consistent tables, a task that may be blocked is blocked, and its current attempt with it.
  pub mark_blocked-IsIn :
      (reason receipt source json : Option String) (now later : ℕ)
      → IsConsistent db
      → get_task i db ≡ some t
      → may_move t.phase blocked ≡ true
      → ((mark_blocked i reason receipt source json now later db).0 ≡ ok tt)
        × IsIn i t.attempt_no blocked (mark_blocked i reason receipt source json now later db).1
  unfolding mark_blocked checked check_transition prepare_retry update_task record_attempt_terminal
      ◌>>=◌
  mark_blocked-IsIn reason receipt source json now later c found legal =
      let (r, e, same) = get_task-found i db found in
      rw (found, legal, any_of_find (has_id i) db.tasks e)
        (
          refl,
          ended-IsIn i t blocked db c found _ _ (λ r. refl) (λ r. refl) (λ r. refl) (λ a. refl)
              (λ a. refl) (λ a. refl),
        )

  -- From consistent tables, a task that may be stuck is marked so, and its current attempt with it.
  pub mark_stuck-IsIn :
      (reason : String) (now later : ℕ)
      → IsConsistent db
      → get_task i db ≡ some t
      → may_move t.phase stuck ≡ true
      → ((mark_stuck i reason now later db).0 ≡ ok tt)
        × IsIn i t.attempt_no stuck (mark_stuck i reason now later db).1
  unfolding mark_stuck checked check_transition prepare_retry update_task record_attempt_terminal
      ◌>>=◌
  mark_stuck-IsIn reason now later c found legal =
      let (r, e, same) = get_task-found i db found in
      rw (found, legal, any_of_find (has_id i) db.tasks e)
        (
          refl,
          ended-IsIn i t stuck db c found _ _ (λ r. refl) (λ r. refl) (λ r. refl) (λ a. refl)
              (λ a. refl) (λ a. refl),
        )

  -- From consistent tables, any task is abandoned, and its current attempt with it.
  mark_abandoned-IsIn :
      (reason : String) (now later : ℕ)
      → IsConsistent db
      → get_task i db ≡ some t
      → ((mark_abandoned i reason now later db).0 ≡ ok tt)
        × IsIn i t.attempt_no abandoned (mark_abandoned i reason now later db).1
  unfolding mark_abandoned checked check_transition prepare_retry update_task
      record_attempt_terminal may_move ◌>>=◌
  mark_abandoned-IsIn reason now later c found =
      let (r, e, same) = get_task-found i db found in
      rw (found, any_of_find (has_id i) db.tasks e)
        (
          refl,
          ended-IsIn i t abandoned db c found _ _ (λ r. refl) (λ r. refl) (λ r. refl) (λ a. refl)
              (λ a. refl) (λ a. refl),
        )
