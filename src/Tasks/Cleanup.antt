-- ===== src/Tasks/Cleanup.antt =====
-- storage/tasks.py: what the cleanup counts and deletes, and what it leaves behind.
use agpair.Base.{ℕ, true, ◌≡◌, ◌≢◌, refl, ap, some, any, find_row, arith, eq_iff, subst}
use agpair.Base.Members.{mem-find_row, find_row-holds, select-delete_rows, mem_of_any}
use agpair.Models.{TaskRow, TaskAttemptRecord}
use agpair.Result.{Result, ok, err}
use agpair.Db.{Db, Exec, ◌>>=◌, lift}
use agpair.Tasks.Select.{has_id, is_attempt}
use agpair.Tasks.Create.{NewTask, create_task, insert_both}
use agpair.Tasks.Mark.{is_old, delete_terminal_older_than, count_terminal_older_than}
use agpair.Tasks.Consistent.{IsConsistent}
use agpair.Tasks.Inserted.{insert_both_attempt}

-- The cleanup of the tasks reports as many as the count announced, and leaves none to count.
delete_terminal-count :
    (cutoff : ℕ) (db : Db)
    → ((delete_terminal_older_than cutoff db).0 ≡ ok (count_terminal_older_than cutoff db))
      × (count_terminal_older_than cutoff (delete_terminal_older_than cutoff db).1 ≡ 0)
unfolding delete_terminal_older_than count_terminal_older_than
delete_terminal-count cutoff db = (refl, rw (select-delete_rows (is_old cutoff) db.tasks))

never_ok {ℓ} :
    {A : Type ℓ} (r : Result A) (f : A → Exec (Unit {0})) (db : Db) (u : Unit {0})
    → ((a : A) → (f a db).0 ≢ ok u)
    → ((lift r >>= f) db).0 ≢ ok u
unfolding ◌>>=◌
never_ok (ok a) f db u no_result = no_result a
never_ok (err e) f db u no_result = λ h. cc

refused :
    (r : TaskRow) (a : TaskAttemptRecord) (db : Db) (u : Unit {0})
    → any (is_attempt a.task_id a.attempt_no) db.attempts ≡ true
    → (insert_both r a db).0 ≢ ok u
refused r a db u h e = cc (e, ap (λ x. x.0) (insert_both_attempt r a db h))

create_task-refused :
    (a : NewTask) (now : ℕ) (db : Db) (u : Unit {0})
    → any (is_attempt a.task_id 1) db.attempts ≡ true
    → (create_task a now db).0 ≢ ok u
unfolding create_task
create_task-refused a now db u h = never_ok _ _ db u λ _.
    never_ok _ _ db u
      λ _. never_ok _ _ db u λ _. never_ok _ _ db u λ _. never_ok _ _ db u λ _. refused _ _ db u h

-- The cleanup leaves the attempts of the tasks that it deletes: from consistent tables, a task cannot be
-- created after it with the id of any task that was there before it.
pub create_task-after_cleanup :
    (a : NewTask) (now cutoff : ℕ) (db : Db) (r : TaskRow) (u : Unit {0})
    → IsConsistent db
    → find_row (has_id a.task_id) db.tasks ≡ some r
    → (create_task a now (delete_terminal_older_than cutoff db).1).0 ≢ ok u
unfolding delete_terminal_older_than
create_task-after_cleanup a now cutoff db r u c e =
    let m = mem-find_row (has_id a.task_id) db.tasks e in
    let (b, m', key) = mem_of_any _ db.attempts (c.current_exists r m) in
    let mine : r.task_id ≡ a.task_id =
      (eq_iff _ _).0 (find_row-holds (has_id a.task_id) db.tasks e) in
    let same : b.task_id ≡ a.task_id = ground (arith, mine, eq_iff b.task_id r.task_id) in
    create_task-refused a now (delete_terminal_older_than cutoff db).1 u
      (subst (λ i. any (is_attempt i 1) db.attempts ≡ true) same (c.first_exists b m'))
