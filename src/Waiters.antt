-- ===== src/Waiters.antt =====
-- storage/waiters.py: `WaiterRepository`. The identifier that `uuid4` makes for a new waiter is an argument
-- of `start_waiter`.
pub mod Active
pub mod Reach
pub mod Life
use agpair.Base.{
  ℕ, String, Bool, true, false, ◌&&◌, ◌||◌, List, [], ◌∷◌, ◌++◌, Option, none, some, if◌then◌else◌,
  any, find_row, select, sort_by, update_rows, ltb, ◌==◌,
}
use agpair.Models.{WaiterState, waiting, terminal, WaiterRecord}
use agpair.Result.{Error, ok}
use agpair.Db.{Db, Exec, raise, modify}

abbrev pub is_waiting : WaiterRecord → Bool
is_waiting w = elim w.state [ waiting ↦ true | terminal ↦ false ]

-- WHERE task_id=? AND state='waiting'
abbrev pub waits_for : String → WaiterRecord → Bool
waits_for task_id w = w.task_id == task_id && is_waiting w

-- WHERE waiter_id=?
abbrev pub has_waiter_id : String → WaiterRecord → Bool
has_waiter_id waiter_id w = w.waiter_id == waiter_id

abbrev pub new_waiter : (waiter_id task_id command : String) → ℕ → WaiterRecord
new_waiter waiter_id task_id command now = record {
  waiter_id = waiter_id;
  task_id = task_id;
  command = command;
  state = waiting;
  started_at = now;
  last_poll_at = now;
  finished_at = none;
  outcome = none;
}

-- the key of `waiters` is waiter_id, and `uq_waiters_active_task` is unique on task_id where the state
-- is 'waiting'
unfoldable pub start_waiter : (waiter_id task_id command : String) → ℕ → Exec WaiterRecord
start_waiter waiter_id task_id command now db =
    let w = new_waiter waiter_id task_id command now in
    if any (has_waiter_id waiter_id) db.waiters || any (waits_for task_id) db.waiters
    then raise Error.integrity_error db
    else (ok w, record db { waiters = db.waiters ++ w ∷ [] })

abbrev pub polled : ℕ → WaiterRecord → WaiterRecord
polled now w = record w { last_poll_at = now }

unfoldable pub update_poll : String → ℕ → Exec (Unit {0})
update_poll waiter_id now =
    modify
      λ db. record db { waiters = update_rows (has_waiter_id waiter_id) (polled now) db.waiters }

abbrev pub finalized : String → ℕ → WaiterRecord → WaiterRecord
finalized outcome now w = record w {
  state = terminal;
  finished_at = some now;
  outcome = some outcome;
}

unfoldable pub finalize : (waiter_id outcome : String) → ℕ → Exec (Unit {0})
finalize waiter_id outcome now = modify λ db. record db {
  waiters = update_rows (has_waiter_id waiter_id) (finalized outcome now) db.waiters;
}

unfoldable pub get_active_waiter : String → Db → Option WaiterRecord
get_active_waiter task_id db = find_row (waits_for task_id) db.waiters

unfoldable pub list_active_waiters : Db → List WaiterRecord
list_active_waiters db =
    sort_by (λ v w. ltb v.started_at w.started_at) (select is_waiting db.waiters)
