-- ===== src/Samples/RecordSamples.antt =====
-- storage/waiters.py, storage/receipts.py and storage/journal.py at concrete tables.
use agpair.Base.{true, false, ◌≡◌, refl, inr, ◌∷◌, none, some}
use agpair.Result.{Error, ok, err}
use agpair.Db.{Db, empty}
use agpair.Waiters.{polled, update_poll, new_waiter, start_waiter, finalize, get_active_waiter}
use agpair.Waiters.Active.{OneActive}
use agpair.Waiters.Reach.{Step, Reachable, Reachable-OneActive}
use agpair.Waiters.Life.{start_waiter-life}
use agpair.Receipts.{record_receipt}
use agpair.Receipts.Replay.{record_receipt-replay, record_receipt-collision}
use agpair.Journal.{append, tail}
use agpair.Journal.Tail.{tail-append}

-- a waiter started, and then another one refused
two_starts :
    Reachable
      (start_waiter "W-2" "TASK-1" "wait" 7 (start_waiter "W-1" "TASK-1" "wait" 5 empty).1).1
two_starts =
    Reachable.afterwards
      (Reachable.afterwards Reachable.initially (Step.start "W-1" "TASK-1" "wait" 5))
      (Step.start "W-2" "TASK-1" "wait" 7)

Reachable-OneActive_example :
    OneActive
      (start_waiter "W-2" "TASK-1" "wait" 7
        (start_waiter "W-1" "TASK-1" "wait" 5 empty).1).1.waiters
Reachable-OneActive_example =
    Reachable-OneActive
      (start_waiter "W-2" "TASK-1" "wait" 7 (start_waiter "W-1" "TASK-1" "wait" 5 empty).1).1
      two_starts

first_start :
    (start_waiter "W-1" "TASK-1" "wait" 5 empty).0 ≡ ok (new_waiter "W-1" "TASK-1" "wait" 5)
unfolding start_waiter
first_start = refl

abbrev polled_db : Db
polled_db = (update_poll "W-1" 8 (start_waiter "W-1" "TASK-1" "wait" 5 empty).1).1

polled_one : OneActive polled_db.waiters
polled_one = Reachable-OneActive polled_db (
    Reachable.afterwards
      (Reachable.afterwards Reachable.initially (Step.start "W-1" "TASK-1" "wait" 5))
      (Step.poll "W-1" 8))

still_active :
    get_active_waiter "TASK-1" polled_db ≡ some (polled 8 (new_waiter "W-1" "TASK-1" "wait" 5))
unfolding get_active_waiter update_poll start_waiter
still_active = refl

start_waiter-life_example :
    (get_active_waiter "TASK-1" (start_waiter "W-1" "TASK-1" "wait" 5 empty).1
      ≡ some (new_waiter "W-1" "TASK-1" "wait" 5))
    × (start_waiter "W-2" "TASK-1" "start" 7 polled_db ≡ (err Error.integrity_error, polled_db))
    × (get_active_waiter "TASK-1" (finalize "W-1" "done" 9 polled_db).1 ≡ none)
start_waiter-life_example =
    start_waiter-life "W-1" "TASK-1" "wait" 5 empty polled_db "W-2" "start" "done" 7 9
      (new_waiter "W-1" "TASK-1" "wait" 5) (polled 8 (new_waiter "W-1" "TASK-1" "wait" 5))
      first_start polled_one still_active

record_receipt-replay_example :
    record_receipt "M-1" "TASK-1" "BLOCKED"
      (some "D-1")
      6
      (record_receipt "M-1" "TASK-1" "COMMITTED" (some "D-1") 5 empty).1
    ≡ (ok false, (record_receipt "M-1" "TASK-1" "COMMITTED" (some "D-1") 5 empty).1)
record_receipt-replay_example =
    record_receipt-replay "M-1" "TASK-1" "COMMITTED" (some "D-1") 5 empty "BLOCKED" 6

first_receipt : (record_receipt "M-1" "TASK-1" "COMMITTED" (some "D-1") 5 empty).0 ≡ ok true
unfolding record_receipt
first_receipt = refl

record_receipt-collision_example :
    record_receipt "M-2" "TASK-1" "COMMITTED"
      (some "D-1")
      6
      (record_receipt "M-1" "TASK-1" "COMMITTED" (some "D-1") 5 empty).1
    ≡ (ok false, (record_receipt "M-1" "TASK-1" "COMMITTED" (some "D-1") 5 empty).1)
record_receipt-collision_example =
    record_receipt-collision "M-1" "TASK-1" "COMMITTED" (some "D-1") 5 empty "M-2" "TASK-1"
      "COMMITTED" "D-1" (some "D-1") 6 first_receipt (inr (refl, refl, refl))

abbrev logged : Db
logged = (append "TASK-1" "cli" "created" "go" "normal" 3 empty).1

tail-append_example :
    tail "TASK-1" 2 true (append "TASK-1" "daemon" "acked" "S-1" "normal" 5 logged).1
    ≡ record {
      task_id = "TASK-1";
      source = "daemon";
      event = "acked";
      body = "S-1";
      created_at = 5;
      classification = "normal";
    }
      ∷ tail "TASK-1" 1 true logged
tail-append_example = tail-append "TASK-1" "TASK-1" "daemon" "acked" "S-1" "normal" 5 1 true logged
