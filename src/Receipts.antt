-- ===== src/Receipts.antt =====
-- storage/receipts.py: `ReceiptRepository`.
pub mod Replay
use agpair.Base.{
  ℕ, String, Bool, true, false, ◌&&◌, ◌||◌, [], ◌∷◌, ◌++◌, Option, none, some, if◌then◌else◌, any,
  length, select, delete_rows, ltb, ◌==◌,
}
use agpair.Models.{ReceiptRow}
use agpair.Result.{ok}
use agpair.Db.{Db, Exec, pure}

abbrev pub has_message_id : String → ReceiptRow → Bool
has_message_id message_id r = r.message_id == message_id

-- `uq_receipts_task_delivery`: unique on (task_id, delivery_id) where the latter is not NULL
abbrev pub same_delivery : String → Option String → ReceiptRow → Bool
same_delivery task_id none r = false
same_delivery task_id (some d) r =
    r.task_id == task_id && elim r.delivery_id [ none ↦ false | some e ↦ e == d ]

-- `record`: whether the receipt was new. The keys of the table are the only constraints that the
-- INSERT can break.
unfoldable pub record_receipt : (message_id task_id status : String) → Option String → ℕ → Exec Bool
record_receipt message_id task_id status delivery_id now db =
    if any (has_message_id message_id) db.receipts
      || any (same_delivery task_id delivery_id) db.receipts
    then (ok false, db)
    else (
      ok true,
      record db {
        receipts =
            db.receipts
            ++ record {
              message_id = message_id;
              task_id = task_id;
              status = status;
              delivery_id = delivery_id;
              created_at = now;
            }
              ∷ [];
      },
    )

-- WHERE created_at < ?
abbrev pub is_older : ℕ → ReceiptRow → Bool
is_older cutoff r = ltb r.created_at cutoff

unfoldable pub delete_receipts_older_than : ℕ → Exec ℕ
delete_receipts_older_than cutoff db = (
  ok (length (select (is_older cutoff) db.receipts)),
  record db { receipts = delete_rows (is_older cutoff) db.receipts },
)

unfoldable pub count_receipts_older_than : ℕ → Db → ℕ
count_receipts_older_than cutoff db = length (select (is_older cutoff) db.receipts)
