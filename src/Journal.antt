-- ===== src/Journal.antt =====
-- storage/journal.py: `JournalRepository`. The order of the table is the order of `id`.
pub mod Tail
use agpair.Base.{
  ℕ, String, Bool, true, false, not, ◌&&◌, ◌||◌, List, [], ◌∷◌, ◌++◌, if◌then◌else◌, length, select,
  delete_rows, take, reverse, ltb, ◌==◌,
}
use agpair.Models.{JournalRecord}
use agpair.Result.{ok}
use agpair.Db.{Db, Exec, modify}

-- INSERT INTO journal
unfoldable pub append : (task_id source event body classification : String) → ℕ → Exec (Unit {0})
append task_id source event body classification now = modify λ db. record db {
  journal =
      db.journal
      ++ record {
        task_id = task_id;
        source = source;
        event = event;
        body = body;
        created_at = now;
        classification = classification;
      }
        ∷ [];
}

-- WHERE created_at < ?
abbrev pub is_older : ℕ → JournalRecord → Bool
is_older cutoff r = ltb r.created_at cutoff

unfoldable pub delete_entries_older_than : ℕ → Exec ℕ
delete_entries_older_than cutoff db = (
  ok (length (select (is_older cutoff) db.journal)),
  record db { journal = delete_rows (is_older cutoff) db.journal },
)

unfoldable pub count_entries_older_than : ℕ → Db → ℕ
count_entries_older_than cutoff db = length (select (is_older cutoff) db.journal)

abbrev pub is_noise : String → Bool
is_noise classification = classification == "transient" || classification == "stale"

-- WHERE task_id = ? AND classification NOT IN ('transient', 'stale')
abbrev pub shown : String → Bool → JournalRecord → Bool
shown task_id exclude_noise r =
    r.task_id == task_id && (if exclude_noise then not (is_noise r.classification) else true)

-- ORDER BY id DESC LIMIT ?
unfoldable pub tail : String → ℕ → Bool → Db → List JournalRecord
tail task_id limit exclude_noise db =
    take limit (reverse (select (shown task_id exclude_noise) db.journal))
