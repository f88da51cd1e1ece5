-- ===== src/Journal/Tail.antt =====
-- storage/journal.py: what `tail` shows after `append`, and what the cleanup deletes.
use agpair.Base.{
  ℕ, suc, String, Bool, ◌≡◌, refl, inl, inr, List, [], ◌∷◌, ◌++◌, if◌then◌else◌, select, Bool-cases,
}
use agpair.Base.Members.{reverse-snoc, select-append, select-delete_rows}
use agpair.Models.{JournalRecord}
use agpair.Result.{ok}
use agpair.Db.{Db}
use agpair.Journal.{
  append, is_older, delete_entries_older_than, count_entries_older_than, shown, tail,
}

abbrev entry : (task_id source event body classification : String) → ℕ → JournalRecord
entry i source event body classification now = record {
  task_id = i;
  source = source;
  event = event;
  body = body;
  created_at = now;
  classification = classification;
}

append_nil : (xs : List JournalRecord) → xs ++ [] ≡ xs
append_nil [] = refl
append_nil (x ∷ xs) = rw (append_nil xs)

-- An entry that is appended heads the tail of the journal if the tail shows it, with as many older
-- entries as the limit leaves, and otherwise the tail is as before.
pub tail-append :
    (i j source event body classification : String) (now limit : ℕ) (quiet : Bool) (db : Db)
    → tail j (suc limit) quiet (append i source event body classification now db).1 ≡ (
        if shown j quiet (entry i source event body classification now)
        then entry i source event body classification now ∷ tail j limit quiet db
        else tail j (suc limit) quiet db)
unfolding tail append
tail-append i j source event body classification now limit quiet db =
    let r = entry i source event body classification now in
    let p = shown j quiet in
    elim (Bool-cases (p r)) [
      | inl y ↦ rw (select-append p db.journal (r ∷ []), y, reverse-snoc (select p db.journal) r)
      | inr n ↦ rw (select-append p db.journal (r ∷ []), n, append_nil (select p db.journal))
    ]

-- The cleanup of the journal reports as many entries as the count announced, and leaves none to count.
delete_entries-count :
    (cutoff : ℕ) (db : Db)
    → ((delete_entries_older_than cutoff db).0 ≡ ok (count_entries_older_than cutoff db))
      × (count_entries_older_than cutoff (delete_entries_older_than cutoff db).1 ≡ 0)
unfolding delete_entries_older_than count_entries_older_than
delete_entries-count cutoff db = (refl, rw (select-delete_rows (is_older cutoff) db.journal))
