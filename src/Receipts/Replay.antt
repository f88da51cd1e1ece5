-- ===== src/Receipts/Replay.antt =====
-- storage/receipts.py: that a receipt is recorded once, and what the cleanup deletes.
use agpair.Base.{
  ℕ, String, Bool, true, false, ◌≡◌, refl, ap, inl, inr, ◌⊎◌, [], ◌∷◌, ◌++◌, ◌||◌, Option, some,
  any, Bool-cases, eq_refl, arith,
}
use agpair.Base.Members.{any-append, select-delete_rows}
use agpair.Models.{ReceiptRow}
use agpair.Result.{ok}
use agpair.Db.{Db}
use agpair.Receipts.{
  has_message_id, same_delivery, record_receipt, is_older, delete_receipts_older_than,
  count_receipts_older_than,
}

-- what the keys of the table refuse
abbrev known : (m t : String) → Option String → Db → Bool
known m t d db = any (has_message_id m) db.receipts || any (same_delivery t d) db.receipts

refusal :
    (m t s : String) (d : Option String) (now : ℕ) (after : Db)
    → known m t d after ≡ true
    → record_receipt m t s d now after ≡ (ok false, after)
unfolding record_receipt
refusal m t s d now after h = rw h

module _ (m t s : String) (d : Option String) (now : ℕ) (db : Db) where
  abbrev row : ReceiptRow
  row = record { message_id = m; task_id = t; status = s; delivery_id = d; created_at = now }

  abbrev recorded : Db
  recorded = record db { receipts = db.receipts ++ row ∷ [] }

  refused : known m t d db ≡ true → record_receipt m t s d now db ≡ (ok false, db)
  unfolding record_receipt
  refused h = rw h

  accepted : known m t d db ≡ false → record_receipt m t s d now db ≡ (ok true, recorded)
  unfolding record_receipt
  accepted h = rw h

  known-message : (t' : String) (d' : Option String) → known m t' d' recorded ≡ true
  known-message t' d' =
      rw (any-append (has_message_id m) db.receipts (row ∷ []), eq_refl m) (ground arith)

  known-delivery : (m' e : String) → d ≡ some e → known m' t (some e) recorded ≡ true
  known-delivery m' e same =
      rw (any-append (same_delivery t (some e)) db.receipts (row ∷ []), same, eq_refl t, eq_refl e)
        (ground arith)

  -- A receipt that was recorded, or that was not new, is not new when it comes again, whatever its
  -- status: the second call returns False and writes nothing.
  pub record_receipt-replay :
      (s' : String) (now' : ℕ)
      → record_receipt m t s' d now' (record_receipt m t s d now db).1
        ≡ (ok false, (record_receipt m t s d now db).1)
  record_receipt-replay s' now' = elim (Bool-cases (known m t d db)) [
    | inl old ↦ rw (refused old) (refusal m t s' d now' db old)
    | inr fresh ↦ rw (accepted fresh) (refusal m t s' d now' recorded (known-message t d))
  ]

-- After a receipt was recorded as new, one that has its message id, or its task and delivery id,
-- returns False and writes nothing.
pub record_receipt-collision :
    (m t s : String) (d : Option String) (now : ℕ) (db : Db) (m' t' s' e : String)
    (d' : Option String) (now' : ℕ)
    → (record_receipt m t s d now db).0 ≡ ok true
    → (m' ≡ m) ⊎ ((t' ≡ t) × (d' ≡ some e) × (d ≡ some e))
    → record_receipt m' t' s' d' now' (record_receipt m t s d now db).1
      ≡ (ok false, (record_receipt m t s d now db).1)
record_receipt-collision m t s d now db m' t' s' e d' now' new same =
    elim (Bool-cases (known m t d db)) [
      | inl old ↦ absurd (cc (new, ap (λ r. r.0) (refused m t s d now db old)))
      | inr fresh ↦ rw (accepted m t s d now db fresh) (
          refusal m' t' s' d' now' (recorded m t s d now db) (elim same [
            | inl p ↦ rw p (known-message m t s d now db t' d')
            | inr (p, q, r) ↦ rw (p, q) (known-delivery m t s d now db m' e r)
          ]))
    ]

-- The cleanup of the receipts reports as many as the count announced, and leaves none to count.
delete_receipts-count :
    (cutoff : ℕ) (db : Db)
    → ((delete_receipts_older_than cutoff db).0 ≡ ok (count_receipts_older_than cutoff db))
      × (count_receipts_older_than cutoff (delete_receipts_older_than cutoff db).1 ≡ 0)
unfolding delete_receipts_older_than count_receipts_older_than
delete_receipts-count cutoff db = (refl, rw (select-delete_rows (is_older cutoff) db.receipts))
