-- ===== src/Tasks/Watch.antt =====
-- storage/tasks.py: the queries that the daemon's timeouts rest on.
use agpair.Base.{
  ℕ, Bool, true, ◌≡◌, refl, ap, ◌⊎◌, inl, inr, List, [], ◌∷◌, select, insert_by, sort_by, map, ltb,
  leb, Bool-cases, arith, Memᴰ,
}
use agpair.Models.{TaskRow, TaskRecord}
use agpair.Db.{Db}
use agpair.Tasks.Select.{task_from_row}
use agpair.Tasks.Queries.{
  plain, is_stale, is_watched, list_stale_acked_tasks, list_watchdog_candidates,
}

module _ {A : Type 0} where
  mem-insert_by :
      (before : A → A → Bool) (x : A) (ys : List A) {a : A}
      → Memᴰ a (insert_by before x ys)
      → (a ≡ x) ⊎ Memᴰ a ys
  mem-insert_by before x [] (Memᴰ.head e) = inl e
  mem-insert_by before x [] (Memᴰ.tail m) = elim m [ ]
  mem-insert_by before x (y ∷ ys) m = elim (Bool-cases (before y x)) [
    | inr n ↦ placed x (y ∷ ys) (rw n at m)
    | inl b ↦ passed (mem-insert_by before x ys) (rw b at m)
  ]
    where
      placed : (x : A) (ys : List A) {a : A} → Memᴰ a (x ∷ ys) → (a ≡ x) ⊎ Memᴰ a ys
      placed x ys (Memᴰ.head e) = inl e
      placed x ys (Memᴰ.tail m) = inr m

      passed :
          {zs ys : List A} {a y x : A}
          → (Memᴰ a zs → (a ≡ x) ⊎ Memᴰ a ys)
          → Memᴰ a (y ∷ zs)
          → (a ≡ x) ⊎ Memᴰ a (y ∷ ys)
      passed h (Memᴰ.head e) = inr (Memᴰ.head e)
      passed h (Memᴰ.tail m) = elim (h m) [ inl e ↦ inl e | inr k ↦ inr (Memᴰ.tail k) ]

  mem-sort_by :
      (before : A → A → Bool) (xs : List A) {a : A} → Memᴰ a (sort_by before xs) → Memᴰ a xs
  mem-sort_by before [] m = m
  mem-sort_by before (x ∷ xs) m = elim (mem-insert_by before x (sort_by before xs) m) [
    | inl e ↦ Memᴰ.head e
    | inr k ↦ Memᴰ.tail (mem-sort_by before xs k)
  ]

  select-holds : (p : A → Bool) (xs : List A) {a : A} → Memᴰ a (select p xs) → p a ≡ true
  select-holds p [] m = elim m [ ]
  select-holds p (x ∷ xs) m = elim (Bool-cases (p x)) [
    | inr n ↦ select-holds p xs (rw n at m)
    | inl y ↦ first y (select-holds p xs) (rw y at m)
  ]
    where
      first :
          {x : A} {ys : List A} {a : A}
          → p x ≡ true
          → (Memᴰ a ys → p a ≡ true)
          → Memᴰ a (x ∷ ys)
          → p a ≡ true
      first y h (Memᴰ.head e) = rw e y
      first y h (Memᴰ.tail m) = h m

mem-map :
    (f : TaskRow → TaskRecord) (rs : List TaskRow) {t : TaskRecord}
    → Memᴰ t (map f rs)
    → (r : TaskRow) × Memᴰ r rs × (t ≡ f r)
mem-map f [] m = elim m [ ]
mem-map f (r ∷ rs) (Memᴰ.head e) = (r, Memᴰ.head refl, e)
mem-map f (r ∷ rs) (Memᴰ.tail m) = let (s, k, e) = mem-map f rs m in (s, Memᴰ.tail k, e)

-- What a sorted selection returns meets the condition.
listed :
    (before : TaskRow → TaskRow → Bool) (p : TaskRow → Bool) (rs : List TaskRow) (t : TaskRecord)
    → Memᴰ t (map plain (sort_by before (select p rs)))
    → (r : TaskRow) × (p r ≡ true) × (t ≡ plain r)
listed before p rs t m =
    let (r, k, e) = mem-map plain (sort_by before (select p rs)) m in
    (r, select-holds p rs (mem-sort_by before (select p rs) k), e)

plain-fields :
    (r : TaskRow) → ((plain r).phase ≡ r.phase) × ((plain r).last_activity_at ≡ r.last_activity_at)
unfolding task_from_row
plain-fields r = (refl, refl)

stale_since :
    (cutoff : ℕ) (r : TaskRow) → is_stale cutoff r ≡ true → ltb r.last_activity_at cutoff ≡ true
stale_since cutoff r h = ground arith

watched_since :
    (w cutoff : ℕ) (r : TaskRow)
    → is_watched w cutoff r ≡ true
    → leb cutoff r.last_activity_at ≡ true
watched_since w cutoff r h = ground arith

-- With the same hard cutoff, no task is stale and a candidate of the watchdog at once.
pub stale_not_watched :
    (watchdog_cutoff hard_cutoff : ℕ) (db : Db) (t : TaskRecord)
    → Memᴰ t (list_stale_acked_tasks hard_cutoff db)
    → ¬ Memᴰ t (list_watchdog_candidates watchdog_cutoff hard_cutoff db)
unfolding list_stale_acked_tasks list_watchdog_candidates
stale_not_watched watchdog_cutoff hard_cutoff db t m k =
    let (r, p, e) = listed _ _ db.tasks t m in
    let (s, q, f) = listed _ _ db.tasks t k in
    let same : r.last_activity_at ≡ s.last_activity_at = cc (
      (plain-fields r).1,
      (plain-fields s).1,
      ap (λ x. x.last_activity_at) e,
      ap (λ x. x.last_activity_at) f,
    ) in
    ground (arith, stale_since hard_cutoff r p, watched_since watchdog_cutoff hard_cutoff s q, same)
