-- ===== src/Base/Members.antt =====
-- Which rows the table operations leave.
use mathlib.Core.Path.{◌≡◌, refl}
use mathlib.Core.Logic.{◌⊎◌, inl, inr}
use mathlib.Core.Bool.{Bool, true, false, ◌||◌}
use mathlib.Core.List.{List, [], ◌∷◌, ◌++◌, Memᴰ}
use mathlib.Core.Option.{Option, none, some}
use mathlib.Core.Option
use native.Mathlib.Omega.{arith}
use agpair.Base.Tests.{if◌then◌else◌, Bool-cases}
use agpair.Base.Lists.{any, find_row, select, update_rows, delete_rows, reverse}

module _ {ℓ} {A : Type ℓ} where
  -- A row after an UPDATE comes from a row before it.
  pub mem-update_rows :
      (p : A → Bool) (f : A → A) (xs : List A) {b : A}
      → Memᴰ b (update_rows p f xs)
      → (a : A) × Memᴰ a xs × (b ≡ (if p a then f a else a))
  mem-update_rows p f [] m = elim m [ ]
  mem-update_rows p f (x ∷ xs) (Memᴰ.head e) = (x, Memᴰ.head refl, e)
  mem-update_rows p f (x ∷ xs) (Memᴰ.tail m) =
      let (a, m', e) = mem-update_rows p f xs m in (a, Memᴰ.tail m', e)

  pub mem-append : (xs ys : List A) {b : A} → Memᴰ b (xs ++ ys) → Memᴰ b xs ⊎ Memᴰ b ys
  mem-append [] ys m = inr m
  mem-append (x ∷ xs) ys (Memᴰ.head e) = inl (Memᴰ.head e)
  mem-append (x ∷ xs) ys (Memᴰ.tail m) = elim (mem-append xs ys m) [
    | inl l ↦ inl (Memᴰ.tail l)
    | inr r ↦ inr r
  ]

  pub mem-single : {a b : A} → Memᴰ b (a ∷ []) → b ≡ a
  mem-single (Memᴰ.head e) = e
  mem-single (Memᴰ.tail m) = elim m [ ]

  mem_skip :
      (b : Bool) (x : A) {xs ys : List A} {a : A}
      → (Memᴰ a xs → Memᴰ a ys)
      → Memᴰ a (if b then xs else x ∷ xs)
      → Memᴰ a (x ∷ ys)
  mem_skip true x h m = Memᴰ.tail (h m)
  mem_skip false x h (Memᴰ.head e) = Memᴰ.head e
  mem_skip false x h (Memᴰ.tail m) = Memᴰ.tail (h m)

  -- DELETE leaves only rows that were there.
  pub mem-delete_rows : (p : A → Bool) (xs : List A) {a : A} → Memᴰ a (delete_rows p xs) → Memᴰ a xs
  mem-delete_rows p [] m = m
  mem-delete_rows p (x ∷ xs) m = mem_skip (p x) x (mem-delete_rows p xs) m

  find_head :
      (b : Bool) (x : A) (o : Option A) {a : A} (xs : List A)
      → (o ≡ some a → Memᴰ a xs)
      → (if b then some x else o) ≡ some a
      → Memᴰ a (x ∷ xs)
  find_head true x o xs h e = Memᴰ.head (cc)
  find_head false x o xs h e = Memᴰ.tail (h e)

  -- The row that a SELECT finds is in the table.
  pub mem-find_row : (p : A → Bool) (xs : List A) {a : A} → find_row p xs ≡ some a → Memᴰ a xs
  mem-find_row p [] e = absurd (ground arith)
  mem-find_row p (x ∷ xs) e = find_head (p x) x (find_row p xs) xs (mem-find_row p xs) e

  -- The row that a SELECT finds meets its condition.
  pub find_row-holds : (p : A → Bool) (xs : List A) {a : A} → find_row p xs ≡ some a → p a ≡ true
  find_row-holds p [] e = absurd (ground arith)
  find_row-holds p (x ∷ xs) e = elim (Bool-cases (p x)) [
    | inl y ↦ ground arith
    | inr n ↦ find_row-holds p xs (rw n at e)
  ]

  -- An UPDATE that keeps what the condition of a SELECT reads changes what it finds in place.
  pub find_row-update_rows :
      (q p : A → Bool) (f : A → A) (xs : List A)
      → ((a : A) → q (f a) ≡ q a)
      → find_row q (update_rows p f xs) ≡ Option.map (λ a. if p a then f a else a) (find_row q xs)
  find_row-update_rows q p f [] keeps = refl
  find_row-update_rows q p f (x ∷ xs) keeps =
      ground (arith, keeps x, find_row-update_rows q p f xs keeps)

  pub find_row-append :
      (q : A → Bool) (xs ys : List A)
      → find_row q (xs ++ ys) ≡ elim (find_row q xs) [ none ↦ find_row q ys | some a ↦ some a ]
  find_row-append q [] ys = refl
  find_row-append q (x ∷ xs) ys = ground (arith, find_row-append q xs ys)

  pub any-update_rows :
      (q p : A → Bool) (f : A → A) (xs : List A)
      → ((a : A) → q (f a) ≡ q a)
      → any q (update_rows p f xs) ≡ any q xs
  any-update_rows q p f [] keeps = refl
  any-update_rows q p f (x ∷ xs) keeps = ground (arith, keeps x, any-update_rows q p f xs keeps)

  pub any-append : (q : A → Bool) (xs ys : List A) → any q (xs ++ ys) ≡ (any q xs || any q ys)
  any-append q [] ys = refl
  any-append q (x ∷ xs) ys = ground (arith, any-append q xs ys)

  -- A condition that some row meets is met by a row in the table.
  pub mem_of_any :
      (q : A → Bool) (xs : List A) → any q xs ≡ true → (a : A) × Memᴰ a xs × (q a ≡ true)
  mem_of_any q [] h = absurd (ground arith)
  mem_of_any q (x ∷ xs) h = elim (Bool-cases (q x)) [
    | inl y ↦ (x, Memᴰ.head refl, y)
    | inr n ↦ let (a, m, e) = mem_of_any q xs (rw n at h) in (a, Memᴰ.tail m, e)
  ]

  pub find_row-none : (p : A → Bool) (xs : List A) → any p xs ≡ false → find_row p xs ≡ none
  find_row-none p [] h = refl
  find_row-none p (x ∷ xs) h = ground (arith, find_row-none p xs)

  pub any_of_mem : (q : A → Bool) (xs : List A) {a : A} → Memᴰ a xs → q a ≡ true → any q xs ≡ true
  any_of_mem q [] m h = elim m [ ]
  any_of_mem q (x ∷ xs) (Memᴰ.head e) h = ground arith
  any_of_mem q (x ∷ xs) (Memᴰ.tail m) h = ground (arith, any_of_mem q xs m h)

  pub find_of_any :
      (p : A → Bool) (xs : List A) → any p xs ≡ true → (a : A) × (find_row p xs ≡ some a)
  find_of_any p [] h = absurd (ground arith)
  find_of_any p (x ∷ xs) h = elim (Bool-cases (p x)) [
    | inl y ↦ (x, rw y)
    | inr n ↦ let (a, e) = find_of_any p xs (rw n at h) in (a, rw n e)
  ]

  pub any_of_find : (p : A → Bool) (xs : List A) {a : A} → find_row p xs ≡ some a → any p xs ≡ true
  any_of_find p [] h = absurd (ground arith)
  any_of_find p (x ∷ xs) h = elim (Bool-cases (p x)) [
    | inl y ↦ rw y
    | inr n ↦ rw n (any_of_find p xs (rw n at h))
  ]

  pub reverse-snoc : (xs : List A) (y : A) → reverse (xs ++ y ∷ []) ≡ y ∷ reverse xs
  reverse-snoc [] y = refl
  reverse-snoc (x ∷ xs) y = rw (reverse-snoc xs y)

  pub select-append :
      (p : A → Bool) (xs ys : List A) → select p (xs ++ ys) ≡ select p xs ++ select p ys
  select-append p [] ys = refl
  select-append p (x ∷ xs) ys = ground (arith, select-append p xs ys)

  -- Nothing that DELETE takes is left.
  pub select-delete_rows : (p : A → Bool) (xs : List A) → select p (delete_rows p xs) ≡ []
  select-delete_rows p [] = refl
  select-delete_rows p (x ∷ xs) = elim (Bool-cases (p x)) [
    | inl y ↦ rw y (select-delete_rows p xs)
    | inr n ↦ rw n (rw n (select-delete_rows p xs))
  ]

  -- An UPDATE that no row meets the condition after.
  pub any-update_rows-false :
      (q p : A → Bool) (f : A → A) (xs : List A)
      → ((a : A) → q (f a) ≡ false)
      → any q xs ≡ false
      → any q (update_rows p f xs) ≡ false
  any-update_rows-false q p f [] never h = refl
  any-update_rows-false q p f (x ∷ xs) never h =
      ground (arith, never x, any-update_rows-false q p f xs never)
