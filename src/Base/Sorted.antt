-- ===== src/Base/Sorted.antt =====
-- The rows of a SELECT with ORDER BY, and the rows of the table.
use mathlib.Core.Path.{◌≡◌, refl, ap, ◌∙◌}
use mathlib.Core.Logic.{◌⊎◌, inl, inr}
use mathlib.Core.Bool.{Bool, true, false, ◌||◌}
use mathlib.Core.List.{List, [], ◌∷◌, Memᴰ, map}
use native.Mathlib.Omega.{arith}
use agpair.Base.Tests.{if◌then◌else◌}
use agpair.Base.Lists.{any, select, insert_by, sort_by}

module _ {ℓ} {A : Type ℓ} where
  -- A row that is kept, or one of those after it.
  mem-kept :
      (b : Bool) (x : A) (xs : List A) {a : A}
      → Memᴰ a (if b then x ∷ xs else xs)
      → ((a ≡ x) × (b ≡ true)) ⊎ Memᴰ a xs
  mem-kept true x xs (Memᴰ.head e) = inl (e, refl)
  mem-kept true x xs (Memᴰ.tail m) = inr m
  mem-kept false x xs m = inr m

  pub mem-select :
      (p : A → Bool) (xs : List A) {a : A} → Memᴰ a (select p xs) → Memᴰ a xs × (p a ≡ true)
  mem-select p [] m = elim m [ ]
  mem-select p (x ∷ xs) m = elim (mem-kept (p x) x (select p xs) m) [
    | inl (e, y) ↦ (Memᴰ.head e, ap p e ∙ y)
    | inr later ↦ let (m', y) = mem-select p xs later in (Memᴰ.tail m', y)
  ]

  mem-put :
      (b : Bool) (x y : A) (xs ys : List A) {a : A}
      → Memᴰ a (if b then y ∷ xs else x ∷ y ∷ ys)
      → (Memᴰ a xs → (a ≡ x) ⊎ Memᴰ a ys)
      → (a ≡ x) ⊎ Memᴰ a (y ∷ ys)
  mem-put true x y xs ys (Memᴰ.head e) k = inr (Memᴰ.head e)
  mem-put true x y xs ys (Memᴰ.tail m) k = elim (k m) [
    | inl e ↦ inl e
    | inr m' ↦ inr (Memᴰ.tail m')
  ]
  mem-put false x y xs ys (Memᴰ.head e) k = inl e
  mem-put false x y xs ys (Memᴰ.tail m) k = inr m

  mem-insert_by :
      (before : A → A → Bool) (x : A) (xs : List A) {a : A}
      → Memᴰ a (insert_by before x xs)
      → (a ≡ x) ⊎ Memᴰ a xs
  mem-insert_by before x [] (Memᴰ.head e) = inl e
  mem-insert_by before x [] (Memᴰ.tail m) = elim m [ ]
  mem-insert_by before x (y ∷ ys) m =
      mem-put (before y x) x y (insert_by before x ys) ys m (mem-insert_by before x ys)

  pub mem-sort_by :
      (before : A → A → Bool) (xs : List A) {a : A} → Memᴰ a (sort_by before xs) → Memᴰ a xs
  mem-sort_by before [] m = m
  mem-sort_by before (x ∷ xs) m = elim (mem-insert_by before x (sort_by before xs) m) [
    | inl e ↦ Memᴰ.head e
    | inr later ↦ Memᴰ.tail (mem-sort_by before xs later)
  ]

  pub any-insert_by :
      (q : A → Bool) (before : A → A → Bool) (x : A) (xs : List A)
      → any q (insert_by before x xs) ≡ (q x || any q xs)
  any-insert_by q before x [] = refl
  any-insert_by q before x (y ∷ ys) = ground (arith, any-insert_by q before x ys)

  pub any-sort_by :
      (q : A → Bool) (before : A → A → Bool) (xs : List A) → any q (sort_by before xs) ≡ any q xs
  any-sort_by q before [] = refl
  any-sort_by q before (x ∷ xs) =
      any-insert_by q before x (sort_by before xs) ∙ ap (λ b. q x || b) (any-sort_by q before xs)

  pub any-select : (q p : A → Bool) (xs : List A) → any q xs ≡ false → any q (select p xs) ≡ false
  any-select q p [] h = refl
  any-select q p (x ∷ xs) h = ground (arith, any-select q p xs)

pub mem-map {ℓ κ} :
    {A : Type ℓ} {B : Type κ} (f : A → B) (xs : List A) {b : B}
    → Memᴰ b (map f xs)
    → (a : A) × Memᴰ a xs × (b ≡ f a)
mem-map f [] m = elim m [ ]
mem-map f (x ∷ xs) (Memᴰ.head e) = (x, Memᴰ.head refl, e)
mem-map f (x ∷ xs) (Memᴰ.tail m) = let (a, m', e) = mem-map f xs m in (a, Memᴰ.tail m', e)
