-- ===== src/Base/Selected.antt =====
-- Texts that a filter leaves.
use mathlib.Core.Path.{◌≡◌, refl, ap}
use mathlib.Core.Logic.{inl, inr}
use mathlib.Core.Bool.{Bool, ◌&&◌}
use mathlib.Core.List.{List, [], ◌∷◌}
use native.Mathlib.Omega.{arith}
use Prim.Native.String.{String}
use agpair.Base.Tests.{Bool-cases}
use agpair.Base.Lists.{select}
use text.Mathlib.Text.{◌==◌}
use text.Mathlib.TextEquality.{eq_iff}
use agpair.Base.Text.{elem}

selected_here :
    (p : String → Bool) (x k : String) (xs : List String)
    → k ≡ x
    → elem x (select p xs) ≡ (elem x xs && p x)
    → elem x (select p (k ∷ xs)) ≡ (elem x (k ∷ xs) && p x)
selected_here p x k xs e ih = ground (arith, ap p e, (eq_iff k x).1 e)

pub elem-select :
    (p : String → Bool) (x : String) (xs : List String) → elem x (select p xs) ≡ (elem x xs && p x)
elem-select p x [] = refl
elem-select p x (k ∷ xs) = elim (Bool-cases (k == x)) [
  | inl y ↦ selected_here p x k xs ((eq_iff k x).0 y) (elem-select p x xs)
  | inr n ↦ ground (arith, elem-select p x xs)
]
