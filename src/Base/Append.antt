-- ===== src/Base/Append.antt =====
-- How the concatenation of texts goes with their constructors and first characters, and their equality.
use Prim.Native.Char.{Char}
use Prim.Native.String.append
use Prim.Native.String.{String, ◌++◌}
use mathlib.Core.Path.{◌≡◌, sym}
use mathlib.Core.Bool.{true, false}
use native.Mathlib.Omega.{arith}
use mathlib.Core.Logic.{inl, inr}
use text.Mathlib.Text.{◌==◌}
use text.Mathlib.TextEquality.{eq_iff}
use agpair.Base.Tests.{Bool-cases}
use agpair.Base.Text.{starts_with}

pub cons-append : (c : Char) (s t : String) → String.◌∷◌ c s ++ t ≡ String.◌∷◌ c (s ++ t)
cons-append c s t = λ i. append.cons c s t i

pub nil-append : (t : String) → String.[] ++ t ≡ t
nil-append t = λ i. append.nil t i

-- A text keeps its first character when more is appended.
pub starts-append :
    (c : Char) (s t : String)
    → starts_with s (String.◌∷◌ c String.[]) ≡ true
    → starts_with (s ++ t) (String.◌∷◌ c String.[]) ≡ true
starts-append c String.[] t h = absurd (ground arith)
starts-append c (String.◌∷◌ d s) t h = rw (cons-append d s t) (ground arith)

-- Two texts differ in either order.
pub differ_sym : (s t : String) → (s == t) ≡ false → (t == s) ≡ false
differ_sym s t n = elim (Bool-cases (t == s)) [
  | inl y ↦ absurd (ground (arith, (eq_iff s t).1 (sym ((eq_iff t s).0 y))))
  | inr n ↦ n
]
