-- ===== src/Base/Signed.antt =====
-- Whole numbers with a sign, and the floating numbers of seconds that a budget holds.
use Prim.Native.Nat.{ℕ}
use mathlib.Core.Bool.{Bool, true, false}
use mathlib.Core.Option.{Option, none, some}
use agpair.Base.Tests.{ltb}

-- `negsuc n` is -(n + 1).
pub data ℤ : Type 0 where
  pos : ℕ → ℤ
  negsuc : ℕ → ℤ

-- x < m for a bound m that is not negative
abbrev pub is_below : ℤ → ℕ → Bool
is_below (pos n) m = ltb n m
is_below (negsuc n) m = true

-- A `float`: a finite one in thousandths, or what is no finite number.
pub data Seconds : Type 0 where
  thousandths : ℤ → Seconds
  infinity minus_infinity nan : Seconds

-- x < m for a bound of m thousandths: no comparison with a NaN holds
abbrev pub is_less : Seconds → ℕ → Bool
is_less (thousandths n) m = is_below n m
is_less minus_infinity m = true
is_less infinity m = false
is_less nan m = false

-- what a REAL column holds of a value that is bound to it: SQLite stores a NaN as NULL
abbrev pub stored : Option Seconds → Option Seconds
stored none = none
stored (some nan) = none
stored (some value) = some value
