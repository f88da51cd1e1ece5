-- ===== src/Base/Chain.antt =====
-- Python's chains of early returns of `None`: the bind of Option, guards, and their inversion.
use mathlib.Core.Path.{◌≡◌, refl}
use mathlib.Core.Bool.{Bool, true, false}
use mathlib.Core.Option.{Option, none, some}
use mathlib.Core.Logic.{◌⊎◌, inl, inr}
use native.Mathlib.Omega.{arith}
use agpair.Base.Tests.{if◌then◌else◌}

infixl 5 ◌>>=◌ ◌>>◌
unfoldable pub ◌>>=◌ {ℓ κ} : {A : Type ℓ} {B : Type κ} → Option A → (A → Option B) → Option B
none >>= f = none
some a >>= f = f a

abbrev pub ◌>>◌ {ℓ κ} : {A : Type ℓ} {B : Type κ} → Option A → Option B → Option B
m >> k = m >>= λ _. k

-- `if not b: return None`
abbrev pub require : Bool → Option (Unit {0})
require true = some tt
require false = none

-- A chain that returns something came through its first step.
pub chain-some {ℓ κ} :
    {A : Type ℓ} {B : Type κ} {m : Option A} {f : A → Option B} {b : B}
    → (m >>= f) ≡ some b
    → (a : A) × (m ≡ some a) × (f a ≡ some b)
unfolding ◌>>=◌
chain-some {m = none} e = absurd (ground arith)
chain-some {m = some a} e = (a, refl, e)

pub require-some {ℓ} :
    {A : Type ℓ} {b : Bool} {k : Option A} {a : A}
    → (require b >>= λ _. k) ≡ some a
    → (b ≡ true) × (k ≡ some a)
unfolding ◌>>=◌
require-some {b = true} e = (refl, e)
require-some {b = false} e = absurd (ground arith)

-- the first of two that is there
infixr 4 ◌<|>◌
unfoldable pub ◌<|>◌ {ℓ} : {A : Type ℓ} → Option A → Option A → Option A
none <|> k = k
some a <|> k = some a

pub or-some {ℓ} :
    {A : Type ℓ} {m k : Option A} {a : A} → (m <|> k) ≡ some a → (m ≡ some a) ⊎ (k ≡ some a)
unfolding ◌<|>◌
or-some {m = none} e = inr e
or-some {m = some a} e = inl e

-- `if m is not None: return f(m)`, and else what comes after
unfoldable pub if_some {ℓ κ} : {A : Type ℓ} {B : Type κ} → Option A → (A → B) → B → B
if_some none f k = k
if_some (some a) f k = f a

pub if_some-rule {ℓ κ ι} :
    {A : Type ℓ} {B : Type κ} (P : B → Type ι) (m : Option A) (f : A → B) (k : B)
    → ((a : A) → m ≡ some a → P (f a))
    → P k
    → P (if_some m f k)
unfolding if_some
if_some-rule P none f k here after = after
if_some-rule P (some a) f k here after = here a refl

pub if-rule {ℓ κ} :
    {B : Type ℓ} (P : B → Type κ) (b : Bool) (x y : B)
    → (b ≡ true → P x)
    → (b ≡ false → P y)
    → P (if b then x else y)
if-rule P true x y h k = h refl
if-rule P false x y h k = k refl
