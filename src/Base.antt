-- ===== src/Base.antt =====
-- The names that every other module shares: the libraries' and those of the children.
mod Tests
mod Lists
mod Text
pub mod Append
pub mod Chain
pub mod Members
pub mod Signed
pub mod Sorted
pub mod Selected
pub use Tests.*
pub use Lists.*
unfoldable pub use Text.{is_space, lstrip, strip, rstrip, lower, upper, replace_char, splitlines}
pub use Text.{
  elem, alias, truthy, or_default, or_option, take_chars, starts_with, contains, any_contained,
}
pub use Prim.Native.Nat.{ℕ, zero, suc, ◌+◌, ◌-◌, ◌*◌, ◌/◌, ◌≤◌, ◌<◌}
pub use Prim.Native.String.{String}
pub use mathlib.Core.Path.{◌≡◌, refl, sym, ap, ◌∙◌, subst}
pub use mathlib.Core.Logic.{◌≢◌, ◌↔◌, ◌⊎◌, inl, inr}
pub use mathlib.Core.Bool.{Bool, true, false, not, ◌&&◌, ◌||◌}
pub use mathlib.Core.Option.{Option, none, some}
pub use mathlib.Core.List.{List, [], ◌∷◌, ◌++◌, map, Memᴰ}
pub use native.Mathlib.Omega.{arith}
pub use text.Mathlib.Text.{◌==◌}
pub use text.Mathlib.TextEquality.{eq_iff}
pub use text.Mathlib.TextPositions.{eq_refl}
