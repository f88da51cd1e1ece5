-- ===== src/Json.antt =====
-- The values that `json.loads` returns, and what Python does with them: `get` and `in` on a mapping,
-- `isinstance`, the truth value and `str`.
pub mod Laws
use Prim.Native.String.{◌++◌, slice}
use Prim.Native.Nat.{◌%◌}
use agpair.Base.{
  ℕ, zero, suc, ◌/◌, String, Bool, true, false, not, ◌||◌, Option, none, some, ◌==◌, ltb,
  if◌then◌else◌,
}
use agpair.Base.Signed.{ℤ, pos, negsuc}

-- `floating` keeps the text that `str` gives of the number. A mapping has each key once.
mutual
  pub data Json : Type 0 where
    null : Json
    boolean : Bool → Json
    integer : ℤ → Json
    floating : String → Json
    text : String → Json
    array : Items → Json
    object : Fields → Json

  pub data Items : Type 0 where
    nil : Items
    cons : Json → Items → Items

  pub data Fields : Type 0 where
    end : Fields
    field : String → Json → Fields → Fields

-- `key in d`
abbrev pub has : String → Fields → Bool
has key end = false
has key (field k v d) = k == key || has key d

-- `d.get(key)`: a key that is missing reads as `None`
abbrev pub get : String → Fields → Json
get key end = null
get key (field k v d) = let rest = get key d in if k == key then v else rest

-- `d[key] = v`
abbrev pub put : String → Json → Fields → Fields
put key v end = field key v end
put key v (field k w d) =
    let rest = field k w (put key v d) in if k == key then field k v d else rest

-- `isinstance(value, str)`, `isinstance(value, dict)` and `isinstance(value, bool)`
abbrev pub as_text : Json → Option String
as_text (text s) = some s
as_text _ = none

abbrev pub as_object : Json → Option Fields
as_object (object d) = some d
as_object _ = none

-- an `int` that is not a `bool`
abbrev pub as_integer : Json → Option ℤ
as_integer (integer n) = some n
as_integer _ = none

abbrev pub is_null : Json → Bool
is_null null = true
is_null _ = false

-- `value is b`
abbrev pub is_boolean : Bool → Json → Bool
is_boolean true (boolean true) = true
is_boolean false (boolean false) = true
is_boolean _ _ = false

abbrev is_zero : ℤ → Bool
is_zero (pos zero) = true
is_zero _ = false

-- the truth value
abbrev pub truth : Json → Bool
truth null = false
truth (boolean b) = b
truth (integer n) = not (is_zero n)
truth (floating s) = not (s == "0.0" || s == "-0.0")
truth (text s) = not (s == "")
truth (array nil) = false
truth (array (cons v vs)) = true
truth (object end) = false
truth (object (field k v d)) = true

-- `v or w`
abbrev pub or_json : Json → Json → Json
or_json v w = if truth v then v else w

digits : ℕ → ℕ → String → String
digits zero n after = after
digits (suc fuel) n after =
    let shown = slice "0123456789" (n % 10) (suc (n % 10)) ++ after in
    elim (ltb n 10) [ true ↦ shown | false ↦ digits fuel (n / 10) shown ]

decimal : ℕ → String
unfolding digits
decimal n = digits (suc n) n ""

-- `str(value)`. Of a list or a mapping it is the bracket that the text begins with: the program
-- compares these texts with words only.
unfoldable pub text_of : Json → String
unfolding decimal
text_of null = "None"
text_of (boolean true) = "True"
text_of (boolean false) = "False"
text_of (integer (pos n)) = decimal n
text_of (integer (negsuc n)) = "-" ++ decimal (suc n)
text_of (floating s) = s
text_of (text s) = s
text_of (array vs) = "["
text_of (object d) = "{"
