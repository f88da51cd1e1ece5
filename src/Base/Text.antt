-- ===== src/Base/Text.antt =====
-- The string methods of Python that the program's normalisers call: `strip`, `lower`, `upper`, `replace`
-- of one character by another, `in` on a tuple of strings, and the truth value of a string.
-- `lower` and `upper` map the ASCII letters and keep every other character; the white space of `strip` is
-- the white space of Unicode.
use Prim.Native.Nat.{ℕ, ◌-◌}
use Prim.Native.Char.{Char, code}
use Prim.Native.String.{String, ◌++◌, char_at}
use mathlib.Core.Bool.{Bool, true, false, ◌&&◌, ◌||◌, not}
use mathlib.Core.List.{List, [], ◌∷◌}
use mathlib.Core.Option.{Option, none, some}
use text.Mathlib.Text.{◌==◌}
use agpair.Base.Tests.{leb, eqb, if◌then◌else◌}

-- `str.isspace` of one code point
unfoldable pub is_space : ℕ → Bool
is_space c =
    (leb 9 c && leb c 13)
    || (leb 28 c && leb c 32)
    || eqb c 0x85
    || eqb c 0xa0
    || eqb c 0x1680
    || (leb 0x2000 c && leb c 0x200a)
    || eqb c 0x2028
    || eqb c 0x2029
    || eqb c 0x202f
    || eqb c 0x205f
    || eqb c 0x3000

unfoldable pub lstrip : String → String
unfolding is_space
lstrip String.[] = String.[]
lstrip (String.◌∷◌ c s) = elim (is_space (code c)) [ true ↦ lstrip s | false ↦ String.◌∷◌ c s ]

push_unless_space : Char → String → String
push_unless_space c String.[] = if is_space (code c) then String.[] else String.◌∷◌ c String.[]
push_unless_space c rest = String.◌∷◌ c rest

unfoldable pub rstrip : String → String
unfolding push_unless_space is_space
rstrip String.[] = String.[]
rstrip (String.◌∷◌ c s) = push_unless_space c (rstrip s)

unfoldable pub strip : String → String
unfolding lstrip rstrip push_unless_space is_space
strip s = rstrip (lstrip s)

lower_char : Char → Char
lower_char c =
    if leb 65 (code c) && leb (code c) 90
    then char_at "abcdefghijklmnopqrstuvwxyz" (code c - 65)
    else c

unfoldable pub lower : String → String
unfolding lower_char
lower String.[] = String.[]
lower (String.◌∷◌ c s) = String.◌∷◌ (lower_char c) (lower s)

upper_char : Char → Char
upper_char c =
    if leb 97 (code c) && leb (code c) 122
    then char_at "ABCDEFGHIJKLMNOPQRSTUVWXYZ" (code c - 97)
    else c

unfoldable pub upper : String → String
unfolding upper_char
upper String.[] = String.[]
upper (String.◌∷◌ c s) = String.◌∷◌ (upper_char c) (upper s)

-- `s.replace(a, b)` where `a` and `b` are one character each
unfoldable pub replace_char : Char → Char → String → String
replace_char a b String.[] = String.[]
replace_char a b (String.◌∷◌ c s) =
    String.◌∷◌ (if eqb (code c) (code a) then b else c) (replace_char a b s)

-- `s in (…)`
abbrev pub elem : String → List String → Bool
elem s [] = false
elem s (t ∷ ts) = t == s || elem s ts

-- `d.get(s, s)` on a dictionary of aliases
abbrev pub alias : List (String × String) → String → String
alias [] s = s
alias ((k, v) ∷ rest) s = if k == s then v else alias rest s

-- the truth value of a string that may be `None`
abbrev pub truthy : Option String → Bool
truthy none = false
truthy (some s) = not (s == "")

-- `o or d`, where `o` is a string that may be `None`
abbrev pub or_default : Option String → String → String
or_default none d = d
or_default (some s) d = if s == "" then d else s

-- `o or p`, where both may be `None`
abbrev pub or_option : Option String → Option String → Option String
or_option none p = p
or_option (some s) p = if s == "" then p else some s

-- the code points that end a line of `str.splitlines`
pub is_line_break : ℕ → Bool
is_line_break c =
    (leb 10 c && leb c 13) || (leb 28 c && leb c 30) || eqb c 0x85 || eqb c 0x2028 || eqb c 0x2029

-- `line` is what the current line has so far, `after_cr` that a carriage return ended the last one.
lines_from : String → Bool → String → List String
lines_from line after_cr String.[] = if line == "" then [] else line ∷ []
lines_from line after_cr (String.◌∷◌ c s) =
    let breaks = is_line_break (code c) in
    let rest =
      lines_from (if breaks then "" else line ++ String.◌∷◌ c String.[]) (eqb (code c) 13) s in
    if breaks && not (after_cr && eqb (code c) 10) then line ∷ rest else rest

unfoldable pub splitlines : String → List String
unfolding lines_from is_line_break
splitlines s = lines_from "" false s

-- `s[:n]`, counted in characters
abbrev pub take_chars : ℕ → String → String
take_chars ℕ.zero s = String.[]
take_chars (ℕ.suc n) String.[] = String.[]
take_chars (ℕ.suc n) (String.◌∷◌ c s) = String.◌∷◌ c (take_chars n s)

-- `s.startswith(p)`
abbrev pub starts_with : String → String → Bool
starts_with s String.[] = true
starts_with String.[] (String.◌∷◌ d p) = false
starts_with (String.◌∷◌ c s) (String.◌∷◌ d p) = eqb (code c) (code d) && starts_with s p

-- `p in s`
abbrev pub contains : String → String → Bool
contains String.[] p = p == ""
contains (String.◌∷◌ c s) p = starts_with (String.◌∷◌ c s) p || contains s p

abbrev pub any_contained : List String → String → Bool
any_contained [] s = false
any_contained (p ∷ ps) s = contains s p || any_contained ps s
