-- ===== src/Terminal/Scan.antt =====
-- terminal_receipts.py: the JSON objects that a text holds among other words.
use Prim.Native.Char.{Char, code}
use Prim.Native.String.{◌++◌}
use agpair.Base.{
  ℕ, zero, suc, String, Bool, true, false, List, [], ◌∷◌, Option, none, some, eqb, if◌then◌else◌,
}

-- `found` is `body[start : index]` where `start` is set; the candidates stand with the latest first.
pub record Scan : Type 0 where
  pub candidates : List String
  pub found : Option String
  pub depth : ℕ
  pub in_string : Bool
  pub escape : Bool

abbrev pub is_char : Char → ℕ → Bool
is_char c n = eqb (code c) n

abbrev pub one : Char → String
one c = String.◌∷◌ c String.[]

-- `depth -= 1`, and the end of a candidate where the depth is 0 then
abbrev pub close : ℕ → Scan → Scan
close zero s = record s { depth = 0 }
close (suc zero) s = elim s.found [
  | none ↦ s
  | some part ↦ record s { candidates = part ∷ s.candidates; found = none; depth = 0 }
]
close (suc (suc n)) s = record s { depth = suc n }

-- one turn of the loop inside an object; `found` has the character already
unfoldable pub inside : Char → Scan → Scan
inside letter s =
    if s.in_string
    then (if s.escape
        then record s { escape = false }
        else if is_char letter b'\\'
        then record s { escape = true }
        else if is_char letter b'"'
        then record s { in_string = false }
        else s)
    else if is_char letter b'"'
    then record s { in_string = true }
    else if is_char letter b'{'
    then record s { depth = suc s.depth }
    else if is_char letter b'}'
    then close s.depth s
    else s

abbrev pub advance : Char → Option String → Scan → Scan
advance letter none s =
    if is_char letter b'{'
    then record s { found = some (one letter); depth = 1; in_string = false; escape = false }
    else s
advance letter (some part) s = inside letter (record s { found = some (part ++ one letter) })

unfoldable pub scan : String → Scan → Scan
scan String.[] s = s
scan (String.◌∷◌ letter rest) s = scan rest (advance letter s.found s)

abbrev pub fresh : Scan
fresh = record { candidates = []; found = none; depth = 0; in_string = false; escape = false }

-- The candidates from the last to the first, as `_receipt_from_json_candidates` reads them.
unfoldable pub balanced_json_object_candidates : String → List String
unfolding scan
balanced_json_object_candidates body = (scan body fresh).candidates
