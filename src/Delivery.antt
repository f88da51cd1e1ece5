-- ===== src/Delivery.antt =====
-- delivery.py: the delivery id that heads the body of a terminal reply.
use Prim.Native.Char.{Char, code}
use agpair.Base.{
  String, Bool, List, [], ◌∷◌, Option, none, some, is_space, lstrip, elem, eqb, if◌then◌else◌, ◌==◌,
}
pub mod Header

abbrev pub delivery_id_statuses : List String
delivery_id_statuses = "ACK" ∷ "EVIDENCE_PACK" ∷ "BLOCKED" ∷ "COMMITTED" ∷ []

pub record ParsedBody : Type 0 where
  pub delivery_id : Option String
  pub clean_body : String

-- what follows a prefix that the text begins with
unfoldable pub after_prefix : String → String → Option String
after_prefix String.[] s = some s
after_prefix (String.◌∷◌ d p) String.[] = none
after_prefix (String.◌∷◌ d p) (String.◌∷◌ c s) =
    let rest = after_prefix p s in if eqb (code c) (code d) then rest else none

-- `\S*` at the start of a text, and what follows
unfoldable pub word : String → String × String
word String.[] = (String.[], String.[])
word (String.◌∷◌ c s) =
    let (w, rest) = word s in
    if is_space (code c) then (String.[], String.◌∷◌ c s) else (String.◌∷◌ c w, rest)

abbrev pub untouched : String → ParsedBody
untouched body = record { delivery_id = none; clean_body = body }

-- `(?P<delivery_id>\S+)\s*\n?`: the white space takes every line feed that follows
abbrev pub identified : String → String × String → ParsedBody
identified body (delivery_id, rest) =
    if delivery_id == ""
    then untouched body
    else record { delivery_id = some delivery_id; clean_body = lstrip rest }

unfoldable pub parse_delivery_header : String → String → ParsedBody
unfolding after_prefix word lstrip
parse_delivery_header status body =
    if elem status delivery_id_statuses
    then elim (after_prefix "X-Delivery-Id:" body) [
      | none ↦ untouched body
      | some rest ↦ identified body (word (lstrip rest))
    ]
    else untouched body
