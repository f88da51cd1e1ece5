-- ===== src/Terminal/Words.antt =====
-- Which statuses the aliases lead to.
use agpair.Base.{
  String, Bool, true, false, Option, none, some, ◌≡◌, inl, inr, refl, arith, elem, subst,
  Bool-cases, if◌then◌else◌, strip, lower,
}
use agpair.Json.{Json, null, boolean, integer, floating, text, array, object}
use agpair.Options.Canonical.{of_each}
use agpair.Terminal.Status.{valid_statuses, status_alias, normalize_status_text, normalize_status}

abbrev value_of : Option String → String
value_of none = ""
value_of (some s) = s

is_word :
    (x t : String) → elem x valid_statuses ≡ true → some x ≡ some t → elem t valid_statuses ≡ true
is_word x t valid e = subst (λ (o : Option String). elem (value_of o) valid_statuses ≡ true) e valid

aliased :
    (a b c : Bool) (t : String)
    → (if a
        then some "EVIDENCE_PACK"
        else if b
        then some "BLOCKED"
        else if c
        then some "COMMITTED"
        else none)
      ≡ some t
    → elem t valid_statuses ≡ true
aliased true b c t e = is_word "EVIDENCE_PACK" t refl e
aliased false true c t e = is_word "BLOCKED" t refl e
aliased false false true t e = is_word "COMMITTED" t refl e
aliased false false false t e = absurd (ground arith)

status_alias-valid : (s t : String) → status_alias s ≡ some t → elem t valid_statuses ≡ true
unfolding status_alias
status_alias-valid s t e = aliased _ _ _ t e

normalize_status_text-valid :
    (s t : String) → normalize_status_text s ≡ some t → elem t valid_statuses ≡ true
unfolding normalize_status_text
normalize_status_text-valid s t e = elim (Bool-cases (elem (strip s) valid_statuses)) [
  | inl y ↦ is_word (strip s) t y (rw y at e)
  | inr n ↦ status_alias-valid (lower (strip s)) t (rw n at e)
]

pub normalize_status_text-same :
    (t : String) → elem t valid_statuses ≡ true → normalize_status_text t ≡ some t
unfolding normalize_status_text
normalize_status_text-same t valid =
    of_each (λ t. normalize_status_text t ≡ some t) valid_statuses t (refl, (refl, (refl, tt)))
      valid

-- A status that is recognised is one of the three, and is recognised as it is.
pub normalize_status-canonical :
    (value : Json) (s : String)
    → normalize_status value ≡ some s
    → (elem s valid_statuses ≡ true) × (normalize_status (text s) ≡ some s)
unfolding normalize_status
normalize_status-canonical (text t) s e =
    let valid = normalize_status_text-valid t s e in (valid, normalize_status_text-same s valid)
normalize_status-canonical null s e = absurd (ground arith)
normalize_status-canonical (boolean b) s e = absurd (ground arith)
normalize_status-canonical (integer n) s e = absurd (ground arith)
normalize_status-canonical (floating f) s e = absurd (ground arith)
normalize_status-canonical (array vs) s e = absurd (ground arith)
normalize_status-canonical (object d) s e = absurd (ground arith)
