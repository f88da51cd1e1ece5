-- ===== src/Delivery/Header.antt =====
-- A header that is written is read back.
use Prim.Native.Char.{Char, code}
use Prim.Native.String.{◌++◌}
use agpair.Base.{
  String, Bool, true, false, not, ◌&&◌, Option, none, some, ◌≡◌, refl, ap, ◌∙◌, arith, is_space,
  lstrip, elem, if◌then◌else◌, ◌==◌,
}
use agpair.Base.Append.{cons-append, nil-append}
use agpair.Delivery.{
  ParsedBody, after_prefix, word, untouched, identified, delivery_id_statuses,
  parse_delivery_header,
}

-- no white space in the text
abbrev pub solid : String → Bool
solid String.[] = true
solid (String.◌∷◌ c s) = not (is_space (code c)) && solid s

after_prefix-append : (p s : String) → after_prefix p (p ++ s) ≡ some s
unfolding after_prefix
after_prefix-append String.[] s = rw (nil-append s) refl
after_prefix-append (String.◌∷◌ d p) s =
    rw (cons-append d p s) (ground (arith, after_prefix-append p s))

lstrip-space :
    (c : Char) (s : String)
    → is_space (code c) ≡ true
    → lstrip (String.◌∷◌ c String.[] ++ s) ≡ lstrip s
unfolding lstrip
lstrip-space c s h =
    ap lstrip (cons-append c "" s ∙ ap (String.◌∷◌ c) (nil-append s)) ∙ ground arith

lstrip-solid : (s t : String) → solid s ≡ true → (s == "") ≡ false → lstrip (s ++ t) ≡ s ++ t
unfolding lstrip
lstrip-solid String.[] t h n = absurd (ground arith)
lstrip-solid (String.◌∷◌ c s) t h n = rw (cons-append c s t) (ground arith)

word-solid :
    (d : Char) (s : String)
    → is_space (code d) ≡ false
    → word (String.◌∷◌ d s) ≡ (String.◌∷◌ d (word s).0, (word s).1)
unfolding word
word-solid d s n =
    ap (λ b. if b then ("", String.◌∷◌ d s) else (String.◌∷◌ d (word s).0, (word s).1)) n

word-space :
    (c : Char) (s : String)
    → is_space (code c) ≡ true
    → word (String.◌∷◌ c s) ≡ ("", String.◌∷◌ c s)
unfolding word
word-space c s y =
    ap (λ b. if b then ("", String.◌∷◌ c s) else (String.◌∷◌ c (word s).0, (word s).1)) y

both : (a b : Bool) → (not a && b) ≡ true → (a ≡ false) × (b ≡ true)
both a b h = ground arith

word-append :
    (s : String) (c : Char) (t : String)
    → solid s ≡ true
    → is_space (code c) ≡ true
    → word (s ++ String.◌∷◌ c t) ≡ (s, String.◌∷◌ c t)
word-append String.[] c t h y = ap word (nil-append (String.◌∷◌ c t)) ∙ word-space c t y
word-append (String.◌∷◌ d s) c t h y =
    let (n, rest) = both (is_space (code d)) (solid s) h in
    ap word (cons-append d s (String.◌∷◌ c t))
    ∙ word-solid d (s ++ String.◌∷◌ c t) n
    ∙ ap (λ (r : String × String). (String.◌∷◌ d r.0, r.1)) (word-append s c t rest y)

line_feed : (t : String) → "\n" ++ t ≡ String.◌∷◌ (Char.char 10 tt) t
line_feed t = cons-append (Char.char 10 tt) "" t ∙ ap (String.◌∷◌ (Char.char 10 tt)) (nil-append t)

abbrev read : String → String → ParsedBody
read delivery_id rest = record { delivery_id = some delivery_id; clean_body = rest }

abbrev parsed : String → Option String → ParsedBody
parsed body found = elim found [
  | none ↦ untouched body
  | some rest ↦ identified body (word (lstrip rest))
]

-- Where the status carries delivery ids, the header that names a delivery id without white space
-- is read back as that id, and the clean body is the body without the white space that it begins
-- with.
pub parse_delivery_header-header :
    (status delivery_id body : String)
    → elem status delivery_id_statuses ≡ true
    → solid delivery_id ≡ true
    → (delivery_id == "") ≡ false
    → parse_delivery_header status ("X-Delivery-Id:" ++ (" " ++ (delivery_id ++ ("\n" ++ body))))
      ≡ record { delivery_id = some delivery_id; clean_body = lstrip body }
unfolding parse_delivery_header is_space
parse_delivery_header-header status delivery_id body known s n =
    let after = delivery_id ++ ("\n" ++ body) in
    let whole = "X-Delivery-Id:" ++ (" " ++ after) in
    let stripped =
      lstrip-space (Char.char 32 tt) after refl ∙ lstrip-solid delivery_id ("\n" ++ body) s n in
    ap (λ b. if b then parsed whole (after_prefix "X-Delivery-Id:" whole) else untouched whole)
      known
    ∙ ap (parsed whole) (after_prefix-append "X-Delivery-Id:" (" " ++ after))
    ∙ ap (λ t. identified whole (word t)) stripped
    ∙ ap (λ t. identified whole (word (delivery_id ++ t))) (line_feed body)
    ∙ ap (identified whole) (word-append delivery_id (Char.char 10 tt) body s refl)
    ∙ ap
        (λ b.
          if b
          then untouched whole
          else read delivery_id (lstrip (String.◌∷◌ (Char.char 10 tt) body)))
        n
    ∙ ap (read delivery_id) refl
