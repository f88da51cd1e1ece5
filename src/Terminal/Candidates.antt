-- ===== src/Terminal/Candidates.antt =====
-- The candidates that the scanner finds are parts of the text, each between braces.
use Prim.Native.Char.{Char, code}
use Prim.Native.String.{◌++◌}
use text.Mathlib.TextLemmas.{append_assoc, append-nil}
use mathlib.Core.Option
use agpair.Base.{
  ℕ, zero, suc, String, true, List, ◌∷◌, Option, none, some, ◌≡◌, ◌⊎◌, refl, sym, ap, ◌∙◌, arith,
  Memᴰ, inl, inr, subst, eqb→eq, starts_with,
}
use agpair.Base.Chain.{if-rule}
use agpair.Base.Append.{cons-append, nil-append, starts-append}
use agpair.Terminal.Scan.{
  Scan, is_char, one, inside, advance, scan, fresh, balanced_json_object_candidates, close,
}

-- `part` stands in `body`, begins with a brace and ends with one.
pub record IsPart (body part : String) : Type 0 where
  pub before : String
  pub after : String
  pub within : body ≡ before ++ (part ++ after)
  pub opens : starts_with part "{" ≡ true
  pub inner : String
  pub last : Char
  pub closes : part ≡ inner ++ one last
  pub brace : code last ≡ b'}'

-- the text since a brace that was opened
record IsOpen (done part : String) : Type 0 where
  before : String
  within : done ≡ before ++ part
  opens : starts_with part "{" ≡ true

-- what the scanner keeps after it has read `done`
record Ok (done : String) (s : Scan) : Type 0 where
  candidates : (part : String) → Memᴰ part s.candidates → IsPart done part
  found : (part : String) → s.found ≡ some part → IsOpen done part

later : (done more part : String) → IsPart done part → IsPart (done ++ more) part
later done more part is = record {
  before = is.before;
  after = is.after ++ more;
  opens = is.opens;
  inner = is.inner;
  last = is.last;
  closes = is.closes;
  brace = is.brace;
  within = rw is.within (
      append_assoc is.before (part ++ is.after) more
      ∙ ap (λ t. is.before ++ t) (append_assoc part is.after more));
}

-- What one turn inside an object does: it goes on, or a brace ends the candidate.
record Turn (letter : Char) (part : String) (s t : Scan) : Type 0 where
  kept :
      ((t.candidates ≡ s.candidates) × (t.found ≡ some part))
      ⊎ ((code letter ≡ b'}') × (t.candidates ≡ part ∷ s.candidates) × (t.found ≡ none))

close-Turn :
    (n : ℕ) (letter : Char) (part : String) (s : Scan)
    → code letter ≡ b'}'
    → s.found ≡ some part
    → Turn letter part s (close n s)
close-Turn zero letter part s b e = record { kept = inl (refl, e) }
close-Turn (suc zero) letter part s b e = record { kept = inr (rw e (b, refl, refl)) }
close-Turn (suc (suc n)) letter part s b e = record { kept = inl (refl, e) }

inside-Turn :
    (letter : Char) (part : String) (s : Scan)
    → s.found ≡ some part
    → Turn letter part s (inside letter s)
unfolding inside
inside-Turn letter part s e =
    let on : Turn letter part s s = record { kept = inl (refl, e) } in
    if-rule (Turn letter part s) s.in_string _ _
      (λ _.
        if-rule (Turn letter part s) s.escape _ _ (λ _. record { kept = inl (refl, e) })
          (λ _.
            if-rule (Turn letter part s) (is_char letter b'\\') _ _
              (λ _. record { kept = inl (refl, e) })
              (λ _.
                if-rule (Turn letter part s) (is_char letter b'"') _ _
                  (λ _. record { kept = inl (refl, e) }) (λ _. on))))
      (λ _.
        if-rule (Turn letter part s) (is_char letter b'"') _ _
          (λ _. record { kept = inl (refl, e) })
          (λ _.
            if-rule (Turn letter part s) (is_char letter b'{') _ _
              (λ _. record { kept = inl (refl, e) })
              (λ _.
                if-rule (Turn letter part s) (is_char letter b'}') _ _
                  (λ y. close-Turn s.depth letter part s (eqb→eq _ _ y) e) (λ _. on))))

grow :
    (done part : String) (letter : Char)
    → IsOpen done part
    → IsOpen (done ++ one letter) (part ++ one letter)
grow done part letter is = record {
  before = is.before;
  within = rw is.within (append_assoc is.before part (one letter));
  opens = starts-append (Char.char 123 tt) part (one letter) is.opens;
}

ended :
    (done part : String) (letter : Char)
    → IsOpen done part
    → code letter ≡ b'}'
    → IsPart (done ++ one letter) (part ++ one letter)
ended done part letter is b =
    let wide = grow done part letter is in
    record {
      before = wide.before;
      after = "";
      within = wide.within ∙ ap (λ t. wide.before ++ t) (sym (append-nil (part ++ one letter)));
      opens = wide.opens;
      inner = part;
      last = letter;
      closes = refl;
      brace = b;
    }

new_candidate :
    (done part new : String) (cs : List String)
    → ((p : String) → Memᴰ p cs → IsPart done p)
    → IsPart done new
    → Memᴰ part (new ∷ cs)
    → IsPart done part
new_candidate done part new cs old is (Memᴰ.head e) = subst (IsPart done) (sym e) is
new_candidate done part new cs old is (Memᴰ.tail m) = old part m

-- One turn of the loop inside an object.
go_on :
    (done part : String) (letter : Char) (s t : Scan)
    → ((p : String) → Memᴰ p s.candidates → IsPart done p)
    → IsOpen done part
    → Turn letter (part ++ one letter) s t
    → Ok (done ++ one letter) t
go_on done part letter s t ok is turn =
    let old = λ (p : String) (m : Memᴰ p s.candidates). later done (one letter) p (ok p m) in
    elim turn.kept [
      | inl (c, f) ↦ record {
        candidates = λ p m. old p (subst (Memᴰ p) c m);
        found = λ p e.
            subst (IsOpen (done ++ one letter)) (Option.some-injective _ _ (sym f ∙ e))
              (grow done part letter is);
      }
      | inr (b, c, f) ↦ record {
        candidates = λ p m.
            new_candidate _ p _ s.candidates old (ended done part letter is b) (subst (Memᴰ p) c m);
        found = λ p e. absurd (ground arith);
      }
    ]

advance-Ok :
    (done : String) (letter : Char) (o : Option String) (s : Scan)
    → s.found ≡ o
    → Ok done s
    → Ok (done ++ one letter) (advance letter o s)
advance-Ok done letter none s e ok =
    if-rule (Ok (done ++ one letter)) (is_char letter b'{') _ _
      (λ y. record {
        candidates = λ p m. later done (one letter) p (ok.candidates p m);
        found = λ p same.
            subst (IsOpen (done ++ one letter)) (Option.some-injective _ _ same)
              (record { before = done; within = refl; opens = rw y refl });
      })
      (λ _. record {
        candidates = λ p m. later done (one letter) p (ok.candidates p m);
        found = λ p same. absurd (ground arith);
      })
advance-Ok done letter (some part) s e ok =
    let s' : Scan = record s { found = some (part ++ one letter) } in
    go_on done part letter s' (inside letter s') ok.candidates (ok.found part e)
      (inside-Turn letter (part ++ one letter) s' refl)

scan-Ok : (body done : String) (s : Scan) → Ok done s → Ok (done ++ body) (scan body s)
unfolding scan
scan-Ok String.[] done s ok = subst (λ t. Ok t s) (sym (append-nil done)) ok
scan-Ok (String.◌∷◌ letter rest) done s ok =
    subst (λ t. Ok t (scan rest (advance letter s.found s)))
      (append_assoc done (one letter) rest
        ∙ ap (λ t. done ++ t)
            (cons-append letter "" rest ∙ ap (String.◌∷◌ letter) (nil-append rest)))
      (scan-Ok rest (done ++ one letter) (advance letter s.found s)
        (advance-Ok done letter s.found s refl ok))

-- Every candidate that the scanner finds is a part of the text, begins with an opening brace and
-- ends with a closing one.
pub balanced_json_object_candidates-IsPart :
    (body part : String) → Memᴰ part (balanced_json_object_candidates body) → IsPart body part
unfolding balanced_json_object_candidates
balanced_json_object_candidates-IsPart body part m =
    let start : Ok "" fresh = record {
      candidates = λ p m. elim m [ ];
      found = λ p e. absurd (ground arith);
    } in
    subst (λ t. IsPart t part) (nil-append body) ((scan-Ok body "" fresh start).candidates part m)
