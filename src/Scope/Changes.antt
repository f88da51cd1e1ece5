-- ===== src/Scope/Changes.antt =====
-- What the comparison of changed files means for each path.
use agpair.Base.{
  String, Bool, true, false, not, ◌&&◌, ◌||◌, List, [], ◌∷◌, ◌++◌, ◌≡◌, ◌↔◌, refl, sym, ap, ◌∙◌,
  arith, elem, any, select, sort_by, insert_by, if◌then◌else◌, ◌==◌, eq_iff, eq_refl, Bool-cases,
  inl, inr,
}
use agpair.Base.Selected.{elem-select}
use agpair.Terminal.Payload.{is_empty}
use agpair.Scope.{
  normalize_path, normalize_changed_files, gather, precedes, is_forbidden, minus, ok,
  validate_changed_files,
}

elem-append : (x : String) (xs ys : List String) → elem x (xs ++ ys) ≡ (elem x xs || elem x ys)
elem-append x [] ys = refl
elem-append x (k ∷ xs) ys = ground (arith, elem-append x xs ys)

elem-insert :
    (p : String → String → Bool) (x k : String) (xs : List String)
    → elem x (insert_by p k xs) ≡ ((k == x) || elem x xs)
elem-insert p x k [] = refl
elem-insert p x k (y ∷ ys) = ground (arith, elem-insert p x k ys)

elem-sort :
    (p : String → String → Bool) (x : String) (xs : List String) → elem x (sort_by p xs) ≡ elem x xs
elem-sort p x [] = refl
elem-sort p x (k ∷ xs) =
    elem-insert p x k (sort_by p xs) ∙ ap (λ b. (k == x) || b) (elem-sort p x xs)

-- A path is gathered if some candidate is that path when it is normalised.
abbrev pub names : String → List String → Bool
names path candidates = any (λ item. (normalize_path item == path) && not (path == "")) candidates

added_same :
    (path : String) (found : List String)
    → elem path (if (path == "") || elem path found then found else found ++ path ∷ [])
      ≡ (elem path found || not (path == ""))
added_same path found = ground (arith, elem-append path found (path ∷ []), eq_refl path)

added :
    (path q : String) (found : List String)
    → elem path (if (q == "") || elem q found then found else found ++ q ∷ [])
      ≡ (elem path found || ((q == path) && not (path == "")))
added path q found = elim (Bool-cases (q == path)) [
  | inl y ↦ rw ((eq_iff q path).0 y) (rw (eq_refl path) (added_same path found))
  | inr n ↦ ground (arith, elem-append path found (q ∷ []))
]

or_assoc : (a b c : Bool) → ((a || b) || c) ≡ (a || (b || c))
or_assoc a b c = ground arith

elem-gather :
    (path : String) (items found : List String)
    → elem path (gather items found) ≡ (elem path found || names path items)
elem-gather path [] found = ground arith
elem-gather path (item ∷ items) found =
    elem-gather path items _
    ∙ ap (λ b. b || names path items) (added path (normalize_path item) found)
    ∙ or_assoc (elem path found) _ _

elem-normalize :
    (path : String) (candidates : List String)
    → elem path (normalize_changed_files candidates) ≡ names path candidates
unfolding normalize_changed_files
elem-normalize path candidates =
    elem-sort precedes path (gather candidates []) ∙ elem-gather path candidates []

empty_iff : (xs : List String) → is_empty xs ≡ true → (x : String) → elem x xs ≡ false
empty_iff [] h x = refl
empty_iff (k ∷ xs) h x = absurd (ground arith)

is_empty_of : (xs : List String) → ((x : String) → elem x xs ≡ false) → is_empty xs ≡ true
is_empty_of [] h = refl
is_empty_of (k ∷ xs) h = absurd (ground (arith, h k, eq_refl k))

-- Two lists agree and hold nothing of a kind exactly where the three differences are empty.
abbrev all_empty : List String → List String → (String → Bool) → Bool
all_empty declared effective bad = not (
    not (is_empty (minus effective declared))
    || not (is_empty (minus declared effective))
    || not (is_empty (select bad effective)))

split : (a b c : Bool) → not (not a || not b || not c) ≡ true → (a ≡ true) × (b ≡ true) × (c ≡ true)
split a b c h = ground arith

join : (a b c : Bool) → a ≡ true → b ≡ true → c ≡ true → not (not a || not b || not c) ≡ true
join a b c h k l = ground arith

agree :
    (declared effective : List String) (bad : String → Bool)
    → all_empty declared effective bad ≡ true
    → (path : String)
    → (elem path declared ≡ elem path effective) × ((elem path effective && bad path) ≡ false)
agree declared effective bad h path =
    let (u, m, f) = split _ _ _ h in
    let undeclared =
      sym (elem-select (λ p. not (elem p declared)) path effective)
      ∙ empty_iff (minus effective declared) u path in
    let absent =
      sym (elem-select (λ p. not (elem p effective)) path declared)
      ∙ empty_iff (minus declared effective) m path in
    let forbidden =
      sym (elem-select bad path effective) ∙ empty_iff (select bad effective) f path in
    (ground (arith, undeclared, absent), forbidden)

empties :
    (declared effective : List String) (bad : String → Bool)
    → ((path : String)
        → (elem path declared ≡ elem path effective) × ((elem path effective && bad path) ≡ false))
    → all_empty declared effective bad ≡ true
empties declared effective bad h =
    join _ _ _
      (is_empty_of (minus effective declared)
        (λ p. elem-select (λ p. not (elem p declared)) p effective ∙ ground (arith, h p)))
      (is_empty_of (minus declared effective)
        (λ p. elem-select (λ p. not (elem p effective)) p declared ∙ ground (arith, h p)))
      (is_empty_of (select bad effective) (λ p. elem-select bad p effective ∙ (h p).1))

-- the changes: what the executor changed and was not changed before
abbrev pub changed : List String → List String → String → Bool
changed actual baseline path = names path actual && not (names path baseline)

elem-effective :
    (actual baseline : List String) (path : String)
    → elem path (minus (normalize_changed_files actual) (normalize_changed_files baseline))
      ≡ changed actual baseline path
elem-effective actual baseline path =
    elem-select (λ p. not (elem p (normalize_changed_files baseline))) path
      (normalize_changed_files actual)
    ∙ (λ i. elem-normalize path actual i && not (elem-normalize path baseline i))

-- The changed files are in scope exactly if, for every path, it was declared if and only if it was
-- changed and not in the baseline, up to the normal form of paths, and no path that was so changed
-- is forbidden.
pub validate_changed_files-ok :
    (declared actual baseline forbidden_prefixes : List String)
    → (ok (validate_changed_files declared actual baseline forbidden_prefixes) ≡ true) ↔ (
        (path : String)
        → (names path declared ≡ changed actual baseline path)
          × ((changed actual baseline path && is_forbidden forbidden_prefixes path) ≡ false))
unfolding ok validate_changed_files
validate_changed_files-ok declared actual baseline prefixes = (
  λ h path.
      let (same, fine) = agree _ _ _ h path in
      (
        sym (elem-normalize path declared) ∙ same ∙ elem-effective actual baseline path,
        ap (λ b. b && is_forbidden prefixes path) (sym (elem-effective actual baseline path))
            ∙ fine,
      ),
  λ h. empties _ _ _ (λ path. (
    elem-normalize path declared ∙ (h path).0 ∙ sym (elem-effective actual baseline path),
    ap (λ b. b && is_forbidden prefixes path) (elem-effective actual baseline path) ∙ (h path).1,
  )),
)
