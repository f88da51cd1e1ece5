-- ===== src/Manifests/Acyclic/Order.antt =====
-- A search that ends well leaves the nodes in an order in which each depends on earlier ones only, so
-- that no node depends on itself.
use mathlib.Core.Option
use agpair.Base.{
  ℕ, zero, suc, ◌≤◌, ◌<◌, String, true, false, List, [], ◌∷◌, Option, none, some, Memᴰ, ◌≡◌, refl,
  sym, ap, ◌∙◌, subst, arith, elem, any, length, if◌then◌else◌, ◌==◌, eq_iff, eq_refl, Bool-cases,
  inl, inr,
}
use agpair.Base.Chain.{if-rule}
use agpair.Base.Members.{mem_of_any}
use agpair.Manifests.Acyclic.Remaining.{found-elem}
use agpair.Manifests.Acyclic.{
  Dependencies, Visit, visited, cycle, missing, out_of_fuel, on_visited, enter, deps_of, ids,
  visit_all, dfs, assert_acyclic, Needs, Walk, step, onward,
}

abbrev In : String → List String → Type 0
In x xs = elem x xs ≡ true

abbrev NotIn : String → List String → Type 0
NotIn x xs = elem x xs ≡ false

abbrev Apart : List String → List String → Type 0
Apart visiting done = (x : String) → In x visiting → NotIn x done

-- what holds of the visited ids where the search goes on
abbrev Good : (List String → Type 0) → Visit → Type 0
Good R (visited done) = R done
Good R cycle = Unit
Good R missing = Unit
Good R out_of_fuel = Unit

on_visited-Good :
    (Q R : List String → Type 0) (v : Visit) (f : List String → Visit)
    → Good Q v
    → ((done : List String) → Q done → Good R (f done))
    → Good R (on_visited v f)
on_visited-Good Q R (visited done) f q k = k done q
on_visited-Good Q R cycle f q k = tt
on_visited-Good Q R missing f q k = tt
on_visited-Good Q R out_of_fuel f q k = tt

Good-map :
    (R S : List String → Type 0) (v : Visit)
    → ((done : List String) → R done → S done)
    → Good R v
    → Good S v
Good-map R S (visited done) k r = k done r
Good-map R S cycle k r = tt
Good-map R S missing k r = tt
Good-map R S out_of_fuel k r = tt

enter-Good :
    (R : List String → Type 0) (o : Option (List String)) (f : List String → Visit)
    → ((deps : List String) → o ≡ some deps → Good R (f deps))
    → Good R (enter o f)
enter-Good R none f k = tt
enter-Good R (some deps) f k = k deps refl

head-In : (x : String) (xs : List String) → In x (x ∷ xs)
head-In x xs = rw (eq_refl x) refl

tail-In : (x y : String) (xs : List String) → In y xs → In y (x ∷ xs)
tail-In x y xs h = ground arith

other_than :
    (x y : String) (visiting after : List String)
    → NotIn x visiting
    → In y visiting
    → NotIn y after
    → NotIn y (x ∷ after)
other_than x y visiting after n h m = elim (Bool-cases (x == y)) [
  | inl same ↦
      let e : x ≡ y = (eq_iff x y).0 same in
      absurd (ground (arith, sym n ∙ ap (λ z. elem z visiting) e ∙ h))
  | inr other ↦ rw other m
]

Apart-cons :
    (x : String) (visiting done : List String)
    → NotIn x done
    → Apart visiting done
    → Apart (x ∷ visiting) done
Apart-cons x visiting done n a y h = elim (Bool-cases (x == y)) [
  | inl same ↦ subst (λ z. NotIn z done) ((eq_iff x y).0 same) n
  | inr other ↦ a y (rw other at h)
]

apart_from : (v b : String) (vs : List String) → NotIn v vs → In b vs → (v == b) ≡ false
apart_from v b vs n h = elim (Bool-cases (v == b)) [
  | inl same ↦
      let e : v ≡ b = (eq_iff v b).0 same in
      absurd (ground (arith, sym n ∙ ap (λ z. elem z vs) e ∙ h))
  | inr other ↦ other
]

any-elem : (ks : List String) (a : String) → In a ks → any (λ k. k == a) ks ≡ true
any-elem [] a h = h
any-elem (k ∷ ks) a h = ground (arith, any-elem ks a)

first_or_later :
    (d e : String) (deps after : List String)
    → In d after
    → ((c : String) → Memᴰ c deps → In c after)
    → Memᴰ e (d ∷ deps)
    → In e after
first_or_later d e deps after here later (Memᴰ.head same) = subst (λ c. In c after) (sym same) here
first_or_later d e deps after here later (Memᴰ.tail m) = later e m

module _ (nodes : Dependencies) where
  -- each id after those it depends on, and once
  abbrev Settled : List String → Type 0
  Settled [] = Unit
  Settled (v ∷ vs) = ((d : String) → Needs nodes v d → In d vs) × NotIn v vs × Settled vs

  record After (visiting before after : List String) : Type 0 where
    settled : Settled after
    extends : (x : String) → In x before → In x after
    apart : Apart visiting after

  record AfterOne (visiting before : List String) (x : String) (after : List String) : Type 0 where
    all : After visiting before after
    here : In x after

  record AfterAll (visiting before deps after : List String) : Type 0 where
    all : After visiting before after
    each : (d : String) → Memᴰ d deps → In d after

  visit_all-Good :
      (visiting : List String) (f : String → List String → Visit) (deps before : List String)
      → ((d : String) (before : List String)
          → Settled before
          → Apart visiting before
          → Good (AfterOne visiting before d) (f d before))
      → Settled before
      → Apart visiting before
      → Good (AfterAll visiting before deps) (visit_all f deps before)
  unfolding visit_all
  visit_all-Good visiting f [] before one s a = record {
    all = record { settled = s; extends = λ x h. h; apart = a };
    each = λ d m. elim m [ ];
  }
  visit_all-Good visiting f (d ∷ deps) before one s a =
      on_visited-Good (AfterOne visiting before d) (AfterAll visiting before (d ∷ deps))
        (f d before) _ (one d before s a)
        (λ mid q.
          Good-map (AfterAll visiting mid deps) (AfterAll visiting before (d ∷ deps))
            (visit_all f deps mid)
            (λ after r. record {
              all = record {
                settled = r.all.settled;
                extends = λ x h. r.all.extends x (q.all.extends x h);
                apart = r.all.apart;
              };
              each = λ e m. first_or_later d e deps after (r.all.extends d q.here) r.each m;
            })
            (visit_all-Good visiting f deps mid one q.all.settled q.all.apart))

  abbrev Inside : List String → String → List String → List String → Type 0
  Inside visiting x before after =
      (deps : List String) × (deps_of nodes x ≡ some deps)
      × AfterAll (x ∷ visiting) before deps after

  -- A node whose dependencies are visited, and that is not, may come next.
  finish :
      (visiting before deps after : List String) (x : String)
      → deps_of nodes x ≡ some deps
      → NotIn x visiting
      → AfterAll (x ∷ visiting) before deps after
      → AfterOne visiting before x (x ∷ after)
  finish visiting before deps after x e n r = record {
    all = record {
      settled = (
        λ d needs. r.each d (
            subst (λ ds. Memᴰ d ds) (Option.some-injective _ _ (sym needs.found ∙ e)) needs.listed),
        r.all.apart x (head-In x visiting),
        r.all.settled,
      );
      extends = λ y h. tail-In x y after (r.all.extends y h);
      apart = λ y h. other_than x y visiting after n h (r.all.apart y (tail-In x y visiting h));
    };
    here = head-In x after;
  }

  dfs-Good :
      (fuel : ℕ) (visiting : List String) (x : String) (before : List String)
      → Settled before
      → Apart visiting before
      → Good (AfterOne visiting before x) (dfs nodes fuel visiting x before)
  unfolding dfs
  dfs-Good zero visiting x before s a = tt
  dfs-Good (suc fuel) visiting x before s a =
      if-rule (Good (AfterOne visiting before x)) (elem x visiting) _ _ (λ _. tt)
        (λ n.
          if-rule (Good (AfterOne visiting before x)) (elem x before) _ _
            (λ y. record { all = record { settled = s; extends = λ z h. h; apart = a }; here = y })
            (λ m.
              on_visited-Good (Inside visiting x before) (AfterOne visiting before x) _ _
                (enter-Good (Inside visiting x before) (deps_of nodes x) _ (λ deps e.
                  Good-map (AfterAll (x ∷ visiting) before deps) (Inside visiting x before)
                    (visit_all (dfs nodes fuel (x ∷ visiting)) deps before)
                    (λ after r. (deps, e, r))
                    (visit_all-Good (x ∷ visiting) (dfs nodes fuel (x ∷ visiting)) deps before
                      (dfs-Good fuel (x ∷ visiting)) s (Apart-cons x visiting before m a))))
                (λ after (deps, e, r). finish visiting before deps after x e n r)))

-- the place of an id, counted from the end
unfoldable rank : String → List String → ℕ
rank x [] = 0
rank x (v ∷ vs) = let rest = rank x vs in if v == x then suc (length vs) else rest

rank-le : (x : String) (vs : List String) → rank x vs ≤ length vs
unfolding rank
rank-le x [] = omega arith
rank-le x (v ∷ vs) = ground (arith, rank-le x vs)

module _ (nodes : Dependencies) where
  -- An arrow leads to an earlier place.
  rank-lt :
      (vs : List String) (a b : String)
      → Settled nodes vs
      → In a vs
      → Needs nodes a b
      → (rank b vs < rank a vs) × In b vs
  unfolding rank
  rank-lt [] a b s h needs = absurd (ground arith)
  rank-lt (v ∷ vs) a b s h needs = elim (Bool-cases (v == a)) [
    | inl same ↦
        let here : In b vs =
          s.0 b (subst (λ z. Needs nodes z b) (sym ((eq_iff v a).0 same)) needs) in
        let other = apart_from v b vs s.1 here in
        (rw same (rw other (omega (arith, rank-le b vs))), tail-In v b vs here)
    | inr n ↦
        let (less, here) = rank-lt vs a b s.2 (rw n at h) needs in
        let other = apart_from v b vs s.1 here in (rw n (rw other less), tail-In v b vs here)
  ]

  rank-Walk :
      (vs : List String) (a b : String)
      → Settled nodes vs
      → In a vs
      → Walk nodes a b
      → (rank b vs < rank a vs) × In b vs
  rank-Walk vs a b s h (step needs) = rank-lt vs a b s h needs
  rank-Walk vs a b s h (onward {b = c} w needs) =
      let (less, here) = rank-Walk vs a c s h w in
      let (more, there) = rank-lt vs c b s here needs in (omega arith, there)

  starts : (a b : String) → Walk nodes a b → In a (ids nodes)
  starts a b (step needs) = found-elem nodes a needs.deps needs.found
  starts a b (onward {b = c} w needs) = starts a c w

  all-In :
      (ks vs : List String) (a : String) → ((d : String) → Memᴰ d ks → In d vs) → In a ks → In a vs
  all-In ks vs a each h =
      let (b, m, e) = mem_of_any (λ k. k == a) ks (any-elem ks a h) in
      subst (λ z. In z vs) ((eq_iff b a).0 e) (each b m)

  -- If the search for cycles ends without one, no walk along dependencies leads from a node back
  -- to itself.
  pub assert_acyclic-acyclic :
      (done : List String) (a : String) → assert_acyclic nodes ≡ visited done → ¬ Walk nodes a a
  unfolding assert_acyclic
  assert_acyclic-acyclic done a e w =
      let found =
        visit_all-Good nodes [] (dfs nodes (suc (length nodes)) []) (ids nodes) []
          (dfs-Good nodes (suc (length nodes)) []) tt (λ x h. absurd (ground arith)) in
      let r : AfterAll nodes [] [] (ids nodes) done =
        subst (Good (AfterAll nodes [] [] (ids nodes))) e found in
      let (less, _) =
        rank-Walk done a a r.all.settled (all-In (ids nodes) done a r.each (starts a a w)) w in
      omega arith
