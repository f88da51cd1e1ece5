-- ===== src/Manifests/Acyclic/Remaining.antt =====
-- The search ends: each call inside another has one node less that it may enter.
use agpair.Base.{
  ℕ, zero, suc, ◌≤◌, ◌<◌, String, Bool, true, false, List, [], ◌∷◌, Option, none, some, ◌≡◌, ◌≢◌,
  refl, ap, arith, elem, length, if◌then◌else◌, ◌==◌, eq_iff, Bool-cases, inl, inr,
}
use agpair.Base.Chain.{if-rule}
use agpair.Manifests.Acyclic.{
  Dependencies, Visit, visited, cycle, missing, out_of_fuel, on_visited, enter, deps_of, ids,
  visit_all, dfs, assert_acyclic,
}

-- how many ids are not being visited
unfoldable pub remaining : List String → List String → ℕ
remaining visiting [] = 0
remaining visiting (k ∷ ks) =
    let rest = remaining visiting ks in if elem k visiting then rest else suc rest

remaining-le :
    (visiting ks : List String) (x : String) → remaining (x ∷ visiting) ks ≤ remaining visiting ks
unfolding remaining
remaining-le visiting [] x = omega arith
remaining-le visiting (k ∷ ks) x = ground (arith, remaining-le visiting ks x)

-- Entering a node leaves fewer.
remaining-lt :
    (visiting ks : List String) (x : String)
    → elem x ks ≡ true
    → elem x visiting ≡ false
    → remaining (x ∷ visiting) ks < remaining visiting ks
unfolding remaining
remaining-lt visiting [] x h n = absurd (ground arith)
remaining-lt visiting (k ∷ ks) x h n =
    ground (arith, remaining-le visiting ks x, remaining-lt visiting ks x, eq_iff k x, eq_iff x k)

remaining-all : (ks : List String) → remaining [] ks ≡ length ks
unfolding remaining
remaining-all [] = refl
remaining-all (k ∷ ks) = ground (arith, remaining-all ks)

pub found-elem :
    (nodes : Dependencies) (x : String) (deps : List String)
    → deps_of nodes x ≡ some deps
    → elem x (ids nodes) ≡ true
found-elem [] x deps e = absurd (ground arith)
found-elem ((k, ds) ∷ rest) x deps e = elim (Bool-cases (k == x)) [
  | inl y ↦ rw y refl
  | inr n ↦ rw n (found-elem rest x deps (rw n at e))
]

-- not out of fuel
abbrev ended : Visit → Bool
ended out_of_fuel = false
ended _ = true

on_visited-ended :
    (v : Visit) (f : List String → Visit)
    → ended v ≡ true
    → ((done : List String) → ended (f done) ≡ true)
    → ended (on_visited v f) ≡ true
on_visited-ended (visited done) f h k = k done
on_visited-ended cycle f h k = refl
on_visited-ended missing f h k = refl
on_visited-ended out_of_fuel f h k = h

visit_all-ended :
    (f : String → List String → Visit) (deps done : List String)
    → ((d : String) (done : List String) → ended (f d done) ≡ true)
    → ended (visit_all f deps done) ≡ true
unfolding visit_all
visit_all-ended f [] done h = refl
visit_all-ended f (d ∷ deps) done h =
    on_visited-ended (f d done) _ (h d done) (λ done. visit_all-ended f deps done h)

enter-ended :
    (o : Option (List String)) (f : List String → Visit)
    → ((deps : List String) → o ≡ some deps → ended (f deps) ≡ true)
    → ended (enter o f) ≡ true
enter-ended none f h = refl
enter-ended (some deps) f h = h deps refl

dfs-ended :
    (nodes : Dependencies) (fuel : ℕ) (visiting : List String) (x : String) (done : List String)
    → remaining visiting (ids nodes) < fuel
    → ended (dfs nodes fuel visiting x done) ≡ true
unfolding dfs
dfs-ended nodes zero visiting x done h = absurd (omega arith)
dfs-ended nodes (suc fuel) visiting x done h =
    if-rule (λ v. ended v ≡ true) (elem x visiting) _ _ (λ _. refl)
      (λ n.
        if-rule (λ v. ended v ≡ true) (elem x done) _ _ (λ _. refl)
          (λ _.
            on_visited-ended _ _
              (enter-ended (deps_of nodes x) _ (λ deps e. visit_all-ended _ deps done (λ d done.
                dfs-ended nodes fuel (x ∷ visiting) d done (
                  omega
                    (arith, remaining-lt visiting (ids nodes) x (found-elem nodes x deps e) n)))))
              (λ _. refl)))

length-ids : (nodes : Dependencies) → length (ids nodes) ≡ length nodes
length-ids [] = refl
length-ids (n ∷ nodes) = ap suc (length-ids nodes)

-- The search for cycles goes no deeper than there are nodes: it never uses up its fuel.
pub assert_acyclic-ends : (nodes : Dependencies) → assert_acyclic nodes ≢ out_of_fuel
unfolding assert_acyclic
assert_acyclic-ends nodes e =
    let yes_ended = visit_all-ended (dfs nodes (suc (length nodes)) []) (ids nodes) [] (λ d done.
      dfs-ended nodes (suc (length nodes)) [] d done
        (omega (arith, remaining-all (ids nodes), length-ids nodes))) in
    absurd (ground (arith, ap ended e))
