-- ===== src/Manifests/Acyclic/Cycle.antt =====
-- A search that reports a cycle has met one.
use agpair.Base.{
  ℕ, zero, suc, String, true, List, [], ◌∷◌, Option, none, some, Memᴰ, ◌≡◌, refl, subst, arith,
  elem, length, ◌==◌, eq_iff, Bool-cases, inl, inr,
}
use agpair.Base.Chain.{if-rule}
use agpair.Manifests.Acyclic.{
  Dependencies, Visit, visited, cycle, missing, out_of_fuel, on_visited, enter, deps_of, ids,
  visit_all, dfs, assert_acyclic, Needs, Walk, step, onward,
}

module _ (nodes : Dependencies) where
  -- a report of a cycle has a reason
  abbrev Fair : Visit → Type 0
  Fair cycle = (a : String) × Walk nodes a a
  Fair (visited done) = Unit
  Fair missing = Unit
  Fair out_of_fuel = Unit

  on_visited-Fair :
      (v : Visit) (f : List String → Visit)
      → Fair v
      → ((done : List String) → Fair (f done))
      → Fair (on_visited v f)
  on_visited-Fair (visited done) f h k = k done
  on_visited-Fair cycle f h k = h
  on_visited-Fair missing f h k = tt
  on_visited-Fair out_of_fuel f h k = tt

  visit_all-Fair :
      (f : String → List String → Visit) (deps done : List String)
      → ((d : String) (done : List String) → Memᴰ d deps → Fair (f d done))
      → Fair (visit_all f deps done)
  unfolding visit_all
  visit_all-Fair f [] done k = tt
  visit_all-Fair f (d ∷ deps) done k =
      on_visited-Fair (f d done) _ (k d done (Memᴰ.head refl))
        (λ done. visit_all-Fair f deps done (λ e done m. k e done (Memᴰ.tail m)))

  enter-Fair :
      (o : Option (List String)) (f : List String → Visit)
      → ((deps : List String) → o ≡ some deps → Fair (f deps))
      → Fair (enter o f)
  enter-Fair none f k = tt
  enter-Fair (some deps) f k = k deps refl

  -- From each id that is being visited a walk leads here.
  abbrev Stacked : List String → String → Type 0
  Stacked visiting x = (v : String) → elem v visiting ≡ true → Walk nodes v x

  deeper :
      (visiting : List String) (x d : String)
      → Stacked visiting x
      → Needs nodes x d
      → Stacked (x ∷ visiting) d
  deeper visiting x d s needs v h = elim (Bool-cases (x == v)) [
    | inl same ↦ subst (λ z. Walk nodes z d) ((eq_iff x v).0 same) (step needs)
    | inr other ↦ onward (s v (rw other at h)) needs
  ]

  dfs-Fair :
      (fuel : ℕ) (visiting : List String) (x : String) (done : List String)
      → Stacked visiting x
      → Fair (dfs nodes fuel visiting x done)
  unfolding dfs
  dfs-Fair zero visiting x done s = tt
  dfs-Fair (suc fuel) visiting x done s =
      if-rule Fair (elem x visiting) _ _ (λ y. (x, s x y))
        (λ _.
          if-rule Fair (elem x done) _ _ (λ _. tt)
            (λ _.
              on_visited-Fair _ _
                (enter-Fair (deps_of nodes x) _ (λ deps e.
                  visit_all-Fair (dfs nodes fuel (x ∷ visiting)) deps done (λ d done m.
                    dfs-Fair fuel (x ∷ visiting) d done
                      (deeper visiting x d s (record { deps = deps; found = e; listed = m })))))
                (λ _. tt)))

  -- If the search reports a cycle, some node is on a walk along dependencies from itself to
  -- itself.
  pub assert_acyclic-cycle : assert_acyclic nodes ≡ cycle → (a : String) × Walk nodes a a
  unfolding assert_acyclic
  assert_acyclic-cycle e = subst Fair e (
      visit_all-Fair (dfs nodes (suc (length nodes)) []) (ids nodes) []
        (λ d done m. dfs-Fair (suc (length nodes)) [] d done (λ v h. absurd (ground arith))))
