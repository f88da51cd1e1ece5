-- ===== src/Manifests/Acyclic.antt =====
-- workflows/schema.py: `_assert_acyclic`, a depth-first search over the dependencies of the nodes.
use agpair.Base.{
  ℕ, zero, suc, String, Bool, List, [], ◌∷◌, Option, none, some, Memᴰ, ◌≡◌, elem, length, map,
  if◌then◌else◌, ◌==◌,
}
pub mod Remaining
pub mod Order
pub mod Cycle

-- the ids of the nodes, each with the ids it depends on
abbrev pub Dependencies : Type 0
Dependencies = List (String × List String)

-- What a call of `dfs` comes to: the visited ids, the exception on a cycle, a `KeyError`, or no fuel.
pub data Visit : Type 0 where
  visited : List String → Visit
  cycle missing out_of_fuel : Visit

abbrev pub on_visited : Visit → (List String → Visit) → Visit
on_visited (visited done) f = f done
on_visited cycle f = cycle
on_visited missing f = missing
on_visited out_of_fuel f = out_of_fuel

-- `nodes[node_id].get("depends_on")`
abbrev pub deps_of : Dependencies → String → Option (List String)
deps_of [] node_id = none
deps_of ((k, deps) ∷ rest) node_id =
    let later = deps_of rest node_id in if k == node_id then some deps else later

abbrev pub ids : Dependencies → List String
ids nodes = map (λ (n : String × List String). n.0) nodes

-- `for dep in deps: dfs(dep)`
unfoldable pub visit_all : (String → List String → Visit) → List String → List String → Visit
visit_all dfs [] done = visited done
visit_all dfs (dep ∷ deps) done = on_visited (dfs dep done) (visit_all dfs deps)

-- `nodes[node_id]`, which raises where there is no such node
abbrev pub enter : Option (List String) → (List String → Visit) → Visit
enter none f = missing
enter (some deps) f = f deps

-- the ids of `visiting` stand with the latest first
unfoldable pub dfs : Dependencies → ℕ → List String → String → List String → Visit
unfolding visit_all
dfs nodes zero visiting node_id done = out_of_fuel
dfs nodes (suc fuel) visiting node_id done =
    let inner =
      enter (deps_of nodes node_id)
        (λ deps. visit_all (dfs nodes fuel (node_id ∷ visiting)) deps done) in
    if elem node_id visiting
    then cycle
    else if elem node_id done
    then visited done
    else on_visited inner (λ done. visited (node_id ∷ done))

-- The search goes no deeper than there are nodes.
unfoldable pub assert_acyclic : Dependencies → Visit
unfolding visit_all dfs
assert_acyclic nodes = visit_all (dfs nodes (suc (length nodes)) []) (ids nodes) []

-- an arrow from a node to one it depends on, and the walks along arrows
pub record Needs (nodes : Dependencies) (a b : String) : Type 0 where
  pub deps : List String
  pub found : deps_of nodes a ≡ some deps
  pub listed : Memᴰ b deps

pub data Walk (nodes : Dependencies) : String → String → Type 0 where
  step : {a b : String} → Needs nodes a b → Walk nodes a b
  onward : {a b c : String} → Walk nodes a b → Needs nodes b c → Walk nodes a c
