-- ===== src/Manifests/Coordination.antt =====
-- workflows/schema.py: lists of texts, and the coordination policy of a workflow.
use agpair.Base.{
  ℕ, String, List, [], ◌∷◌, Option, none, some, strip, lower, elem, or_default, if◌then◌else◌, ◌==◌,
}
use agpair.Base.Signed.{pos}
use agpair.Json.{
  Json, Items, Fields, null, text, array, object, integer, nil, cons, has, get, as_text, or_json,
  text_of,
}
use agpair.Result.{Problem, Error, Result, ok, err, ◌>>=◌, ◌>>◌, require}
use agpair.Options.Role.{normalize_coordination_role}
use agpair.Manifests.Limits.{normalize_int}

abbrev pub problem : Problem → Error
problem = Error.manifest_error

-- `d.get(key, value)`
abbrev pub get_or : String → Fields → Json → Json
get_or key d value = if has key d then get key d else value

-- what `isinstance(value, list) and all(isinstance(item, str) for item in value)` lets through
abbrev pub texts_in : Items → Option (List String)
texts_in nil = some []
texts_in (cons v vs) =
    let rest = texts_in vs in
    elim (as_text v) [ none ↦ none | some s ↦ elim rest [ none ↦ none | some ss ↦ some (s ∷ ss) ] ]

abbrev pub texts_of : Json → Option (List String)
texts_of (array vs) = texts_in vs
texts_of _ = none

abbrev pub given {ℓ} : {A : Type ℓ} → Option A → Error → Result A
given none e = err e
given (some a) e = ok a

unfoldable pub normalize_roles : List String → Result (List String)
unfolding normalize_coordination_role
normalize_roles [] = ok []
normalize_roles (role ∷ roles) = do
  first ← normalize_coordination_role (some role)
  rest ← normalize_roles roles
  ok (or_default first "general" ∷ rest)

unfoldable pub normalize_role_list : Json → Result (List String)
normalize_role_list raw = do
  roles ← given (texts_of raw) (problem Problem.bad_coordination)
  normalize_roles roles

abbrev stripped : List String → List String
stripped [] = []
stripped (s ∷ ss) = let rest = stripped ss in if strip s == "" then rest else strip s ∷ rest

pub record CoordinationPolicy : Type 0 where
  pub style : String
  pub expected_roles : List String
  pub optional_roles : List String
  pub stop_rule : String
  pub max_coordination_turns : ℕ
  pub routing_basis : List String

-- `str(value or default).strip().lower()`
unfoldable pub choice_of : Json → String → String
unfolding strip lower
choice_of value default = lower (strip (text_of (or_json value (text default))))

unfoldable pub policy_of : Fields → Result CoordinationPolicy
unfolding choice_of strip
policy_of policy = do
  let style = choice_of (get "style" policy) "role_orchestrated"
  require (elem style ("role_orchestrated" ∷ "fanout" ∷ "single_role" ∷ []))
      (problem Problem.bad_coordination)
  expected ← normalize_role_list (get_or "expected_roles" policy (array nil))
  optional ← normalize_role_list (get_or "optional_roles" policy (array nil))
  let stop_rule = choice_of (get "stop_rule" policy) "controller_verifies"
  require (elem stop_rule ("controller_verifies" ∷ "budget_exhausted" ∷ "manual" ∷ []))
      (problem Problem.bad_coordination)
  turns ← normalize_int (get_or "max_coordination_turns" policy (integer (pos 5))) 1 20
  basis ←
      given (texts_of (get_or "routing_basis" policy (array nil)))
        (problem Problem.bad_coordination)
  ok record {
    style = style;
    expected_roles = expected;
    optional_roles = optional;
    stop_rule = stop_rule;
    max_coordination_turns = turns;
    routing_basis = stripped basis;
  }

unfoldable pub normalize_coordination_policy : Json → Result (Option CoordinationPolicy)
normalize_coordination_policy null = ok none
normalize_coordination_policy (object policy) =
    policy_of policy >>= λ normalized. ok (some normalized)
normalize_coordination_policy _ = err (problem Problem.bad_coordination)
