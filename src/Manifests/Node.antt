-- ===== src/Manifests/Node.antt =====
-- workflows/schema.py: the validation of one node of a manifest.
use Prim.Native.Char.{code}
use Prim.Native.String.{count}
use agpair.Base.{
  ℕ, String, Bool, true, false, not, ◌&&◌, ◌||◌, List, [], ◌∷◌, Option, none, some, strip, elem,
  length, leb, ltb, eqb, or_default, if◌then◌else◌, ◌==◌,
}
use agpair.Base.Signed.{pos}
use agpair.Json.{
  Json, Items, Fields, null, text, array, object, integer, nil, cons, has, get, as_text, as_object,
  or_json, text_of, truth, is_null,
}
use agpair.Result.{Problem, Error, Result, ok, err, ◌>>=◌, ◌>>◌, require, Argument}
use agpair.Options.Role.{normalize_coordination_role}
use agpair.Options.Profile.{validate_authorization_profile}
use agpair.Options.Completion.{normalize_completion_policy}
use agpair.Options.Environment.{normalize_executor_id}
use agpair.Manifests.Limits.{Limits, normalize_int}
use agpair.Manifests.Coordination.{problem, get_or, texts_of, given}

pub record ManifestNode : Type 0 where
  pub node_id : String
  pub kind : String
  pub coordination_role : String
  pub depends_on : List String
  pub body : Option String
  pub authorization_profile : String
  pub completion_policy : String
  pub max_retries : ℕ
  pub allow_partial : Bool
  pub isolated_worktree : Bool
  pub executor : Option String

-- what the nodes take from the manifest
pub record Defaults : Type 0 where
  pub limits : Limits
  pub authorization_profile : String
  pub completion_policy : String

is_id_char : ℕ → Bool
is_id_char c =
    (leb 65 c && leb c 90)
    || (leb 97 c && leb c 122)
    || (leb 48 c && leb c 57)
    || eqb c b'_'
    || eqb c b'.'
    || eqb c b'-'

-- `$` also matches before a last line feed.
matches_rest : String → Bool
matches_rest String.[] = true
matches_rest (String.◌∷◌ c s) =
    let rest = matches_rest s in (is_id_char (code c) && rest) || (eqb (code c) 10 && (s == ""))

unfoldable pub matches_node_id : String → Bool
unfolding is_id_char matches_rest
matches_node_id String.[] = false
matches_node_id (String.◌∷◌ c s) = is_id_char (code c) && matches_rest s

abbrev pub node_kinds : List String
node_kinds = "task" ∷ "synthesis" ∷ "verification" ∷ "gate" ∷ []

-- `value in a frozenset`, which raises where the value cannot be hashed
abbrev pub as_member : Json → List String → Error → Result String
as_member (text s) allowed e = if elem s allowed then ok s else err e
as_member (array vs) allowed e = err (problem Problem.wrong_type)
as_member (object d) allowed e = err (problem Problem.wrong_type)
as_member _ allowed e = err e

unfoldable pub default_coordination_role_for_kind : String → String
default_coordination_role_for_kind kind =
    if kind == "synthesis"
    then "synthesizer"
    else if kind == "gate"
    then "gate"
    else if kind == "verification"
    then "verifier"
    else "general"

unfoldable pub role_of : Json → Result (Option String)
role_of null = ok none
role_of (text s) = normalize_coordination_role (some s)
role_of _ = err (problem Problem.wrong_type)

unfoldable pub id_of : Fields → List String → Result String
unfolding strip matches_node_id
id_of node ids = do
  node_id ← given (as_text (get "id" node)) (problem Problem.bad_node_id)
  require (not (strip node_id == "") && matches_node_id node_id) (problem Problem.bad_node_id)
  require (not (elem node_id ids)) (problem Problem.duplicate_node_id)
  ok node_id

-- `node.get("depends_on", [])`, where `None` stands for no dependencies
abbrev pub deps_value : Json → Json
deps_value null = array nil
deps_value v = v

unfoldable pub dependencies_of : Fields → Result (List String)
dependencies_of node = do
  deps ← given (texts_of (deps_value (get "depends_on" node))) (problem Problem.bad_dependencies)
  require (leb (length deps) 20) (problem Problem.bad_dependencies)
  ok deps

abbrev is_blank : Json → Bool
is_blank body = elim (as_text body) [ none ↦ true | some s ↦ strip s == "" ]

abbrev is_long : Json → Bool
is_long body = elim (as_text body) [ none ↦ false | some s ↦ ltb 50000 (count s) ]

unfoldable pub body_of : Fields → String → Result (Option String)
unfolding strip
body_of node kind = do
  let body = or_json (or_json (get "body" node) (get "prompt" node)) (text "")
  require ((kind == "gate") || not (is_blank body)) (problem Problem.no_body)
  require (not (is_long body)) (problem Problem.long_body)
  ok (as_text body)

-- `str(node.get(key, default))`
abbrev pub text_field : String → Fields → String → String
text_field key d default = if has key d then text_of (get key d) else default

abbrev pub is_readonly_kind : String → Bool
is_readonly_kind kind = elem kind ("synthesis" ∷ "gate" ∷ [])

-- Every executor of the registry is active.
unfoldable pub validate_supported_executor : String → Result String
unfolding normalize_executor_id
validate_supported_executor executor_id = do
  normalized ← normalize_executor_id executor_id
  if elem normalized ("grok-cli" ∷ "antigravity-cli" ∷ "claude-code" ∷ "codex" ∷ [])
      then ok normalized
      else err (Error.value_error Argument.executor)

abbrev pub executor_of : Json → Result (Option String)
executor_of value =
    if is_null value
    then ok none
    else validate_supported_executor (text_of value) >>= λ executor. ok (some executor)

unfoldable pub validate_node : Fields → List String → Defaults → Result ManifestNode
unfolding default_coordination_role_for_kind validate_supported_executor text_of
validate_node node ids defaults = do
  node_id ← id_of node ids
  kind ← as_member (get_or "kind" node (text "task")) node_kinds (problem Problem.bad_kind)
  role ← role_of (get "coordination_role" node)
  deps ← dependencies_of node
  body ← body_of node kind
  let readonly = is_readonly_kind kind
  profile ← validate_authorization_profile (
      some (
        text_field "authorization_profile" node
          (if readonly then "local_readonly" else defaults.authorization_profile)))
  completion ← normalize_completion_policy (
      some (
        text_field "completion_policy" node
          (if readonly then "report" else defaults.completion_policy)))
  retries ←
      normalize_int (get_or "max_retries" node (integer (pos defaults.limits.max_retries_per_node)))
        0 10
  executor ← executor_of (get "executor" node)
  ok record {
    node_id = node_id;
    kind = kind;
    coordination_role = or_default role (default_coordination_role_for_kind kind);
    depends_on = deps;
    body = body;
    authorization_profile = profile;
    completion_policy = completion;
    max_retries = retries;
    allow_partial = truth (get "allow_partial" node);
    isolated_worktree = truth (get "isolated_worktree" node);
    executor = executor;
  }

-- the loop over the nodes; `ids` are those of the nodes before
unfoldable pub validate_nodes : Items → List String → Defaults → Result (List ManifestNode)
validate_nodes nil ids defaults = ok []
validate_nodes (cons raw_node rest) ids defaults = do
  d ← given (as_object raw_node) (problem Problem.bad_node)
  node ← validate_node d ids defaults
  nodes ← validate_nodes rest (node.node_id ∷ ids) defaults
  ok (node ∷ nodes)
