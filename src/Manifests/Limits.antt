-- ===== src/Manifests/Limits.antt =====
-- workflows/schema.py: integers in a range, and the limits of a workflow.
use agpair.Base.{ℕ, String, Bool, not, ◌&&◌, none, some, leb, ltb, if◌then◌else◌}
use agpair.Base.Signed.{pos, negsuc}
use agpair.Json.{Json, Fields, null, object, end, integer, has, get, as_integer}
use agpair.Result.{Problem, Error, Result, ok, err, ◌>>=◌, ◌>>◌, require}

-- The ranges hold no negative numbers.
unfoldable pub normalize_int : Json → ℕ → ℕ → Result ℕ
normalize_int value min_value max_value = elim (as_integer value) [
  | none ↦ err (Error.manifest_error Problem.not_an_integer)
  | some (negsuc n) ↦ err (Error.manifest_error Problem.out_of_range)
  | some (pos n) ↦
      if leb min_value n && leb n max_value
      then ok n
      else err (Error.manifest_error Problem.out_of_range)
]

pub record Limits : Type 0 where
  pub max_parallel_tasks : ℕ
  pub max_child_tasks : ℕ
  pub max_retries_per_node : ℕ
  pub max_runtime_seconds : ℕ
  pub max_watch_events : ℕ

abbrev pub max_nodes_default : ℕ
max_nodes_default = 100

abbrev pub max_nodes_hard : ℕ
max_nodes_hard = 1000

abbrev pub default_limits : Limits
default_limits = record {
  max_parallel_tasks = 4;
  max_child_tasks = 20;
  max_retries_per_node = 1;
  max_runtime_seconds = 14400;
  max_watch_events = 500;
}

-- one turn of the loop over the keys: the value that the manifest gives, or the default
unfoldable pub given_limit : Fields → String → ℕ → Result ℕ
unfolding normalize_int
given_limit raw key default =
    if has key raw then normalize_int (get key raw) 1 604800 else ok default

-- the range of a limit that was read
unfoldable pub in_range : ℕ → ℕ → ℕ → Result ℕ
unfolding normalize_int
in_range n min_value max_value = normalize_int (integer (pos n)) min_value max_value

unfoldable pub read_limits : Fields → Result Limits
unfolding given_limit
read_limits raw = do
  parallel ← given_limit raw "max_parallel_tasks" default_limits.max_parallel_tasks
  children ← given_limit raw "max_child_tasks" default_limits.max_child_tasks
  retries ← given_limit raw "max_retries_per_node" default_limits.max_retries_per_node
  runtime ← given_limit raw "max_runtime_seconds" default_limits.max_runtime_seconds
  watched ← given_limit raw "max_watch_events" default_limits.max_watch_events
  ok record {
    max_parallel_tasks = parallel;
    max_child_tasks = children;
    max_retries_per_node = retries;
    max_runtime_seconds = runtime;
    max_watch_events = watched;
  }

unfoldable pub checked_limits : Limits → Bool → Result Limits
unfolding in_range
checked_limits limits allow_large_workflow = do
  parallel ← in_range limits.max_parallel_tasks 1 16
  children ← in_range limits.max_child_tasks 1 max_nodes_hard
  require (not (ltb max_nodes_default children && not allow_large_workflow))
      (Error.manifest_error Problem.large_workflow)
  retries ← in_range limits.max_retries_per_node 0 10
  runtime ← in_range limits.max_runtime_seconds 60 604800
  watched ← in_range limits.max_watch_events 1 100000
  ok record {
    max_parallel_tasks = parallel;
    max_child_tasks = children;
    max_retries_per_node = retries;
    max_runtime_seconds = runtime;
    max_watch_events = watched;
  }

-- `raw` where it is a mapping, and an empty one where it is `None`
unfoldable pub limits_object : Json → Result Fields
limits_object null = ok end
limits_object (object d) = ok d
limits_object _ = err (Error.manifest_error Problem.bad_limits)

unfoldable pub normalize_limits : Json → Bool → Result Limits
unfolding limits_object read_limits checked_limits
normalize_limits raw allow_large_workflow = do
  d ← limits_object raw
  limits ← read_limits d
  checked_limits limits allow_large_workflow
