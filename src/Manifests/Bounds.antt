-- ===== src/Manifests/Bounds.antt =====
-- The ranges of the numbers in a manifest that is accepted.
use agpair.Base.{
  ℕ, ◌≤◌, String, Bool, true, not, ◌&&◌, ◌≡◌, arith, leb, ltb, Bool-cases, inl, inr, if◌then◌else◌,
}
use agpair.Base.Signed.{pos, negsuc}
use agpair.Json.{Json, Fields, has, get, integer}
use agpair.Result.{Result, ok, err, OnOk, bind-OnOk, require-OnOk, read, Error, Problem}
use agpair.Manifests.Limits.{
  Limits, normalize_int, given_limit, in_range, limits_object, read_limits, checked_limits,
  normalize_limits, max_nodes_default,
}

abbrev pub Between : ℕ → ℕ → ℕ → Type 0
Between a b n = (a ≤ n) × (n ≤ b)

within :
    (a b n : ℕ)
    → OnOk
        (Between a b)
        (if leb a n && leb n b then ok n else err (Error.manifest_error Problem.out_of_range))
within a b n = elim (Bool-cases (leb a n && leb n b)) [
  | inl y ↦ rw y (ground arith)
  | inr m ↦ rw m tt
]

pub normalize_int-Between : (value : Json) (a b : ℕ) → OnOk (Between a b) (normalize_int value a b)
unfolding normalize_int
normalize_int-Between (integer (pos n)) a b = within a b n
normalize_int-Between (integer (negsuc n)) a b = tt
normalize_int-Between Json.null a b = tt
normalize_int-Between (Json.boolean x) a b = tt
normalize_int-Between (Json.floating x) a b = tt
normalize_int-Between (Json.text x) a b = tt
normalize_int-Between (Json.array x) a b = tt
normalize_int-Between (Json.object x) a b = tt

given_limit-positive :
    (raw : Fields) (key : String) (default : ℕ)
    → 1 ≤ default
    → OnOk (λ n. 1 ≤ n) (given_limit raw key default)
unfolding given_limit
given_limit-positive raw key default h = elim (Bool-cases (has key raw)) [
  | inl y ↦ rw y (weaken _ (normalize_int-Between (get key raw) 1 604800))
  | inr n ↦ rw n h
]
  where
    weaken : (r : Result ℕ) → OnOk (Between 1 604800) r → OnOk (λ n. 1 ≤ n) r
    weaken (ok n) h = h.0
    weaken (err e) h = tt

-- A number in its range is passed on.
abbrev Same : ℕ → ℕ → ℕ → ℕ → Type 0
Same n a b m = (m ≡ n) × (a ≤ m) × (m ≤ b)

in_range-Same : (n a b : ℕ) → OnOk (Same n a b) (in_range n a b)
unfolding in_range normalize_int
in_range-Same n a b = elim (Bool-cases (leb a n && leb n b)) [
  | inl y ↦ rw y (ground arith)
  | inr m ↦ rw m tt
]

-- the limits of an accepted workflow
pub record AreLimits (allow_large_workflow : Bool) (limits : Limits) : Type 0 where
  pub parallel : Between 1 16 limits.max_parallel_tasks
  pub children : Between 1 1000 limits.max_child_tasks
  pub large :
      (not (ltb max_nodes_default limits.max_child_tasks && not allow_large_workflow)) ≡ true
  pub retries : Between 1 10 limits.max_retries_per_node
  pub runtime : Between 60 604800 limits.max_runtime_seconds
  pub watched : Between 1 100000 limits.max_watch_events

checked_limits-AreLimits :
    (limits : Limits) (large : Bool)
    → 1 ≤ limits.max_retries_per_node
    → OnOk (AreLimits large) (checked_limits limits large)
unfolding checked_limits
checked_limits-AreLimits limits large h =
    bind-OnOk (AreLimits large) (in_range limits.max_parallel_tasks 1 16) _ (λ p e.
      bind-OnOk (AreLimits large) (in_range limits.max_child_tasks 1 1000) _ (λ c f.
        require-OnOk (AreLimits large) (not (ltb max_nodes_default c && not large)) _ _ (λ r.
          bind-OnOk (AreLimits large) (in_range limits.max_retries_per_node 0 10) _ (λ t g.
            bind-OnOk (AreLimits large) (in_range limits.max_runtime_seconds 60 604800) _ (λ u i.
              bind-OnOk (AreLimits large) (in_range limits.max_watch_events 1 100000) _ (λ w j.
                let bp =
                  read (Same limits.max_parallel_tasks 1 16) e
                    (in_range-Same limits.max_parallel_tasks 1 16) in
                let bc =
                  read (Same limits.max_child_tasks 1 1000) f
                    (in_range-Same limits.max_child_tasks 1 1000) in
                let bt =
                  read (Same limits.max_retries_per_node 0 10) g
                    (in_range-Same limits.max_retries_per_node 0 10) in
                let bu =
                  read (Same limits.max_runtime_seconds 60 604800) i
                    (in_range-Same limits.max_runtime_seconds 60 604800) in
                let bw =
                  read (Same limits.max_watch_events 1 100000) j
                    (in_range-Same limits.max_watch_events 1 100000) in
                record {
                  parallel = (bp.1, bp.2);
                  children = (bc.1, bc.2);
                  large = r;
                  retries = (rw bt.0 h, bt.2);
                  runtime = (bu.1, bu.2);
                  watched = (bw.1, bw.2);
                }))))))

read_limits-retries : (raw : Fields) → OnOk (λ l. 1 ≤ l.max_retries_per_node) (read_limits raw)
unfolding read_limits
read_limits-retries raw =
    let P = λ (l : Limits). 1 ≤ l.max_retries_per_node in
    bind-OnOk P (given_limit raw "max_parallel_tasks" 4) _ (λ p e.
      bind-OnOk P (given_limit raw "max_child_tasks" 20) _ (λ c f.
        bind-OnOk P (given_limit raw "max_retries_per_node" 1) _ (λ r g.
          bind-OnOk P (given_limit raw "max_runtime_seconds" 14400) _ (λ u i.
            bind-OnOk P (given_limit raw "max_watch_events" 500) _ (λ w j.
              read (λ n. 1 ≤ n) g
                (given_limit-positive raw "max_retries_per_node" 1 (omega arith)))))))

-- Limits that are accepted lie in their ranges: 1 to 16 tasks at once, 1 to 1000 children and over
-- 100 only in a workflow that may be large, 1 to 10 retries, 60 to 604800 seconds, 1 to 100000
-- events.
pub normalize_limits-AreLimits :
    (raw : Json) (allow_large_workflow : Bool) (limits : Limits)
    → normalize_limits raw allow_large_workflow ≡ ok limits
    → AreLimits allow_large_workflow limits
unfolding normalize_limits
normalize_limits-AreLimits raw large limits e = read (AreLimits large) e (
    bind-OnOk (AreLimits large) (limits_object raw) _ (λ d _.
      bind-OnOk (AreLimits large) (read_limits d) _ (λ l f.
        checked_limits-AreLimits l large
          (read (λ l. 1 ≤ l.max_retries_per_node) f (read_limits-retries d)))))
