-- ===== src/Options/Wait.antt =====
-- wait_policy.py: kinds of task, wait policies and wait budgets.
use agpair.Base.{
  ℕ, ◌*◌, String, Bool, true, false, ◌||◌, List, [], ◌∷◌, Option, none, some, if◌then◌else◌, strip,
  lower, replace_char, elem, or_default, ◌==◌,
}
use agpair.Base.Signed.{pos, Seconds, thousandths, is_less}
use agpair.Result.{Argument, Error, Result, ok, err, ◌>>=◌}

abbrev pub valid_task_kinds : List String
valid_task_kinds =
    "quick_review" ∷ "deep_review" ∷ "implementation" ∷ "test_fix" ∷ "research" ∷ "smoke"
    ∷ "generic" ∷ []

abbrev pub valid_wait_policies : List String
valid_wait_policies = "terminal" ∷ "lease" ∷ "background" ∷ "strict" ∷ []

pub record WaitBudget : Type 0 where
  pub task_kind : String
  pub wait_policy : String
  pub controller_wait_seconds : Option Seconds
  pub execution_budget_seconds : Option Seconds
  pub background_ok : Bool

-- a budget in whole seconds, as thousandths
abbrev seconds : ℕ → Option Seconds
seconds n = some (thousandths (pos (n * 1000)))

abbrev budget : String → String → Option Seconds → Option Seconds → Bool → WaitBudget
budget kind policy lease total background = record {
  task_kind = kind;
  wait_policy = policy;
  controller_wait_seconds = lease;
  execution_budget_seconds = total;
  background_ok = background;
}

-- `DEFAULT_WAIT_BUDGETS[kind]` at a kind that was validated
unfoldable pub default_wait_budget : String → WaitBudget
default_wait_budget kind =
    if kind == "quick_review"
    then budget kind "lease" (seconds 120) (seconds 900) true
    else if kind == "deep_review"
    then budget kind "lease" (seconds 240) (seconds 1800) true
    else if kind == "implementation"
    then budget kind "lease" (seconds 300) (seconds 3600) true
    else if kind == "test_fix"
    then budget kind "lease" (seconds 300) (seconds 3600) true
    else if kind == "research"
    then budget kind "lease" (seconds 300) (seconds 5400) true
    else if kind == "smoke"
    then budget kind "strict" (seconds 300) (seconds 600) false
    else budget kind "terminal" none none false

unfoldable pub normalize_task_kind : Option String → Result String
unfolding strip lower replace_char
normalize_task_kind value =
    let normalized = replace_char "-" "_" (lower (strip (or_default value "generic"))) in
    if elem normalized valid_task_kinds
    then ok normalized
    else err (Error.value_error Argument.task_kind)

-- `value is None or not str(value).strip()`
abbrev pub is_blank : Option String → Bool
is_blank none = true
is_blank (some value) = strip value == ""

-- `str(value or "").strip().lower().replace("-", "_")`
unfoldable pub normalized_policy : Option String → String
unfolding strip lower replace_char
normalized_policy value = replace_char "-" "_" (lower (strip (or_default value "")))

unfoldable pub normalize_wait_policy : Option String → Option String → Result String
unfolding strip lower replace_char normalized_policy normalize_task_kind default_wait_budget
normalize_wait_policy value task_kind = do
  kind ← normalize_task_kind task_kind
  let normalized = normalized_policy value
  if is_blank value
      then ok (default_wait_budget kind).wait_policy
      else if elem normalized valid_wait_policies
      then ok normalized
      else err (Error.value_error Argument.wait_policy)

-- `minimum` is in thousandths
unfoldable pub normalize_seconds : Option Seconds → Argument → ℕ → Result (Option Seconds)
normalize_seconds none field minimum = ok none
normalize_seconds (some value) field minimum =
    if is_less value minimum then err (Error.value_error field) else ok (some value)

-- `_normalize_seconds(value) if value is not None else default`
unfoldable pub seconds_or : Option Seconds → Argument → ℕ → Option Seconds → Result (Option Seconds)
unfolding normalize_seconds
seconds_or none field minimum default = ok default
seconds_or (some value) field minimum default = normalize_seconds (some value) field minimum

-- `terminal` and `strict` waits do not leave the task in the background
abbrev pub background_for : String → Option Bool → Bool → Bool
background_for policy asked default =
    if policy == "terminal" || policy == "strict"
    then false
    else elim asked [ none ↦ default | some b ↦ b ]

unfoldable pub resolve_wait_budget :
    Option String
    → Option String
    → Option Seconds
    → Option Seconds
    → Option Bool
    → Result WaitBudget
unfolding seconds_or
resolve_wait_budget task_kind wait_policy controller_wait_seconds execution_budget_seconds
      background_ok =
    do
      kind ← normalize_task_kind task_kind
      policy ← normalize_wait_policy wait_policy (some kind)
      let defaults = default_wait_budget kind
      lease ←
          seconds_or controller_wait_seconds Argument.controller_wait_seconds 0
            defaults.controller_wait_seconds
      total ←
          seconds_or execution_budget_seconds Argument.execution_budget_seconds 1000
            defaults.execution_budget_seconds
      ok (record {
        task_kind = kind;
        wait_policy = policy;
        controller_wait_seconds = lease;
        execution_budget_seconds = total;
        background_ok = background_for policy background_ok defaults.background_ok;
      })
