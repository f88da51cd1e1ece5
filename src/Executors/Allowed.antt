-- ===== src/Executors/Allowed.antt =====
-- Which executors the policy lets a task go to.
use agpair.Base.{
  map, if◌then◌else◌, replace_char, ◌&&◌, String, Bool, true, false, not, ◌||◌, List, [], ◌∷◌, ◌++◌,
  Option, none, some, ◌≡◌, refl, sym, ap, ◌∙◌, arith, elem, select, truthy, or_default, ◌==◌,
  eq_iff, Bool-cases, inl, inr,
}
use agpair.Base.Chain.{if-rule}
use agpair.Base.Selected.{elem-select}
use agpair.Result.{ok, OnOk, bind-OnOk, read}
use agpair.Executors.{
  claude_code, codex, ExecutorSpec, suppressed_executors_for_controller, ExecutorPolicyOverlay,
  ExecutorPolicyDecision, Health, controller_id, listed_for, normalized_request, is_requested,
  first_of, skip_reason, is_eligible, selected_of, decide, resolve_controller_policy,
  next_eligible_executor,
}

abbrev text_or : String → Option String → String
text_or s none = s
text_or s (some t) = t

first-elem : (xs : List String) (x : String) → first_of xs ≡ some x → elem x xs ≡ true
first-elem [] x e = absurd (ground arith)
first-elem (y ∷ ys) x e = ground (arith, (eq_iff y x).1 (ap (text_or y) e))

selected-elem :
    (requested : Option String) (xs : List String) (x : String)
    → selected_of requested xs ≡ some x
    → elem x xs ≡ true
selected-elem none xs x e = first-elem xs x e
selected-elem (some r) xs x e = elim (Bool-cases (elem r xs)) [
  | inl y ↦ rw (sym (ap (text_or r) (rw y at e))) y
  | inr n ↦ absurd (ground arith)
]

-- the executor that a controller is itself: Codex under one name, Claude under two
abbrev pub is_own : String → String → Bool
is_own controller executor_id =
    ("codex" == controller && "codex" == executor_id)
    || (("claude" == controller || "claude-code" == controller) && "claude-code" == executor_id)

-- the executors that are suppressed, by what the name of the controller is
by_name :
    (claude code openai : Bool) (s t : ExecutorSpec) (x : String)
    → elem x (
        map
          (λ (r : ExecutorSpec). r.executor_id)
          (if claude || (code || (code || false))
            then s ∷ (if openai || false then t ∷ [] else [])
            else if openai || false
            then t ∷ []
            else []))
      ≡ false
    → (false || not ((openai && t.executor_id == x) || ((claude || code) && s.executor_id == x)))
      ≡ true
by_name true code true s t x h = ground arith
by_name true code false s t x h = ground arith
by_name false true true s t x h = ground arith
by_name false true false s t x h = ground arith
by_name false false true s t x h = ground arith
by_name false false false s t x h = refl

is_own-suppressed :
    (controller : String) (allow_self_executor : Bool) (x : String)
    → elem x (suppressed_executors_for_controller controller allow_self_executor) ≡ false
    → (allow_self_executor || not (is_own controller x)) ≡ true
unfolding suppressed_executors_for_controller replace_char
is_own-suppressed controller true x h = refl
is_own-suppressed controller false x h =
    by_name ("claude" == controller) ("claude-code" == controller) ("codex" == controller)
      claude_code codex x h

-- An executor that may get the task: one that is not suppressed for the controller nor disabled,
-- and is available where that is required.
pub record IsAllowed (health : String → Health) (suppressed disabled : List String)
    (require_available : Bool) (executor_id : String) : Type 0 where
  pub unsuppressed : elem executor_id suppressed ≡ false
  pub enabled : elem executor_id disabled ≡ false
  pub available : (not require_available || (health executor_id).available) ≡ true

module _ (health : String → Health) where
  failure_named :
      (failure : Option String) → (or_default failure "executor_unavailable" == "") ≡ false
  failure_named none = refl
  failure_named (some s) = elim (Bool-cases (s == "")) [ inl y ↦ rw y refl | inr n ↦ rw n n ]

  eligible-IsAllowed :
      (suppressed disabled : List String) (require_available : Bool) (x : String)
      → is_eligible health suppressed disabled require_available x ≡ true
      → IsAllowed health suppressed disabled require_available x
  unfolding skip_reason
  eligible-IsAllowed suppressed disabled require_available x h = record {
    unsuppressed = ground (arith, failure_named (health x).last_failure_type);
    enabled = ground (arith, failure_named (health x).last_failure_type);
    available = ground (arith, failure_named (health x).last_failure_type);
  }

  module _ (allow_self_executor require_available : Bool) (overlay : ExecutorPolicyOverlay) where
    -- what holds of the executors that a decision finds eligible, and of the one it selects
    record IsDecision (named : String) (d : ExecutorPolicyDecision) : Type 0 where
      controller : d.controller ≡ named
      suppressed :
          d.suppressed_executors
          ≡ suppressed_executors_for_controller d.controller allow_self_executor
      allowed :
          (x : String)
          → elem x d.eligible_executors ≡ true
          → IsAllowed health d.suppressed_executors
              (overlay.disabled_global ++ listed_for d.controller overlay.controller_disabled)
              require_available
              x
      eligible : (x : String) → d.selected_executor ≡ some x → elem x d.eligible_executors ≡ true

    decide-IsDecision :
        (controller : String) (requested : Option String) (specs : List String)
        → IsDecision controller (
            decide health controller requested
              (suppressed_executors_for_controller controller allow_self_executor)
              (overlay.disabled_global ++ listed_for controller overlay.controller_disabled)
              require_available
              specs)
    unfolding decide
    decide-IsDecision controller requested specs =
        let suppressed = suppressed_executors_for_controller controller allow_self_executor in
        let disabled =
          overlay.disabled_global ++ listed_for controller overlay.controller_disabled in
        let fits = is_eligible health suppressed disabled require_available in
        record {
          controller = refl;
          suppressed = refl;
          allowed = λ x m.
              eligible-IsAllowed suppressed disabled require_available x
                (ground (arith, elem-select fits x specs));
          eligible = λ x e. selected-elem requested (select fits specs) x e;
        }

    resolve_controller_policy-IsDecision :
        (controller requested_executor : Option String)
        → OnOk (IsDecision (controller_id controller)) (
            resolve_controller_policy health controller requested_executor allow_self_executor
              require_available overlay)
    unfolding resolve_controller_policy
    resolve_controller_policy-IsDecision controller requested_executor =
        bind-OnOk (IsDecision (controller_id controller)) (normalized_request requested_executor) _
          (λ requested _. decide-IsDecision (controller_id controller) requested _)

  -- A decision is for the controller by its normal name, and an executor that it selects is
  -- eligible; unless a controller may use its own executor, it is not codex for the controller
  -- codex, and not claude-code for the controller claude or claude-code; it is not disabled by the
  -- overlay, and is available where that is required.
  pub resolve_controller_policy-selected :
      (controller requested_executor : Option String) (allow_self_executor require_available : Bool)
      (overlay : ExecutorPolicyOverlay) (d : ExecutorPolicyDecision) (x : String)
      → resolve_controller_policy health controller requested_executor allow_self_executor
          require_available overlay
        ≡ ok d
      → d.selected_executor ≡ some x
      → (d.controller ≡ controller_id controller)
        × (elem x d.eligible_executors ≡ true)
        × ((allow_self_executor || not (is_own d.controller x)) ≡ true)
        × (elem x (overlay.disabled_global ++ listed_for d.controller overlay.controller_disabled)
            ≡ false)
        × ((not require_available || (health x).available) ≡ true)
  resolve_controller_policy-selected controller requested allow_self require overlay d x e s =
      let is =
        read (IsDecision allow_self require overlay (controller_id controller)) e
          (resolve_controller_policy-IsDecision allow_self require overlay controller requested) in
      let allowed = is.allowed x (is.eligible x s) in
      (
        is.controller,
        is.eligible x s,
        is_own-suppressed d.controller allow_self x (rw (sym is.suppressed) allowed.unsuppressed),
        allowed.enabled,
        allowed.available,
      )

  module _ (controller current_executor requested_executor : Option String)
      (allow_self_executor require_available : Bool) (overlay : ExecutorPolicyOverlay) where
    -- another executor than the current one, which the policy allows when none is asked for
    pub record IsNext (x : String) : Type 0 where
      pub unasked : truthy requested_executor ≡ false
      pub other : is_requested current_executor x ≡ false
      pub decision : ExecutorPolicyDecision
      pub resolved :
          resolve_controller_policy health controller none allow_self_executor require_available
            overlay
          ≡ ok decision
      pub eligible : elem x decision.eligible_executors ≡ true
      pub allowed :
          IsAllowed health decision.suppressed_executors
            (overlay.disabled_global ++ listed_for decision.controller overlay.controller_disabled)
            require_available
            x

    abbrev AreNext : Option String → Type 0
    AreNext o = (x : String) → o ≡ some x → IsNext x

    next-AreNext :
        (d : ExecutorPolicyDecision)
        → truthy requested_executor ≡ false
        → resolve_controller_policy health controller none allow_self_executor require_available
            overlay
          ≡ ok d
        → AreNext (
            first_of (
              select
                (λ candidate. not (is_requested current_executor candidate))
                d.eligible_executors))
    next-AreNext d n e x s =
        let is =
          read (IsDecision allow_self_executor require_available overlay (controller_id controller))
            e
            (resolve_controller_policy-IsDecision allow_self_executor require_available overlay
              controller none) in
        let found =
          sym (
            elem-select (λ candidate. not (is_requested current_executor candidate)) x
              d.eligible_executors)
          ∙ first-elem _ x s in
        let m : elem x d.eligible_executors ≡ true = ground arith in
        record {
          unasked = n;
          other = ground arith;
          decision = d;
          resolved = e;
          eligible = m;
          allowed = is.allowed x m;
        }

    -- A next executor is found only if none was asked for; it is another than the current one, and
    -- eligible in the decision that the policy makes for a request of none: not suppressed, not
    -- disabled and available where that is required.
    pub next_eligible_executor-IsNext :
        (x : String)
        → next_eligible_executor health controller current_executor requested_executor
            allow_self_executor require_available overlay
          ≡ ok (some x)
        → IsNext x
    unfolding next_eligible_executor
    next_eligible_executor-IsNext x e =
        read AreNext e
          (if-rule (OnOk AreNext) (truthy requested_executor) _ _ (λ _ x e. absurd (ground arith))
            (λ n.
              bind-OnOk AreNext
                (resolve_controller_policy health controller none allow_self_executor
                  require_available overlay)
                (λ d. ok (
                  first_of (
                    select (λ candidate. not (is_requested current_executor candidate))
                      d.eligible_executors)))
                (λ d r. next-AreNext d n r)))
          x refl
