-- ===== src/Options/Budget.antt =====
-- wait_policy.py: what `resolve_wait_budget` returns.
use agpair.Base.{
  ◌&&◌, ℕ, String, Bool, true, false, [], ◌∷◌, Option, none, some, ◌≡◌, inl, inr, refl, arith, elem,
  Bool-cases, if◌then◌else◌, ◌==◌, eq_iff, ap, sym, subst,
}
use agpair.Base.Signed.{Seconds, is_less}
use agpair.Result.{Argument, Error, Result, ok, err, ◌>>=◌}
use agpair.Options.Wait.{
  WaitBudget, is_blank, normalized_policy, normalize_task_kind, normalize_wait_policy,
  resolve_wait_budget, background_for, valid_wait_policies, valid_task_kinds, default_wait_budget,
  normalize_seconds, seconds_or,
}
use agpair.Options.Canonical.{of_each, accepted, normalize_task_kind-canonical}

-- A chain that returns has returned at each link.
bound {ℓ κ} :
    {A : Type ℓ} {B : Type κ} (m : Result A) (f : A → Result B) (b : B)
    → (m >>= f) ≡ ok b
    → (a : A) × (m ≡ ok a) × (f a ≡ ok b)
bound (ok a) f b h = (a, refl, h)
bound (err e) f b h = absurd (cc)

-- What the two budgets may be.
abbrev AtLeast : ℕ → Option Seconds → Type 0
AtLeast m none = Unit
AtLeast m (some z) = is_less z m ≡ false

normalize_seconds-canonical :
    (v : Option Seconds) (what : Argument) (m : ℕ) (o : Option Seconds)
    → normalize_seconds v what m ≡ ok o
    → AtLeast m o × (v ≡ o)
unfolding normalize_seconds
normalize_seconds-canonical none what m none h = (tt, refl)
normalize_seconds-canonical none what m (some y) h = absurd (cc)
normalize_seconds-canonical (some z) what m none h = absurd (ground arith)
normalize_seconds-canonical (some z) what m (some y) h = elim (Bool-cases (is_less z m)) [
  | inl low ↦ absurd (ground arith)
  | inr n ↦ let same : z ≡ y = ground arith in (rw same at n, ap some same)
]

-- A value given or defaulted is in bounds, and given again is the same.
seconds_or-canonical :
    (v : Option Seconds) (what : Argument) (m : ℕ) (default o : Option Seconds)
    → AtLeast m default
    → seconds_or v what m default ≡ ok o
    → AtLeast m o × (seconds_or o what m default ≡ ok o)
unfolding seconds_or normalize_seconds
seconds_or-canonical none what m none none d h = (tt, refl)
seconds_or-canonical none what m none (some y) d h = absurd (cc)
seconds_or-canonical none what m (some x) none d h = absurd (cc)
seconds_or-canonical none what m (some x) (some y) d h =
    let same : x ≡ y = cc in let n : is_less y m ≡ false = rw same at d in (n, rw n)
seconds_or-canonical (some z) what m default none d h = absurd (ground arith)
seconds_or-canonical (some z) what m default (some y) d h =
    let (n, same) = normalize_seconds-canonical (some z) what m (some y) h in (n, rw n)

policy_default :
    (k : String)
    → elem k valid_task_kinds ≡ true
    → (elem (default_wait_budget k).wait_policy valid_wait_policies ≡ true)
      × AtLeast 0 (default_wait_budget k).controller_wait_seconds
      × AtLeast 1000 (default_wait_budget k).execution_budget_seconds
unfolding default_wait_budget
policy_default k h =
    of_each
      (λ k.
        (elem (default_wait_budget k).wait_policy valid_wait_policies ≡ true)
        × AtLeast 0 (default_wait_budget k).controller_wait_seconds
        × AtLeast 1000 (default_wait_budget k).execution_budget_seconds)
      valid_task_kinds k (it, (it, (it, (it, (it, (it, (it', tt))))))) h
  where
    it : (true ≡ true) × (false ≡ false) × (false ≡ false)
    it = (refl, refl, refl)

    it' : (true ≡ true) × Unit {0} × Unit {0}
    it' = (refl, tt, tt)

kind_fixed : (k : String) → elem k valid_task_kinds ≡ true → normalize_task_kind (some k) ≡ ok k
unfolding normalize_task_kind
kind_fixed k h =
    of_each (λ k. normalize_task_kind (some k) ≡ ok k) valid_task_kinds k
      (refl, (refl, (refl, (refl, (refl, (refl, (refl, tt))))))) h

policy_fixed :
    (k s : String)
    → elem k valid_task_kinds ≡ true
    → elem s valid_wait_policies ≡ true
    → normalize_wait_policy (some s) (some k) ≡ ok s
unfolding normalize_wait_policy
policy_fixed k s kind h =
    of_each (λ s. normalize_wait_policy (some s) (some k) ≡ ok s) valid_wait_policies s
      (
        rw (kind_fixed k kind),
        (rw (kind_fixed k kind), (rw (kind_fixed k kind), (rw (kind_fixed k kind), tt))),
      )
      h

chosen :
    (a : Bool) (d n s : String) (e : Error)
    → elem d valid_wait_policies ≡ true
    → (if a then ok d else if elem n valid_wait_policies then ok n else err e) ≡ ok s
    → elem s valid_wait_policies ≡ true
chosen true d n s e default h = let same : d ≡ s = cc in rw same at default
chosen false d n s e default h =
    let (valid, same) = accepted (elem n valid_wait_policies) n s e h in rw same at valid

normalize_wait_policy-canonical :
    (v : Option String) (k s : String)
    → elem k valid_task_kinds ≡ true
    → normalize_wait_policy v (some k) ≡ ok s
    → (elem s valid_wait_policies ≡ true) × (normalize_wait_policy (some s) (some k) ≡ ok s)
unfolding normalize_wait_policy
normalize_wait_policy-canonical v k s kind h =
    let (k', a, h1) = bound _ _ s h in
    let kind' = (normalize_task_kind-canonical (some k) k' a).0 in
    let valid =
      chosen (is_blank v) (default_wait_budget k').wait_policy (normalized_policy v) s
        (Error.value_error Argument.wait_policy) (policy_default k' kind').0 h1 in
    (valid, policy_fixed k s kind valid)

-- What a resolved budget is.
pub record IsResolved (w : WaitBudget) : Type 0 where
  pub kind : elem w.task_kind valid_task_kinds ≡ true
  pub policy : elem w.wait_policy valid_wait_policies ≡ true
  pub lease : AtLeast 0 w.controller_wait_seconds
  pub total : AtLeast 1000 w.execution_budget_seconds
  pub foreground : (elem w.wait_policy ("terminal" ∷ "strict" ∷ []) && w.background_ok) ≡ false
  pub again :
      resolve_wait_budget
        (some w.task_kind)
        (some w.wait_policy)
        w.controller_wait_seconds
        w.execution_budget_seconds
        (some w.background_ok)
      ≡ ok w

abbrev made : String → String → Option Seconds → Option Seconds → Bool → WaitBudget
made k p lease total background = record {
  task_kind = k;
  wait_policy = p;
  controller_wait_seconds = lease;
  execution_budget_seconds = total;
  background_ok = background;
}

in_foreground :
    (p : String) (asked : Option Bool) (d : Bool)
    → (elem p ("terminal" ∷ "strict" ∷ []) && background_for p asked d) ≡ false
in_foreground p asked d = elim (Bool-cases ("terminal" == p)) [
  | inl y ↦ rw (sym ((eq_iff _ _).0 y))
  | inr n ↦ elim (Bool-cases ("strict" == p)) [
    | inl y ↦ rw (sym ((eq_iff _ _).0 y))
    | inr m ↦ rw (n, m)
  ]
]

background_again :
    (p : String) (asked : Option Bool) (d : Bool)
    → background_for p (some (background_for p asked d)) d ≡ background_for p asked d
background_again p asked d = ground arith

module _ (k p : String) (asked : Option Bool) (c t : Option Seconds)
    (kind : elem k valid_task_kinds ≡ true) (policy : elem p valid_wait_policies ≡ true) where
  made-IsResolved :
      (AtLeast 0 c
        × (seconds_or c Argument.controller_wait_seconds 0
              (default_wait_budget k).controller_wait_seconds
            ≡ ok c))
      → (AtLeast 1000 t
          × (seconds_or t Argument.execution_budget_seconds 1000
                (default_wait_budget k).execution_budget_seconds
              ≡ ok t))
      → IsResolved (made k p c t (background_for p asked (default_wait_budget k).background_ok))
  unfolding resolve_wait_budget
  made-IsResolved lease total = record {
    kind = kind;
    policy = policy;
    lease = lease.0;
    total = total.0;
    foreground = in_foreground p asked (default_wait_budget k).background_ok;
    again = rw (
      kind_fixed k kind,
      policy_fixed k p kind policy,
      lease.1,
      total.1,
      background_again p asked (default_wait_budget k).background_ok,
    );
  }

-- A wait budget that resolve_wait_budget returns has a valid kind and policy; where a time of it
-- is limited, the time is not less than 0 and 1 second, in the comparison of floats, so that it is
-- at least that or is a NaN; a terminal or strict wait is not left in the background; and
-- resolving the budget again gives the same budget, where a NaN counts as the same as a NaN.
pub resolve_wait_budget-IsResolved :
    (kind policy : Option String) (lease total : Option Seconds) (background : Option Bool)
    (w : WaitBudget)
    → resolve_wait_budget kind policy lease total background ≡ ok w
    → IsResolved w
unfolding resolve_wait_budget
resolve_wait_budget-IsResolved kind policy lease total background w h =
    let (k, a, h1) = bound _ _ w h in
    let (kind_valid, _) = normalize_task_kind-canonical kind k a in
    let (p, b, h2) = bound _ _ w h1 in
    let (policy_valid, _) = normalize_wait_policy-canonical policy k p kind_valid b in
    let (_, lease_default, total_default) = policy_default k kind_valid in
    let (c, lc, h3) = bound _ _ w h2 in
    let (t, lt, h4) = bound _ _ w h3 in
    subst IsResolved (cc) (
      made-IsResolved k p background c t kind_valid policy_valid
        (seconds_or-canonical lease _ 0 _ c lease_default lc)
        (seconds_or-canonical total _ 1000 _ t total_default lt))
