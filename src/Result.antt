-- ===== src/Result.antt =====
-- The exceptions that the modelled code raises, and functions that may raise.
use agpair.Base.{String, Bool, ◌≡◌, refl, subst}
use agpair.Models.{Phase}

-- which argument a `ValueError` is about
pub data Argument : Type 0 where
  authorization_profile completion_policy task_kind wait_policy : Argument
  controller_wait_seconds execution_budget_seconds : Argument
  coordination_role executor environment_mode lifecycle_status : Argument

-- what a `WorkflowManifestError` is about; `wrong_type` is the `TypeError` or `AttributeError` of a value
-- that is no text
pub data Problem : Type 0 where
  not_an_object forbidden_field bad_version bad_name bad_controller no_repo_path : Problem
  bad_limits not_an_integer out_of_range too_many_children large_workflow : Problem
  bad_coordination no_nodes too_many_nodes bad_node bad_node_id duplicate_node_id : Problem
  bad_kind bad_dependencies no_body long_body unknown_dependency dependency_cycle : Problem
  no_synthesis_or_gate wrong_type : Problem

pub data Error : Type 0 where
  task_not_found : String → Error
  illegal_transition : String → Phase → Phase → Error
  value_error : Argument → Error
  integrity_error : Error
  manifest_error : Problem → Error
  assertion_error : Error
  workflow_not_found : String → Error
  executor_error : String → Error
  workflow_node_not_found : String → String → Error

pub data Result {ℓ} (A : Type ℓ) : Type ℓ where
  ok : A → Result A
  err : Error → Result A

infixl 5 ◌>>=◌ ◌>>◌
abbrev pub ◌>>=◌ {ℓ κ} : {A : Type ℓ} {B : Type κ} → Result A → (A → Result B) → Result B
ok a >>= f = f a
err e >>= f = err e

abbrev pub ◌>>◌ {ℓ κ} : {A : Type ℓ} {B : Type κ} → Result A → Result B → Result B
m >> k = m >>= λ _. k

-- `try: m except ValueError: r`: the only exceptions of the calls it stands round are of this kind
abbrev pub on_value_error {ℓ} : {A : Type ℓ} → Result A → Result A → Result A
on_value_error (ok a) r = ok a
on_value_error (err (Error.value_error x)) r = r
on_value_error (err e) r = err e

-- what holds of the value that is returned, if one is
abbrev pub OnOk {ℓ} : {A : Type ℓ} → (A → Type 0) → Result A → Type 0
OnOk P (ok a) = P a
OnOk P (err e) = Unit

pub bind-OnOk {ℓ κ} :
    {A : Type ℓ} {B : Type κ} (P : B → Type 0) (m : Result A) (f : A → Result B)
    → ((a : A) → m ≡ ok a → OnOk P (f a))
    → OnOk P (m >>= f)
bind-OnOk P (ok a) f h = h a refl
bind-OnOk P (err e) f h = tt

-- `if not b: raise e`
abbrev pub require : Bool → Error → Result (Unit {0})
require Bool.true e = ok tt
require Bool.false e = err e

pub require-OnOk {ℓ} :
    {A : Type ℓ} (P : A → Type 0) (b : Bool) (e : Error) (k : Result A)
    → (b ≡ Bool.true → OnOk P k)
    → OnOk P (require b e >> k)
require-OnOk P Bool.true e k h = h refl
require-OnOk P Bool.false e k h = tt

-- A check that must pass before what comes after.
pub check-OnOk {ℓ} :
    {A : Type ℓ} (P : A → Type 0) (m : Result (Unit {0})) (k : Result A)
    → (m ≡ ok tt → OnOk P k)
    → OnOk P (m >> k)
check-OnOk P (ok tt) k h = h refl
check-OnOk P (err e) k h = tt

-- What holds of a value that is returned, read off.
pub read {ℓ} : {A : Type ℓ} (P : A → Type 0) {m : Result A} {a : A} → m ≡ ok a → OnOk P m → P a
read P e h = subst (OnOk P) e h
