-- ===== src/Options/Canonical.antt =====
-- models.py, wait_policy.py, completion.py: what the normalisers return.
use agpair.Base.{
  String, Bool, true, List, [], ◌∷◌, Option, some, ◌≡◌, inl, inr, refl, arith, elem, Bool-cases,
  if◌then◌else◌, ◌==◌, eq_iff, subst,
}
use agpair.Result.{Error, ok, err}
use agpair.Options.Profile.{validate_authorization_profile, valid_authorization_profiles}
use agpair.Options.Completion.{normalize_completion_policy, canonical_completion_policies}
use agpair.Options.Wait.{normalize_task_kind, valid_task_kinds}

-- A test that guards a result.
pub accepted :
    (b : Bool) (a s : String) (e : Error)
    → (if b then ok a else err e) ≡ ok s
    → (b ≡ true) × (a ≡ s)
accepted b a s e h = ground arith

-- What holds of every string of a list.
abbrev pub Each : (String → Type 0) → List String → Type 0
Each P [] = Unit
Each P (x ∷ xs) = P x × Each P xs

pub of_each :
    (P : String → Type 0) (xs : List String) (s : String) → Each P xs → elem s xs ≡ true → P s
of_each P [] s h e = absurd (ground arith)
of_each P (x ∷ xs) s h e = elim (Bool-cases (x == s)) [
  | inl y ↦ subst P ((eq_iff _ _).0 y) h.0
  | inr n ↦ of_each P xs s h.1 (rw n at e)
]

-- A profile that is accepted is one of the four, and is accepted as it is.
pub validate_authorization_profile-canonical :
    (p : Option String) (s : String)
    → validate_authorization_profile p ≡ ok s
    → (elem s valid_authorization_profiles ≡ true)
      × (validate_authorization_profile (some s) ≡ ok s)
unfolding validate_authorization_profile
validate_authorization_profile-canonical p s h =
    let (e, same) = accepted _ _ s _ h in
    let valid : elem s valid_authorization_profiles ≡ true = rw same at e in
    (
      valid,
      of_each (λ s. validate_authorization_profile (some s) ≡ ok s) valid_authorization_profiles s
          (refl, (refl, (refl, (refl, tt)))) valid,
    )

-- A completion policy that is accepted is one of the four, and is accepted as it is.
pub normalize_completion_policy-canonical :
    (p : Option String) (s : String)
    → normalize_completion_policy p ≡ ok s
    → (elem s canonical_completion_policies ≡ true) × (normalize_completion_policy (some s) ≡ ok s)
unfolding normalize_completion_policy
normalize_completion_policy-canonical p s h =
    let (e, same) = accepted _ _ s _ h in
    let valid : elem s canonical_completion_policies ≡ true = rw same at e in
    (
      valid,
      of_each (λ s. normalize_completion_policy (some s) ≡ ok s) canonical_completion_policies s
          (refl, (refl, (refl, (refl, tt)))) valid,
    )

pub normalize_task_kind-canonical :
    (p : Option String) (s : String)
    → normalize_task_kind p ≡ ok s
    → (elem s valid_task_kinds ≡ true) × (normalize_task_kind (some s) ≡ ok s)
unfolding normalize_task_kind
normalize_task_kind-canonical p s h =
    let (e, same) = accepted _ _ s _ h in
    let valid : elem s valid_task_kinds ≡ true = rw same at e in
    (
      valid,
      of_each (λ s. normalize_task_kind (some s) ≡ ok s) valid_task_kinds s
          (refl, (refl, (refl, (refl, (refl, (refl, (refl, tt))))))) valid,
    )
