-- ===== src/Options/Role.antt =====
-- roles.py: coordination roles.
use agpair.Base.{
  String, List, [], ◌∷◌, Option, none, some, if◌then◌else◌, strip, lower, replace_char, elem,
}
use agpair.Result.{Argument, Error, Result, ok, err}

abbrev pub role_values : List String
role_values = "thinker" ∷ "worker" ∷ "verifier" ∷ "synthesizer" ∷ "gate" ∷ "general" ∷ []

unfoldable pub normalize_coordination_role : Option String → Result (Option String)
unfolding strip lower replace_char
normalize_coordination_role none = ok none
normalize_coordination_role (some value) =
    let normalized = replace_char "-" "_" (lower (strip value)) in
    if elem normalized role_values
    then ok (some normalized)
    else err (Error.value_error Argument.coordination_role)
