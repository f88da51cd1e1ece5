-- ===== src/Scope.antt =====
-- scope_validation.py: which changed files of an executor were declared, and which are forbidden.
use Prim.Native.Char.{Char, code}
use Prim.Native.String.{compare}
use Prim.Native.Nat.{Ordering}
use agpair.Base.{
  ℕ, String, Bool, true, false, not, ◌&&◌, ◌||◌, List, [], ◌∷◌, ◌++◌, Option, none, some, strip,
  replace_char, splitlines, starts_with, elem, any, select, sort_by, eqb, if◌then◌else◌, ◌==◌,
}
use agpair.Terminal.Payload.{is_empty}
pub mod Changes

abbrev pub default_forbidden_path_prefixes : List String
default_forbidden_path_prefixes = ".agpair/" ∷ ".git/" ∷ "../" ∷ "/" ∷ []

-- `text.rstrip("/")`
push_unless_slash : Char → String → String
push_unless_slash c String.[] = if eqb (code c) b'/' then String.[] else String.◌∷◌ c String.[]
push_unless_slash c (String.◌∷◌ d s) = String.◌∷◌ c (String.◌∷◌ d s)

unfoldable pub rstrip_slash : String → String
unfolding push_unless_slash
rstrip_slash String.[] = String.[]
rstrip_slash (String.◌∷◌ c s) = push_unless_slash c (rstrip_slash s)

-- `while text.startswith("./"): text = text[2:]`
unfoldable pub drop_here : String → String
drop_here String.[] = String.[]
drop_here (String.◌∷◌ c String.[]) = String.◌∷◌ c String.[]
drop_here (String.◌∷◌ c (String.◌∷◌ d s)) =
    let rest = drop_here s in
    if eqb (code c) b'.' && eqb (code d) b'/' then rest else String.◌∷◌ c (String.◌∷◌ d s)

-- an empty text where Python has `None`
unfoldable pub normalize_path : String → String
unfolding strip replace_char drop_here rstrip_slash
normalize_path value =
    rstrip_slash (drop_here (replace_char (Char.char 92 tt) (Char.char 47 tt) (strip value)))

unfoldable pub is_forbidden : List String → String → Bool
unfolding rstrip_slash
is_forbidden prefixes path =
    any (λ prefix. (path == rstrip_slash prefix) || starts_with path prefix) prefixes

-- the paths that are not empty, each once
abbrev pub gather : List String → List String → List String
gather [] normalized = normalized
gather (item ∷ items) normalized =
    let path = normalize_path item in
    gather items
      (if (path == "") || elem path normalized then normalized else normalized ++ path ∷ [])

-- `t < s`
abbrev pub precedes : String → String → Bool
precedes s t = elim (compare t s) [ Ordering.lt ↦ true | _ ↦ false ]

-- The candidates are the texts of the value: one, or those of a list.
unfoldable pub normalize_changed_files : List String → List String
normalize_changed_files candidates = sort_by precedes (gather candidates [])

pub record ScopeValidationResult : Type 0 where
  pub declared_changed_files : List String
  pub actual_changed_files : List String
  pub baseline_changed_files : List String
  pub effective_changed_files : List String
  pub undeclared_changed_files : List String
  pub missing_declared_files : List String
  pub forbidden_changed_files : List String

unfoldable pub ok : ScopeValidationResult → Bool
ok r = not (
    not (is_empty r.undeclared_changed_files)
    || not (is_empty r.missing_declared_files)
    || not (is_empty r.forbidden_changed_files))

unfoldable pub has_actual_changes : ScopeValidationResult → Bool
has_actual_changes r = not (is_empty r.effective_changed_files)

abbrev pub minus : List String → List String → List String
minus paths others = select (λ path. not (elem path others)) paths

unfoldable pub validate_changed_files :
    List String → List String → List String → List String → ScopeValidationResult
validate_changed_files declared_changed_files actual_changed_files baseline_changed_files
      forbidden_prefixes =
    let declared = normalize_changed_files declared_changed_files in
    let actual = normalize_changed_files actual_changed_files in
    let baseline = normalize_changed_files baseline_changed_files in
    let effective = minus actual baseline in
    record {
      declared_changed_files = declared;
      actual_changed_files = actual;
      baseline_changed_files = baseline;
      effective_changed_files = effective;
      undeclared_changed_files = minus effective declared;
      missing_declared_files = minus declared effective;
      forbidden_changed_files = select (is_forbidden forbidden_prefixes) effective;
    }
