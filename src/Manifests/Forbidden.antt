-- ===== src/Manifests/Forbidden.antt =====
-- workflows/schema.py: fields that a manifest must not have at any depth.
use agpair.Base.{String, Bool, true, false, List, [], ◌∷◌, elem}
use agpair.Json.{Json, Items, Fields, array, object, nil, cons, end, field}
use agpair.Result.{Problem, Error, Result, ok, err, ◌>>◌}

abbrev pub forbidden_fields : List String
forbidden_fields =
    "workflow_script" ∷ "python" ∷ "javascript" ∷ "shell" ∷ "command" ∷ "commands"
    ∷ "setup_commands" ∷ "teardown_commands" ∷ "postinstall" ∷ "preinstall" ∷ []

abbrev none_such : Bool → Result (Unit {0})
none_such true = err (Error.manifest_error Problem.forbidden_field)
none_such false = ok tt

unfoldable mutual
  pub reject_forbidden_fields : Json → Result (Unit {0})
  reject_forbidden_fields (object d) = reject_in_fields d
  reject_forbidden_fields (array vs) = reject_in_items vs
  reject_forbidden_fields _ = ok tt

  pub reject_in_fields : Fields → Result (Unit {0})
  reject_in_fields end = ok tt
  reject_in_fields (field k v d) =
      none_such (elem k forbidden_fields) >> reject_forbidden_fields v >> reject_in_fields d

  pub reject_in_items : Items → Result (Unit {0})
  reject_in_items nil = ok tt
  reject_in_items (cons v vs) = reject_forbidden_fields v >> reject_in_items vs
