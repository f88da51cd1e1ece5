-- ===== src/Terminal/Wrapped.antt =====
-- terminal_receipts.py: the texts inside a JSON value that may hold a receipt.
use agpair.Base.{String, List, [], ◌∷◌, ◌++◌, elem, ◌==◌, if◌then◌else◌}
use agpair.Json.{Json, Items, Fields, text, array, object, nil, cons, end, field}

abbrev pub wrapped_text_keys : List String
wrapped_text_keys = "result" ∷ "output" ∷ "text" ∷ "content" ∷ "message" ∷ "response" ∷ []

-- what each key of a mapping gives
abbrev Found : Type 0
Found = List (String × List String)

abbrev of_key : String → Found → List String
of_key key [] = []
of_key key ((k, texts) ∷ rest) = let later = of_key key rest in if k == key then texts else later

abbrev of_keys : List String → Found → List String
of_keys [] found = []
of_keys (key ∷ keys) found = of_key key found ++ of_keys keys found

abbrev others : Found → List String
others [] = []
others ((k, texts) ∷ rest) =
    let later = others rest in if elem k wrapped_text_keys then later else texts ++ later

unfoldable mutual
  pub wrapped_text_candidates : Json → List String
  wrapped_text_candidates (text s) = s ∷ []
  wrapped_text_candidates (array vs) = candidates_of_items vs
  wrapped_text_candidates (object d) =
      let found = candidates_of_fields d in of_keys wrapped_text_keys found ++ others found
  wrapped_text_candidates _ = []

  pub candidates_of_items : Items → List String
  candidates_of_items nil = []
  candidates_of_items (cons v vs) = wrapped_text_candidates v ++ candidates_of_items vs

  pub candidates_of_fields : Fields → List (String × List String)
  candidates_of_fields end = []
  candidates_of_fields (field k v d) = (k, wrapped_text_candidates v) ∷ candidates_of_fields d
