-- ===== src/Json/Laws.antt =====
-- Reading a mapping after a write to it.
use agpair.Base.{String, ◌≡◌, refl, ◌==◌, eq_refl, Bool-cases, inl, inr}
use agpair.Json.{Json, Fields, end, field, get, put}

pub get-put : (key : String) (v : Json) (d : Fields) → get key (put key v d) ≡ v
get-put key v end = rw (eq_refl key) refl
get-put key v (field k w d) = elim (Bool-cases (k == key)) [
  | inl y ↦ rw y (rw y refl)
  | inr n ↦ rw n (rw n (get-put key v d))
]
