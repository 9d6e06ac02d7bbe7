-- ===== src/Json/Laws.antt =====
-- What reading a map finds after a write or a deletion.
use dorgu_operator.Common.{String, ◌≡◌, refl, none, some, ◌==◌, eq_iff, if◌then◌else◌, arith}
use dorgu_operator.Json.{Json, Fields, end, field, get, put, remove}

pub get-put :
    (k j : String) (v : Json) (m : Fields)
    → get j (put k v m) ≡ (if k == j then some v else get j m)
unfolding get put
get-put k j v end = refl
get-put k j v (field i w m) = ground (arith, eq_iff k j, eq_iff i k, eq_iff i j, get-put k j v m)

pub get-remove :
    (k j : String) (m : Fields) → get j (remove k m) ≡ (if k == j then none else get j m)
unfolding get remove
get-remove k j end = ground arith
get-remove k j (field i w m) = ground (arith, eq_iff k j, eq_iff i k, eq_iff i j, get-remove k j m)

-- No key occurs twice, as in every Go map.
abbrev pub IsMap : Fields → Type 0
IsMap end = Unit
IsMap (field k v m) = (get k m ≡ none) × IsMap m
