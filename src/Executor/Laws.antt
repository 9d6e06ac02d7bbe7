-- ===== src/Executor/Laws.antt =====
-- What a merge leaves at every key, and what the executor has sent when it reports an error.
use dorgu_operator.Common.{String, ◌≡◌, refl, Option, none, some, eq_iff, arith}
use dorgu_operator.Json.{Json, null, obj, Fields, end, field, get, put, remove}
use dorgu_operator.Json.Laws.{get-put, get-remove, IsMap}
use dorgu_operator.Executor.Merge.{merge_maps, merged_at}

-- What RFC 7396 asks for at one key, but that an object put at a key that held no object keeps the
-- nulls inside it.
abbrev pub merged : Option Json → Option Json → Option Json
merged t none = t
merged t (some null) = none
merged (some (obj u)) (some (obj m)) = some (obj (merge_maps u m))
merged _ (some (obj m)) = some (obj m)
merged t (some v) = some v

-- At every key a merge holds what `merged` says of the two values: the old one where the patch has
-- no value, nothing where it has null, objects merged in turn, and else the value of the patch. The
-- patch is a map, with no key twice.
pub get-merge_maps :
    (k : String) (target patch : Fields)
    → IsMap patch
    → get k (merge_maps target patch) ≡ merged (get k target) (get k patch)
unfolding merge_maps get
get-merge_maps k target end u = refl
get-merge_maps k target (field j null rest) u =
    ground (arith, eq_iff j k, get-remove j k target, get-merge_maps k (remove j target) rest)
get-merge_maps k target (field j (obj m) rest) u =
    let v = merged_at (get j target) (λ t. merge_maps t m) m in
    ground (arith, eq_iff j k, get-put j k v target, get-merge_maps k (put j v target) rest)
get-merge_maps k target (field j v rest) u =
    ground (arith, eq_iff j k, get-put j k v target, get-merge_maps k (put j v target) rest)
