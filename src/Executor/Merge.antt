-- ===== src/Executor/Merge.antt =====
-- internal/remediation/executor.go, mergeMaps: merging one decoded JSON object into another.
use dorgu_operator.Common.{Option, some}
use dorgu_operator.Json.{Json, null, obj, Fields, end, field, get, put, remove}

-- What stands at a key after the patch holds the object `m` there.
abbrev pub merged_at : Option Json → (Fields → Fields) → Fields → Json
merged_at (some (obj t)) merge m = obj (merge t)
merged_at _ merge m = obj m

-- The loop of mergeMaps, over the copy of the target.
unfoldable pub merge_maps : Fields → Fields → Fields
unfolding get put remove
merge_maps result end = result
merge_maps result (field k null rest) = merge_maps (remove k result) rest
merge_maps result (field k (obj m) rest) =
    merge_maps (put k (merged_at (get k result) (λ t. merge_maps t m) m) result) rest
merge_maps result (field k v rest) = merge_maps (put k v result) rest
