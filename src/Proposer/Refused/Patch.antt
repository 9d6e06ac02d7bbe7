-- ===== src/Proposer/Refused/Patch.antt =====
-- internal/remediation/refused_values.go: the leaves of a patch that hold a refused value go, with
-- prunePatchPaths of proposer_ai_appliable.go, deleteNestedPath of proposer_grounding.go and
-- patchLeafValues of proposer_ownership.go. A patch is its decoded document, which json.Marshal
-- writes again without an error.
use Prim.Native.Char.{code}
use dorgu_operator.Common.{
  String, Bool, true, false, Option, none, some, List, [], ◌∷◌, ◌++◌, eqb, ◌==◌, if◌then◌else◌,
}
use dorgu_operator.Json.{
  str, obj, Fields, end, field, remove, Raw, document, unmarshal_object, is_empty,
}
use dorgu_operator.Proposer.{path_below}
use dorgu_operator.Proposer.Mentions.{Reader, RefusedValue, same_resource_value}

-- The walk of patchLeafValues.
unfoldable pub leaf_values : String → Fields → List (String × String)
leaf_values prefix end = []
leaf_values prefix (field key (obj child) rest) =
    leaf_values (path_below prefix key) child ++ leaf_values prefix rest
leaf_values prefix (field key (str text) rest) =
    (path_below prefix key, text) ∷ leaf_values prefix rest
leaf_values prefix (field key _ rest) = leaf_values prefix rest

-- patchLeafValues
unfoldable pub patch_leaf_values : Raw → List (String × String)
unfolding leaf_values unmarshal_object
patch_leaf_values raw = elim (unmarshal_object raw) [ none ↦ [] | some root ↦ leaf_values "" root ]

-- What a map holds that these were written into one after another.
unfoldable pub last_written : String → List (String × String) → Option String
last_written k [] = none
last_written k ((j, v) ∷ ws) =
    let later = last_written k ws in
    elim later [ some w ↦ some w | none ↦ if j == k then some v else none ]

-- strings.Split at the dots: the first segment and the others.
unfoldable pub split_dots : String → String × List String
split_dots String.[] = ("", [])
split_dots (String.◌∷◌ c s) =
    let (w, ws) = split_dots s in if eqb (code c) 46 then ("", w ∷ ws) else (String.◌∷◌ c w, ws)

abbrev pub no_fields : Fields → Bool
no_fields end = true
no_fields _ = false

unfoldable pub child_at : String → Fields → Option Fields
child_at key end = none
child_at key (field j (obj child) rest) = if j == key then some child else child_at key rest
child_at key (field j _ rest) = if j == key then none else child_at key rest

unfoldable pub put_child : String → Fields → Fields → Fields
put_child key child end = end
put_child key child (field j v rest) =
    if j == key then field j (obj child) rest else field j v (put_child key child rest)

-- deleteNestedPath
unfoldable pub delete_nested_path : Fields → String → List String → Fields
unfolding remove child_at put_child
delete_nested_path node segment [] = remove segment node
delete_nested_path node segment (next ∷ segments) = elim (child_at segment node) [
  | none ↦ node
  | some child ↦
      let left = delete_nested_path child next segments in
      if no_fields left then remove segment node else put_child segment left node
]

unfoldable pub delete_paths : Fields → List String → Fields
unfolding delete_nested_path split_dots
delete_paths root [] = root
delete_paths root (path ∷ paths) =
    let (segment, segments) = split_dots path in
    delete_paths (delete_nested_path root segment segments) paths

-- prunePatchPaths, on a patch with bytes and some paths.
unfoldable pub prune_patch_paths : Raw → List String → Option Raw
unfolding unmarshal_object delete_paths
prune_patch_paths raw paths = elim (unmarshal_object raw) [
  | none ↦ some raw
  | some root ↦
      let left = delete_paths root paths in
      if no_fields left then none else some (document (obj left))
]

-- The fields whose leaf in the patch holds what was refused there.
unfoldable pub refused_paths : Reader → List (String × String) → List RefusedValue → List String
unfolding last_written same_resource_value
refused_paths r values [] = []
refused_paths r values (v ∷ vs) =
    let rest = refused_paths r values vs in
    elim (last_written v.field values) [
      | none ↦ rest
      | some actual ↦ if same_resource_value r actual v then v.field ∷ rest else rest
    ]

-- pruneRefusedLeaves, on the bytes of a patch: none where nothing changes.
unfoldable pub prune_refused_leaves : Reader → Raw → List RefusedValue → Option (Option Raw)
unfolding refused_paths patch_leaf_values prune_patch_paths is_empty
prune_refused_leaves r raw refused =
    if is_empty raw then none else elim (refused_paths r (patch_leaf_values raw) refused) [
      | [] ↦ none
      | p ∷ ps ↦ some (prune_patch_paths raw (p ∷ ps))
    ]
