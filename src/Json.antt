-- ===== src/Json.antt =====
-- JSON documents as encoding/json decodes them. A Go map[string]any is an association list in one
-- iteration order; a key occurs once. Numbers are kept as their text.
pub mod Laws
use dorgu_operator.Common.{String, Bool, true, false, Option, none, some, ◌==◌, if◌then◌else◌}

mutual
  pub data Json : Type 0 where
    null : Json
    boolean : Bool → Json
    number : String → Json
    str : String → Json
    arr : Items → Json
    obj : Fields → Json

  pub data Items : Type 0 where
    nil : Items
    item : Json → Items → Items

  pub data Fields : Type 0 where
    end : Fields
    field : String → Json → Fields → Fields

-- The bytes of an apiextensionsv1.JSON: none, bytes that are no JSON, or a document.
pub data Raw : Type 0 where
  no_bytes : Raw
  malformed : Raw
  document : Json → Raw

-- m[k]
unfoldable pub get : String → Fields → Option Json
get k end = none
get k (field j v m) = if j == k then some v else get k m

-- m[k] = v
unfoldable pub put : String → Json → Fields → Fields
put k v end = field k v end
put k v (field j w m) = if j == k then field k v m else field j w (put k v m)

-- delete(m, k)
unfoldable pub remove : String → Fields → Fields
remove k end = end
remove k (field j w m) = let rest = remove k m in if j == k then rest else field j w rest

-- json.Unmarshal into a map[string]any: an object, or `null`, which leaves the map nil.
unfoldable pub unmarshal_object : Raw → Option Fields
unmarshal_object (document (obj m)) = some m
unmarshal_object (document null) = some end
unmarshal_object _ = none

unfoldable pub is_empty : Raw → Bool
is_empty no_bytes = true
is_empty _ = false
