-- ===== src/Workload/Fields.antt =====
-- internal/workload/ownership_fields.go: whether a field manager owns a container's resources.
use dorgu_operator.Common.{
  String, Bool, true, false, ◌&&◌, ◌||◌, Option, none, some, List, [], ◌∷◌, is_some, if◌then◌else◌,
}
use dorgu_operator.Common.Text.{has_prefix}
use dorgu_operator.Json.{Json, Fields, end, field, get, unmarshal_object, is_empty}
use dorgu_operator.Executor.{as_object}
use dorgu_operator.Workload.{ManagedFieldsEntry}

-- descendFields: the node at the end of a path of keys, where there is one and every node on the way
-- is an object.
unfoldable pub descend_fields : Fields → List String → Option Fields
unfolding get
descend_fields node [] = some node
descend_fields node (key ∷ keys) = elim (get key node) [
  | none ↦ none
  | some raw ↦ elim (as_object raw) [ none ↦ none | some next ↦ descend_fields next keys ]
]

-- One round of the loop over the containers: the key is one of a list, and its value cannot be read
-- or holds resources.
unfoldable pub claims_resources : String → Json → Bool
unfolding get has_prefix
claims_resources key raw =
    has_prefix key "k:"
    && elim (as_object raw) [ none ↦ true | some container ↦ is_some (get "f:resources" container) ]

-- The loop returns as soon as one container is claimed, so the order of the keys does not matter.
unfoldable pub any_claimed : Fields → Bool
unfolding claims_resources
any_claimed end = false
any_claimed (field key raw rest) = claims_resources key raw || any_claimed rest

abbrev pub container_path : List String
container_path = "f:spec" ∷ "f:template" ∷ "f:spec" ∷ "f:containers" ∷ []

abbrev owns_below : Option Fields → Bool
owns_below none = true
owns_below (some root) = elim (descend_fields root container_path) [
  | none ↦ false
  | some containers ↦ any_claimed containers
]

unfoldable pub owns_container_resources : ManagedFieldsEntry → Bool
unfolding unmarshal_object is_empty descend_fields any_claimed
owns_container_resources e = elim e.fields_v1 [
  | none ↦ false
  | some raw ↦ if is_empty raw then false else owns_below (unmarshal_object raw)
]
