-- ===== src/Executor.antt =====
-- internal/remediation/executor.go, rollback.go: applying a patch to a persona, and undoing it.
-- A persona's spec stands as its JSON encoding. What the API server answers is in `Server`.
pub mod Merge
pub mod Laws
pub mod Effects
use dorgu_operator.Common.{
  ◌≡◌, refl, ◌⊎◌, inl, inr, String, Bool, true, false, ◌||◌, not, Option, none, some, List, [], ◌∷◌,
  ◌++◌, ◌==◌, if◌then◌else◌, is_some,
}
use dorgu_operator.Json.{Json, obj, null, Fields, Raw, get, unmarshal_object, is_empty}
use dorgu_operator.Api.{
  word, Error, errorf, wrap, precondition, Phase, approved, RemediationAction,
  RemediationRollbackSpec,
}
use Merge.{merge_maps}

pub record ApplicationPersona : Type 0 where
  pub name : String
  pub namespace : String
  pub deleting : Bool
  pub spec : Fields

pub data Fetched {ℓ} (A : Type ℓ) : Type ℓ where
  found : A → Fetched A
  get_error : Error → Fetched A

pub Fetched-cases {ℓ} :
    {A : Type ℓ} (f : Fetched A) → ((a : A) × (f ≡ found a)) ⊎ ((e : Error) × (f ≡ get_error e))
Fetched-cases (found a) = inl (a, refl)
Fetched-cases (get_error e) = inr (e, refl)

-- What the API server answers. `recode` is encoding/json reading a spec into the Go struct.
pub record Server : Type 0 where
  pub get_persona : String → String → Fetched ApplicationPersona
  pub update_persona : ApplicationPersona → Option Error
  pub recode : Fields → Option Fields

-- A request that changes a persona, in the order sent.
pub record Done : Type 0 where
  pub error : Option Error
  pub updates : List ApplicationPersona

abbrev pub refuse : Error → Done
refuse e = record { error = some e; updates = [] }

abbrev pub raw_missing : Option Raw → Bool
raw_missing none = true
raw_missing (some r) = is_empty r

abbrev pub is_approved : Phase → Bool
is_approved approved = true
is_approved _ = false

abbrev pub raw_or_empty : Option Raw → Raw
raw_or_empty none = Raw.no_bytes
raw_or_empty (some r) = r

unfoldable pub validate_preconditions : RemediationAction → Option Error
unfolding is_empty unmarshal_object
validate_preconditions a =
    if not (is_approved a.status.phase)
    then some (errorf "action must be in Approved phase, got %q" [])
    else if not (a.spec.action.type == "persona-update")
    then some (
        errorf "unsupported action type %q, only persona-update is supported"
          (word a.spec.action.type ∷ []))
    else if raw_missing a.spec.action.patch
    then some (errorf "patch must not be nil or empty" [])
    else if raw_missing a.spec.action.pre_patch_state
    then some (errorf "prePatchState must not be nil or empty (required for rollback)" [])
    else if not (is_some (unmarshal_object (raw_or_empty a.spec.action.patch)))
    then some (wrap "patch is not valid JSON: %w" [] (errorf "json" []))
    else none

-- getTargetPersona of the executor and of the rollback; `kinds` is the text of its first error.
unfoldable pub get_target_persona : Server → String → RemediationAction → Fetched ApplicationPersona
get_target_persona s kinds a =
    if not (a.spec.persona_ref.kind == "ApplicationPersona")
    then get_error (errorf kinds (word a.spec.persona_ref.kind ∷ []))
    else (let namespace =
          if a.spec.persona_ref.namespace == ""
          then a.namespace
          else a.spec.persona_ref.namespace in
        elim (s.get_persona namespace a.spec.persona_ref.name) [
          | found p ↦ found p
          | get_error e ↦ get_error (
              wrap "getting ApplicationPersona %s/%s: %w"
                (word namespace ∷ word a.spec.persona_ref.name ∷ []) e)
        ])

abbrev pub as_object : Json → Option Fields
as_object (obj m) = some m
as_object null = some Fields.end
as_object _ = none

-- The outcome of the update, with the update sent.
abbrev pub send_update : Server → ApplicationPersona → Done
send_update s p = elim (s.update_persona p) [
  | none ↦ record { error = none; updates = p ∷ [] }
  | some e ↦ record { error = some (wrap "updating ApplicationPersona: %w" [] e); updates = p ∷ [] }
]

abbrev pub merge_spec : Server → ApplicationPersona → Json → Done
merge_spec s p spec_patch = elim (as_object spec_patch) [
  | none ↦ refuse (wrap "merging patch: %w" [] (errorf "unmarshalling patch" []))
  | some m ↦ elim (s.recode (merge_maps p.spec m)) [
    | none ↦ refuse (wrap "unmarshalling merged spec: %w" [] (errorf "json" []))
    | some spec ↦ send_update s (record p { spec = spec })
  ]
]

unfoldable pub apply_patch : Server → ApplicationPersona → Raw → Done
unfolding unmarshal_object get
apply_patch s p raw = elim (unmarshal_object raw) [
  | none ↦ refuse (wrap "unmarshalling patch: %w" [] (errorf "json" []))
  | some wrapper ↦ elim (get "spec" wrapper) [
    | none ↦ refuse (errorf "patch must contain a 'spec' key" [])
    | some spec_patch ↦ merge_spec s p spec_patch
  ]
]

abbrev pub wrap_done : String → Done → Done
wrap_done text d = elim d.error [ none ↦ d | some e ↦ record d { error = some (wrap text [] e) } ]

-- What Apply does once it has the persona.
unfoldable pub apply_to : Server → RemediationAction → ApplicationPersona → Done
apply_to s a p =
    if p.deleting
    then refuse
        (errorf "target persona %s/%s is being deleted" (word p.namespace ∷ word p.name ∷ []))
    else wrap_done "applying patch: %w" (apply_patch s p (raw_or_empty a.spec.action.patch))

-- Executor.Apply
unfoldable pub apply : Server → RemediationAction → Done
apply s a = elim (validate_preconditions a) [
  | some e ↦ refuse (precondition e)
  | none ↦
      elim (get_target_persona s "unsupported persona kind %q, only ApplicationPersona is supported"
        a) [
          | get_error e ↦ refuse (wrap "getting target persona: %w" [] e)
          | found p ↦ apply_to s a p
        ]
]

abbrev pub rollback_enabled : Option RemediationRollbackSpec → Bool
rollback_enabled none = false
rollback_enabled (some r) = r.enabled

-- Rollback.Execute
unfoldable pub execute_rollback : Server → RemediationAction → Done
execute_rollback s a =
    if not (rollback_enabled a.spec.rollback)
    then refuse (errorf "rollback is not enabled for action %s" (word a.name ∷ []))
    else if raw_missing a.spec.action.pre_patch_state
    then refuse
        (errorf "prePatchState is nil or empty for action %s, cannot rollback" (word a.name ∷ []))
    else elim (get_target_persona s "unsupported persona kind %q" a) [
      | get_error e ↦ refuse (wrap "getting target persona for rollback: %w" [] e)
      | found p ↦
          wrap_done "applying rollback patch: %w"
            (apply_patch s p (raw_or_empty a.spec.action.pre_patch_state))
    ]
