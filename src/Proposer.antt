-- ===== src/Proposer.antt =====
-- internal/remediation/proposer.go and proposer_mode.go: what stops a proposal before anything is
-- planned.
pub mod Laws
pub mod Mentions
pub mod Refused
use Prim.Native.String
use dorgu_operator.Common.{
  ℕ, String, Bool, true, false, ◌&&◌, ◌||◌, not, Option, none, some, List, [], ◌∷◌, ◌++◌, contains,
  ◌==◌, if◌then◌else◌,
}
use dorgu_operator.Json.{Json, obj, Fields, end, field, Raw, unmarshal_object}
use dorgu_operator.Api.{
  word, Error, wrap, Message, sprintf, PersonaReference, Phase, pending, approved, applying,
  verifying, other, RemediationAction, RemediationStep,
}
use dorgu_operator.Diagnosis.{Diagnosis, ContributingSignal, primary_signal_type}
use dorgu_operator.Executor.{Fetched, found, get_error}
use dorgu_operator.Incident.{IncidentMemory}
use dorgu_operator.Safety.Readings.{ClusterPersona, SafetyViolation}

-- The first mode that a ClusterPersona declares.
unfoldable pub declared_mode : List ClusterPersona → String
declared_mode [] = "propose"
declared_mode (p ∷ ps) =
    let rest = declared_mode ps in
    elim p.policies [
      | none ↦ rest
      | some policies ↦ elim policies.self_healing [
        | none ↦ rest
        | some healing ↦ if healing.mode == "" then rest else healing.mode
      ]
    ]

-- selfHealingMode
unfoldable pub self_healing_mode : Fetched (List ClusterPersona) → String
unfolding declared_mode
self_healing_mode (get_error _) = "propose"
self_healing_mode (found personas) = declared_mode personas

-- proposalSuppressedByMode: every mode but observe proposes.
unfoldable pub proposal_suppressed_by_mode : Fetched (List ClusterPersona) → Option Message
unfolding self_healing_mode
proposal_suppressed_by_mode personas =
    if self_healing_mode personas == "observe"
    then some (sprintf "selfHealing.mode=observe — proposal suppressed" [])
    else none

-- activeRemediationPhases
unfoldable pub is_active : Phase → Bool
is_active pending = true
is_active approved = true
is_active applying = true
is_active verifying = true
is_active (other text) = text == ""
is_active _ = false

abbrev pub path_below : String → String → String
path_below prefix key = if prefix == "" then key else String.◌++◌ prefix (String.◌++◌ "." key)

-- The walk of patchLeafPaths, in the order of the map.
unfoldable pub leaf_paths : String → Fields → List String
leaf_paths prefix end = []
leaf_paths prefix (field key (obj child) rest) =
    leaf_paths (path_below prefix key) child ++ leaf_paths prefix rest
leaf_paths prefix (field key _ rest) = path_below prefix key ∷ leaf_paths prefix rest

-- patchLeafPaths
unfoldable pub patch_leaf_paths : Raw → List String
unfolding leaf_paths unmarshal_object
patch_leaf_paths raw = elim (unmarshal_object raw) [ none ↦ [] | some root ↦ leaf_paths "" root ]

-- patchTouchesPath, on a patch that may be missing.
unfoldable pub patch_touches_path : Option Raw → String → Bool
unfolding patch_leaf_paths
patch_touches_path none target = false
patch_touches_path (some raw) target = contains (patch_leaf_paths raw) target

unfoldable pub steps_target_path : List RemediationStep → String → Bool
unfolding patch_touches_path
steps_target_path [] target = false
steps_target_path (s ∷ ss) target = patch_touches_path s.patch target || steps_target_path ss target

-- remediationTargetsPath
unfoldable pub remediation_targets_path : RemediationAction → String → Bool
unfolding patch_touches_path steps_target_path
remediation_targets_path a target =
    patch_touches_path a.spec.action.patch target || steps_target_path a.spec.steps target

-- hasOOMCorrelation
unfoldable pub has_oom_correlation : List ContributingSignal → Bool
has_oom_correlation [] = false
has_oom_correlation (c ∷ cs) =
    c.signal.type == "OOMKilled"
    || c.signal.type == "MemorySaturationCritical"
    || c.signal.type == "MemorySaturationHigh"
    || has_oom_correlation cs

-- diagnosisTargetPath
unfoldable pub diagnosis_target_path : Diagnosis → String
unfolding primary_signal_type has_oom_correlation
diagnosis_target_path d =
    if contains ("OOMKilled" ∷ "MemorySaturationCritical" ∷ "MemorySaturationHigh" ∷ [])
      (primary_signal_type d)
    then "spec.resources.limits.memory"
    else if contains ("CPUSaturationHigh" ∷ "CPUSaturationCritical" ∷ []) (primary_signal_type d)
    then "spec.resources.limits.cpu"
    else if primary_signal_type d == "CrashLoopBackOff" && has_oom_correlation d.contributing
    then "spec.resources.limits.memory"
    else ""

-- Why one action makes the proposal redundant, if it does.
unfoldable pub redundant_with :
    PersonaReference → String → IncidentMemory → RemediationAction → Option Message
unfolding is_active remediation_targets_path
redundant_with ref target i a =
    if not (is_active a.status.phase)
    then none
    else if a.spec.incident_ref.name == i.name
    then some (sprintf "active remediation already exists for incident %s" (word i.name ∷ []))
    else if not (target == "") && remediation_targets_path a target
    then some (
        sprintf "active remediation already exists for persona %s targeting %s (via %s)"
          (word ref.name ∷ word target ∷ word a.name ∷ []))
    else none

unfoldable pub first_redundant :
    PersonaReference → String → IncidentMemory → List RemediationAction → Option Message
unfolding redundant_with
first_redundant ref target i [] = none
first_redundant ref target i (a ∷ as') = elim (redundant_with ref target i a) [
  | some reason ↦ some reason
  | none ↦ first_redundant ref target i as'
]

abbrev pub where_given : String → Option String
where_given s = if s == "" then none else some s

-- activeRemediationExists, for a diagnosis with a persona. `list_actions` filters by namespace and by
-- the label of the persona's name, where they are given.
unfoldable pub active_remediation_exists :
    (Option String → Option String → Fetched (List RemediationAction))
    → PersonaReference
    → Diagnosis
    → IncidentMemory
    → Fetched (Option Message)
unfolding diagnosis_target_path first_redundant
active_remediation_exists list_actions ref d i =
    let namespace = if i.namespace == "" then ref.namespace else i.namespace in
    elim (list_actions (where_given namespace) (where_given ref.name)) [
      | get_error e ↦
          get_error
            (wrap "listing existing RemediationActions for incident %s: %w" (word i.name ∷ []) e)
      | found actions ↦ found (first_redundant ref (diagnosis_target_path d) i actions)
    ]

-- The guards of Propose before it reads the workload: an error, the reason to skip, which quotes the
-- violation where the namespace is denied, or the persona that planning goes on with.
pub data Guarded : Type 0 where
  failed : Error → Guarded
  skipped : Message → Guarded
  denied : SafetyViolation → Guarded
  goes_on : PersonaReference → Guarded

abbrev pub skip_or : Option Message → Guarded → Guarded
skip_or none next = next
skip_or (some reason) next = skipped reason

abbrev pub guard_answer : PersonaReference → Fetched (Option Message) → Guarded
guard_answer ref (get_error e) = failed e
guard_answer ref (found reason) = skip_or reason (goes_on ref)

-- A nil incident passes the last guard.
abbrev pub guard_incident :
    (Option String → Option String → Fetched (List RemediationAction))
    → PersonaReference
    → Diagnosis
    → Option IncidentMemory
    → Guarded
guard_incident list_actions ref d none = goes_on ref
guard_incident list_actions ref d (some i) =
    guard_answer ref (active_remediation_exists list_actions ref d i)

abbrev pub deny_or : Option SafetyViolation → Guarded → Guarded
deny_or none next = next
deny_or (some violation) next = denied violation

abbrev pub guard_persona :
    Fetched (List ClusterPersona)
    → (String → Option SafetyViolation)
    → (Option String → Option String → Fetched (List RemediationAction))
    → Diagnosis
    → Option IncidentMemory
    → Option PersonaReference
    → Guarded
guard_persona personas namespace_denied list_actions d incident none =
    skipped (sprintf "diagnosis has no persona reference" [])
guard_persona personas namespace_denied list_actions d incident (some ref) =
    skip_or (proposal_suppressed_by_mode personas)
      (deny_or (namespace_denied ref.namespace) (guard_incident list_actions ref d incident))

unfoldable pub propose_guards :
    Fetched (List ClusterPersona)
    → (String → Option SafetyViolation)
    → (Option String → Option String → Fetched (List RemediationAction))
    → Diagnosis
    → Option IncidentMemory
    → Guarded
unfolding proposal_suppressed_by_mode active_remediation_exists
propose_guards personas namespace_denied list_actions d incident =
    guard_persona personas namespace_denied list_actions d incident d.persona_ref
