-- ===== src/Incident/Clearing.antt =====
-- internal/controller/healthcheck_reconciler.go: which incidents resolveCleared closes, and on what
-- evidence. What markResolved then writes is left out: the loop goes on whether it succeeds or not.
pub mod Laws
use Prim.Native.String
use dorgu_operator.Common.{
  ℕ, ◌+◌, ◌*◌, String, Bool, true, false, ◌||◌, not, Option, none, some, List, [], ◌∷◌, ◌++◌,
  contains, find, ◌==◌, if◌then◌else◌, ltb,
}
use dorgu_operator.Api.{word, Error, wrap, sprintf}
use dorgu_operator.Detection.Grouping.{◌/◌}
use dorgu_operator.Executor.{Fetched, found, get_error}
use dorgu_operator.Incident.{IncidentMemory}
use dorgu_operator.Incident.Recovery.{
  Pod, RecoveryEvidence, recovered, healthy, incident_namespace, incident_workload_name,
  verify_recovery,
}
use dorgu_operator.Workload.{Deployment}

abbrev pub resolution_grace_period : ℕ
resolution_grace_period = 300 * 1000000000

-- What the API server lists: pods and Deployments of a namespace, and the incidents of a namespace
-- that are attributed to the persona of a name.
pub record Cluster : Type 0 where
  pub list_pods : String → Fetched (List Pod)
  pub list_deployments : String → Fetched (List Deployment)
  pub list_attributed : String → String → Fetched (List IncidentMemory)

unfoldable pub incident_signal_key : IncidentMemory → String
incident_signal_key i =
    i.spec.persona_ref.kind / i.spec.persona_ref.namespace / i.spec.persona_ref.name
    / i.spec.category / i.spec.detection.signal

-- The incident may take over: it is another one, and not resolved.
abbrev pub takes_over : IncidentMemory → IncidentMemory → Bool
takes_over i other = not (other.name == i.name || other.phase == "Resolved")

-- supersededByPersona
unfoldable pub superseded_by_persona : Cluster → IncidentMemory → Option RecoveryEvidence
unfolding incident_namespace
superseded_by_persona c i =
    if not (i.spec.attribution == "unattributed")
    then none
    else if incident_namespace i == ""
    then none
    else elim (c.list_attributed (incident_namespace i) (incident_workload_name i)) [
      | get_error _ ↦ none
      | found attributed ↦ elim (find (takes_over i) attributed) [
        | none ↦ none
        | some other ↦ some (
            healthy (
              sprintf
                "superseded: workload %s is now tracked by incident %s, which is open against its persona"
                (word (incident_workload_name i) ∷ word other.name ∷ [])))
      ]
    ]

unfoldable pub resolution_evidence : Cluster → IncidentMemory → ℕ → RecoveryEvidence
unfolding superseded_by_persona verify_recovery
resolution_evidence c i now = elim (superseded_by_persona c i) [
  | some evidence ↦ evidence
  | none ↦ verify_recovery c.list_pods c.list_deployments i now
]

-- The loop of resolveCleared. The cluster may change from one incident to the next: `at` is given
-- the number of incidents looked at before.
unfoldable pub clear_incidents :
    (ℕ → Cluster)
    → List String
    → ℕ
    → ℕ
    → List IncidentMemory
    → List (IncidentMemory × RecoveryEvidence)
unfolding incident_signal_key resolution_evidence
clear_incidents at active now n [] = []
clear_incidents at active now n (i ∷ is) =
    let rest = clear_incidents at active now (n + 1) is in
    if contains active (incident_signal_key i)
    then rest
    else if ltb now (i.spec.detection.last_seen + resolution_grace_period)
    then rest
    else if not (recovered (resolution_evidence (at n) i now))
    then rest
    else (i, resolution_evidence (at n) i now) ∷ rest

-- resolveCleared: its error, and the incidents that it closes with their evidence.
unfoldable pub resolve_cleared :
    (String → Fetched (List IncidentMemory))
    → (ℕ → Cluster)
    → List String
    → ℕ
    → Option Error × List (IncidentMemory × RecoveryEvidence)
unfolding clear_incidents
resolve_cleared list_phase at active now = elim (list_phase "Detected") [
  | get_error e ↦ (some (wrap "listing active IncidentMemories: %w" [] e), [])
  | found detected ↦ elim (list_phase "Investigating") [
    | get_error e ↦ (some (wrap "listing investigating IncidentMemories: %w" [] e), [])
    | found investigating ↦ (none, clear_incidents at active now 0 (detected ++ investigating))
  ]
]
