-- ===== src/Incident/Cycle.antt =====
-- internal/controller/healthcheck_reconciler.go: one cycle of the health check. The detection and the
-- diagnosis engine are parameters, here; what the k-th diagnosis or the k-th incident closed is told
-- is the k-th `Access`.
pub mod Laws
use dorgu_operator.Common.{
  ℕ, ◌+◌, String, Option, none, some, List, [], ◌∷◌, ◌++◌, filter, length, if◌then◌else◌, Bool,
  true, false,
}
use dorgu_operator.Api.{Error, Phase, pending, RemediationAction}
use dorgu_operator.Detection.{Signal}
use dorgu_operator.Detection.Grouping.{SignalGroup, group_signals}
use dorgu_operator.Diagnosis.{Diagnosis}
use dorgu_operator.Executor.{Fetched, found, get_error}
use dorgu_operator.Incident.{IncidentMemory}
use dorgu_operator.Incident.Recovery.{RecoveryEvidence}
use dorgu_operator.Incident.Clearing.{Cluster, resolve_cleared}
use dorgu_operator.Incident.Subject.{IncidentSubject, incident_subject_for, signal_key}
use dorgu_operator.Incident.Access.{Access, Sent, health_broadcast}
use dorgu_operator.Incident.Filing.{process_diagnosis}
use dorgu_operator.Incident.Closing.{mark_resolved, broadcast_resolution}

-- What the diagnoses of a cycle came to: how many were tried and how many were lost, the signal keys
-- that are active, and what was sent.
pub record Tally : Type 0 where
  pub attempted : ℕ
  pub discarded : ℕ
  pub active : List String
  pub sent : List Sent

abbrev pub no_tally : Tally
no_tally = record { attempted = 0; discarded = 0; active = []; sent = [] }

abbrev pub lost_count : Option Error → ℕ
lost_count none = 0
lost_count (some _) = 1

-- The loop of processGroup.
unfoldable pub process_diagnoses : (ℕ → Access) → ℕ → IncidentSubject → List Diagnosis → Tally
unfolding process_diagnosis signal_key
process_diagnoses at n s [] = no_tally
process_diagnoses at n s (d ∷ ds) =
    let (error, sent) = process_diagnosis (at n) s d in
    let rest = process_diagnoses at (n + 1) s ds in
    record {
      attempted = 1 + rest.attempted;
      discarded = lost_count error + rest.discarded;
      active = signal_key s d ∷ rest.active;
      sent = sent ++ rest.sent;
    }

-- processGroup
unfoldable pub process_group :
    (List Signal → Fetched (List Diagnosis)) → (ℕ → Access) → ℕ → SignalGroup → Tally
unfolding process_diagnoses incident_subject_for
process_group analyze at n g = elim (analyze g.signals) [
  | get_error _ ↦ no_tally
  | found ds ↦ elim (incident_subject_for g) [
    | none ↦ no_tally
    | some s ↦ process_diagnoses at n s ds
  ]
]

-- The loop of reconcile over the groups.
unfoldable pub process_groups :
    (List Signal → Fetched (List Diagnosis)) → (ℕ → Access) → ℕ → List SignalGroup → Tally
unfolding process_group
process_groups analyze at n [] = no_tally
process_groups analyze at n (g ∷ gs) =
    let first = process_group analyze at n g in
    let rest = process_groups analyze at (n + first.attempted) gs in
    record {
      attempted = first.attempted + rest.attempted;
      discarded = first.discarded + rest.discarded;
      active = first.active ++ rest.active;
      sent = first.sent ++ rest.sent;
    }

-- The writes that close incidents. One that fails is only logged.
unfoldable pub close_incidents :
    (ℕ → Access) → ℕ → List (IncidentMemory × RecoveryEvidence) → List Sent
unfolding mark_resolved
close_incidents at n [] = []
close_incidents at n ((i, evidence) ∷ is) =
    let w = mark_resolved (at n) i evidence in
    let rest = close_incidents at (n + 1) is in
    elim w.error [
      | some _ ↦ w.sent ++ rest
      | none ↦ w.sent ++ broadcast_resolution (at n) w.incident ++ rest
    ]

abbrev pub is_pending : Phase → Bool
is_pending pending = true
is_pending _ = false

abbrev pub count_listed {ℓ} : {A : Type ℓ} → Fetched (List A) → ℕ
count_listed (found items) = length items
count_listed (get_error _) = 0

abbrev pub count_pending : Fetched (List RemediationAction) → ℕ
count_pending (found items) =
    length (filter (λ (a : RemediationAction). is_pending a.status.phase) items)
count_pending (get_error _) = 0

-- broadcastHealthSummary
unfoldable pub broadcast_health_summary :
    (String → Fetched (List IncidentMemory)) → Fetched (List RemediationAction) → List Sent
broadcast_health_summary list_phase actions =
    health_broadcast
      (count_listed (list_phase "Detected") + count_listed (list_phase "Investigating"))
      (count_pending actions)
    ∷ []

-- What a cycle is told: the clock when incidents are closed, the engines, and the API server, for
-- the diagnoses, the incidents to close, and the summary.
pub record CycleInput : Type 0 where
  pub now : ℕ
  pub collect_all : Fetched (List Signal)
  pub analyze : List Signal → Fetched (List Diagnosis)
  pub filing : ℕ → Access
  pub list_phase : String → Fetched (List IncidentMemory)
  pub cluster : ℕ → Cluster
  pub closing : ℕ → Access
  pub list_phase_again : String → Fetched (List IncidentMemory)
  pub list_actions : Fetched (List RemediationAction)
  pub has_web_socket : Bool

abbrev pub diagnosed : CycleInput → List Signal → Tally
diagnosed c signals = process_groups c.analyze c.filing 0 (group_signals signals)

-- The incidents that a cycle closes.
unfoldable pub closed_by : CycleInput → List Signal → List (IncidentMemory × RecoveryEvidence)
unfolding process_groups resolve_cleared
closed_by c signals = (resolve_cleared c.list_phase c.cluster (diagnosed c signals).active c.now).1

-- reconcile
unfoldable pub reconcile_cycle : CycleInput → List Sent
unfolding process_groups closed_by close_incidents broadcast_health_summary
reconcile_cycle c = elim c.collect_all [
  | get_error _ ↦ []
  | found signals ↦
      (diagnosed c signals).sent
      ++ close_incidents c.closing 0 (closed_by c signals)
      ++ (if c.has_web_socket
          then broadcast_health_summary c.list_phase_again c.list_actions
          else [])
]
