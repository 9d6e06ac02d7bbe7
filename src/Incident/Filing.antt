-- ===== src/Incident/Filing.antt =====
-- internal/controller/healthcheck_reconciler.go: what one diagnosis does: the incident it is written
-- to, and the proposal that follows. The metrics are left out.
pub mod Sending
pub mod Laws
pub mod Recurrence
pub mod Again
pub mod Recorded
pub mod Outcome
use dorgu_operator.Common.{
  ℕ, zero, suc, String, Bool, ◌&&◌, ◌||◌, not, Option, none, some, List, [], ◌∷◌, ◌++◌, find, eqb,
  ◌==◌, if◌then◌else◌,
}
use dorgu_operator.Api.{Error, wrap}
use dorgu_operator.Diagnosis.{Diagnosis, primary_signal_type}
use dorgu_operator.Executor.{Fetched, found, get_error}
use dorgu_operator.Incident.{IncidentMemory}
use dorgu_operator.Incident.Subject.{
  IncidentSubject, attribution, incident_name_key, matches_incident,
}
use dorgu_operator.Incident.Names.{generate_incident_name}
use dorgu_operator.Incident.Diagnosed.{build_root_cause, annotate_unattributed}
use dorgu_operator.Incident.Access.{
  Access, Written, Sent, created, proposed, remediation_broadcast, adopting, initial_status,
}
use dorgu_operator.Incident.Reports.{broadcast_creation, store_signal_events, emit_k8s_events}
use dorgu_operator.Incident.Writes.{
  retry_incident_write, fetching, status_write, or_discard, update_existing_incident,
}
use dorgu_operator.Rejection.{rejection_suppresses_proposal}

abbrev pub incident_selector : IncidentSubject → Diagnosis → List (String × String)
incident_selector s d =
    ("dorgu.io/persona-kind", s.persona_ref.kind)
    ∷ ("dorgu.io/persona-name", s.persona_ref.name)
    ∷ ("dorgu.io/category", d.category)
    ∷ ("dorgu.io/signal", primary_signal_type d)
    ∷ []

abbrev pub may_continue : IncidentSubject → IncidentMemory → Bool
may_continue s i = not (i.phase == "Resolved" || not (matches_incident s i))

-- findMatchingIncident, after the incidents were listed n times.
unfoldable pub find_matching_incident :
    Access → ℕ → IncidentSubject → Diagnosis → Fetched (Option IncidentMemory)
unfolding matches_incident primary_signal_type
find_matching_incident acc n s d =
    elim (acc.list_incidents n (incident_selector s d)
      (if s.namespace == "" then none else some s.namespace)) [
        | get_error e ↦ get_error (wrap "listing IncidentMemories: %w" [] e)
        | found items ↦ found (find (may_continue s) items)
      ]

abbrev pub incident_home : IncidentSubject → String
incident_home s = if s.namespace == "" then "default" else s.namespace

abbrev pub incident_labels : IncidentSubject → Diagnosis → List (String × String)
incident_labels s d =
    ("dorgu.io/persona-kind", s.persona_ref.kind)
    ∷ ("dorgu.io/persona-name", s.persona_ref.name)
    ∷ ("dorgu.io/persona-namespace", incident_home s)
    ∷ ("dorgu.io/category", d.category)
    ∷ ("dorgu.io/severity", d.severity)
    ∷ ("dorgu.io/signal", primary_signal_type d)
    ∷ ("dorgu.io/phase", "Detected")
    ∷ ("dorgu.io/attribution", attribution s)
    ∷ []

-- The incident that createIncident creates. It has no status yet.
unfoldable pub new_incident : Access → IncidentSubject → Diagnosis → IncidentMemory
unfolding generate_incident_name primary_signal_type build_root_cause annotate_unattributed
new_incident acc s d = record {
  name =
      generate_incident_name acc.hash (incident_home s) (incident_name_key s)
        (primary_signal_type d);
  namespace = incident_home s;
  labels = incident_labels s d;
  spec = record {
    persona_ref = s.persona_ref;
    attribution = attribution s;
    category = d.category;
    severity = d.severity;
    detection = record {
      signal = primary_signal_type d;
      source = d.provider;
      first_seen = acc.now;
      last_seen = acc.now;
      affected_resources = d.affected_resources;
    };
    root_cause = annotate_unattributed (build_root_cause acc.decimals d) s;
    resolution = none;
  };
  phase = "";
  occurrence_count = 0;
  last_occurrence = none;
  conditions = [];
}

-- The incident that is there already is read.
unfoldable pub adopt : Access → ℕ → Written → Written
adopt acc n w =
    fetching acc adopting n w (λ existing. record w { incident = existing; error = none })

abbrev pub begun : ℕ → IncidentMemory → IncidentMemory
begun now i = record i { phase = "Detected"; occurrence_count = 1; last_occurrence = some now }

-- The first attempt writes through the object that was created; later ones read it again.
unfoldable pub set_initial_status : Access → ℕ → Written → Written
set_initial_status acc zero w = status_write acc initial_status 0 w (begun acc.now w.incident)
set_initial_status acc (suc n) w =
    fetching acc initial_status (suc n) w
      (λ fresh. status_write acc initial_status (suc n) w (begun acc.now fresh))

abbrev pub announce_creation : Access → IncidentSubject → Diagnosis → IncidentMemory → List Sent
announce_creation acc s d i =
    broadcast_creation acc s d i
    ++ store_signal_events acc d i
    ++ (if d.severity == "warning" || d.severity == "critical" then emit_k8s_events d else [])

abbrev pub creating : IncidentMemory → Option Error → Written
creating i e = record { incident = i; error = e; sent = created i ∷ [] }

-- createIncident
unfoldable pub create_incident : Access → IncidentSubject → Diagnosis → Written
unfolding new_incident adopt set_initial_status retry_incident_write update_existing_incident
    store_signal_events emit_k8s_events
create_incident acc s d =
    let i = new_incident acc s d in
    elim (acc.create_incident i) [
      | none ↦
          or_discard acc d "setting the initial incident status"
            (retry_incident_write acc (set_initial_status acc) (creating i none))
            (λ w. record w { sent = w.sent ++ announce_creation acc s d w.incident })
      | some e ↦
          if acc.is_already_exists e
          then or_discard acc d "adopting the incident that already existed"
              (retry_incident_write acc (adopt acc) (creating i none))
              (update_existing_incident acc s d)
          else creating i (some (wrap "creating IncidentMemory: %w" [] e))
    ]

-- Propose, and the broadcast of what it created.
unfoldable pub send_proposal : Access → Diagnosis → IncidentMemory → List Sent
send_proposal acc d i = elim (acc.propose d i) [
  | found (some a) ↦
      proposed d i ∷ (if acc.has_web_socket then remediation_broadcast a ∷ [] else [])
  | _ ↦ proposed d i ∷ []
]

-- The proposal of processDiagnosis, once the incident is written.
unfoldable pub propose_remediation :
    Access → IncidentSubject → Diagnosis → Option IncidentMemory → List Sent
unfolding rejection_suppresses_proposal send_proposal
propose_remediation acc s d none = []
propose_remediation acc s d (some i) =
    if s.is_unattributed
    then []
    else if acc.has_proposer && not (i.phase == "Resolved")
    then elim (rejection_suppresses_proposal acc.now acc.list_actions d (some i)) [
      | get_error _ ↦ []
      | found (some _) ↦ []
      | found none ↦ send_proposal acc d i
    ]
    else []

abbrev pub found_again : Fetched (Option IncidentMemory) → Option IncidentMemory
found_again (found o) = o
found_again (get_error _) = none

abbrev pub proposing :
    Access
    → IncidentSubject
    → Diagnosis
    → Written
    → Option IncidentMemory
    → Option Error × List Sent
proposing acc s d w o = elim w.error [
  | some e ↦ (some e, w.sent)
  | none ↦ (none, w.sent ++ propose_remediation acc s d o)
]

-- processDiagnosis: its error, and what it sent.
unfoldable pub process_diagnosis : Access → IncidentSubject → Diagnosis → Option Error × List Sent
unfolding find_matching_incident create_incident update_existing_incident propose_remediation
process_diagnosis acc s d = elim (find_matching_incident acc 0 s d) [
  | get_error e ↦ (some (wrap "finding matching incident: %w" [] e), [])
  | found (some i) ↦
      let w = update_existing_incident acc s d (record { incident = i; error = none; sent = [] }) in
      proposing acc s d w (some w.incident)
  | found none ↦
      proposing acc s d (create_incident acc s d) (found_again (find_matching_incident acc 1 s d))
]
