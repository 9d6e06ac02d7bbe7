-- ===== src/Lifecycle/Resolution.antt =====
-- updateIncidentResolution and broadcastRemediation of the remediation controller.
use dorgu_operator.Common.{ℕ, ◌-◌, String, none, some, List, [], ◌∷◌, ◌==◌, if◌then◌else◌, eqb}
use dorgu_operator.Common.Maps.{insert}
use dorgu_operator.Api.{word, wrap, RemediationAction}
use dorgu_operator.Executor.{found, get_error}
use dorgu_operator.Incident.{IncidentMemory}
use dorgu_operator.Lifecycle.Effects.{
  World, Request, incident_update, incident_status_update, broadcast, Attempt,
}

-- A broadcast carries the event and the phase; nothing is sent with no WebSocket server.
unfoldable pub broadcast_remediation : World → RemediationAction → String → List Request
broadcast_remediation w a event =
    if w.has_web_socket then broadcast event a.status.phase ∷ [] else []

abbrev resolution : World → RemediationAction → String → IncidentMemory → IncidentMemory
resolution w a outcome i = record i {
  spec = record i.spec {
    resolution = some record {
      action = a.spec.explanation;
      remediation_ref = some record { name = a.name; namespace = a.namespace };
      applied_at = a.status.applied_at;
      outcome = outcome;
      duration =
          if eqb i.spec.detection.first_seen 0
          then none
          else some (w.now - i.spec.detection.first_seen);
    };
  };
  labels = if outcome == "resolved" then insert "dorgu.io/phase" "Resolved" i.labels else i.labels;
}

-- One round of the retry loop on the incident's status.
abbrev pub mark_resolved : World → ℕ → Attempt
mark_resolved w n = elim (w.reread_incident n) [
  | get_error e ↦ record { error = some e; requests = [] }
  | found i ↦
      (let i' = record i { phase = "Resolved" } in
        record { error = w.update_incident_status n i'; requests = incident_status_update i' ∷ [] })
]

unfoldable pub update_incident_resolution : World → RemediationAction → String → Attempt
unfolding insert
update_incident_resolution w a outcome =
    let namespace =
      if a.spec.incident_ref.namespace == "" then a.namespace else a.spec.incident_ref.namespace in
    elim (w.get_incident namespace a.spec.incident_ref.name) [
      | get_error e ↦ record {
        error = some (
            wrap "getting IncidentMemory %s: %w"
              (word namespace ∷ word a.spec.incident_ref.name ∷ []) e);
        requests = [];
      }
      | found incident ↦
          (let i = resolution w a outcome incident in
            elim (w.update_incident i) [
              | some e ↦ record {
                error = some (wrap "updating IncidentMemory spec: %w" [] e);
                requests = incident_update i ∷ [];
              }
              | none ↦
                  if outcome == "resolved"
                  then (let last = w.retry_on_conflict (mark_resolved w) in
                      record {
                        error = elim last.error [
                          | none ↦ none
                          | some e ↦ some (wrap "updating IncidentMemory status: %w" [] e)
                        ];
                        requests = incident_update i ∷ last.requests;
                      })
                  else record { error = none; requests = incident_update i ∷ [] }
            ])
    ]
