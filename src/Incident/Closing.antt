-- ===== src/Incident/Closing.antt =====
-- internal/controller/healthcheck_reconciler.go and incident_recovery.go: how an incident is closed
-- once the evidence is there.
use Prim.Native.String.{◌++◌}
use dorgu_operator.Common.{ℕ, String, none, some, List, [], ◌∷◌, if◌then◌else◌}
use dorgu_operator.Common.Maps.{insert}
use dorgu_operator.Api.{wrap}
use dorgu_operator.Incident.{IncidentMemory}
use dorgu_operator.Incident.Recovery.{RecoveryEvidence}
use dorgu_operator.Incident.Access.{
  Access, Written, Sent, incident_broadcast, resolving_spec, resolving_status,
}
use dorgu_operator.Incident.Writes.{retry_incident_write, fetching, spec_write, status_write}

-- resolutionAction
unfoldable pub resolution_action : Access → RecoveryEvidence → String
resolution_action acc evidence = "auto-resolved: " ++ acc.message_text evidence.reason

abbrev pub closed_with : Access → RecoveryEvidence → IncidentMemory → IncidentMemory
closed_with acc evidence i = record i {
  labels = insert "dorgu.io/phase" "Resolved" i.labels;
  spec = record i.spec {
    resolution = some record {
      action = resolution_action acc evidence;
      remediation_ref = none;
      applied_at = none;
      outcome = "resolved";
      duration = none;
    };
  };
}

unfoldable pub write_resolution : Access → RecoveryEvidence → ℕ → Written → Written
unfolding resolution_action insert
write_resolution acc evidence n w =
    fetching acc resolving_spec n w
      (λ fresh. spec_write acc resolving_spec n w (closed_with acc evidence fresh))

abbrev pub with_resolved_phase : IncidentMemory → IncidentMemory
with_resolved_phase i = record i { phase = "Resolved" }

unfoldable pub write_resolved_phase : Access → ℕ → Written → Written
write_resolved_phase acc n w =
    fetching acc resolving_status n w
      (λ fresh. status_write acc resolving_status n w (with_resolved_phase fresh))

-- markResolved
unfoldable pub mark_resolved : Access → IncidentMemory → RecoveryEvidence → Written
unfolding retry_incident_write write_resolution write_resolved_phase
mark_resolved acc i evidence =
    let w =
      retry_incident_write acc (write_resolution acc evidence)
        (record { incident = i; error = none; sent = [] }) in
    elim w.error [
      | some e ↦ record w { error = some (wrap "recording the resolution: %w" [] e) }
      | none ↦
          (let v = retry_incident_write acc (write_resolved_phase acc) w in
            elim v.error [
              | some e ↦ record v { error = some (wrap "recording the resolved phase: %w" [] e) }
              | none ↦ v
            ])
    ]

abbrev pub broadcast_resolution : Access → IncidentMemory → List Sent
broadcast_resolution acc i =
    if acc.has_web_socket
    then incident_broadcast record {
      event_type = "resolved";
      name = i.name;
      namespace = i.namespace;
      severity = i.spec.severity;
      category = i.spec.category;
      signal = i.spec.detection.signal;
      phase = "Resolved";
      persona_name = i.spec.persona_ref.name;
      persona_kind = i.spec.persona_ref.kind;
      summary = "";
    }
      ∷ []
    else []
