-- ===== src/Incident/Reports.antt =====
-- internal/controller/healthcheck_reconciler.go: what is reported of an incident and of a diagnosis
-- that is lost.
use Prim.Native.String.{◌++◌}
use dorgu_operator.Common.{String, Option, none, some, List, [], ◌∷◌, map, ◌==◌, if◌then◌else◌}
use dorgu_operator.Api.{Error}
use dorgu_operator.Diagnosis.{primary_signal_type, Diagnosis, ContributingSignal}
use dorgu_operator.Events.{InternalEvent}
use dorgu_operator.Incident.Subject.{IncidentSubject}
use dorgu_operator.Incident.{IncidentMemory, RootCauseInfo}
use dorgu_operator.Incident.Access.{Sent, stored, emitted, incident_broadcast, Access}

-- providerSuffix
unfoldable pub provider_suffix : String → String
provider_suffix provider = if provider == "" then "" else " " ++ provider

abbrev pub discard_reason : String
discard_reason = "DorguDiagnosisDiscarded"

unfoldable pub discarded_event :
    Access → IncidentMemory → Diagnosis → String → Error → InternalEvent
unfolding provider_suffix
discarded_event acc i d stage cause = record {
  id = "diagnosis-discarded-" ++ i.name ++ "-" ++ acc.nanos acc.later;
  severity = "critical";
  category = i.spec.category;
  source = "healthcheck-reconciler";
  reason = discard_reason;
  message =
      "discarded the"
      ++ provider_suffix d.provider
      ++ " diagnosis for "
      ++ i.name
      ++ " after "
      ++ stage
      ++ " failed: "
      ++ acc.error_text cause
      ++ ". The analysis was produced and paid for but is not recorded.";
  involved_object = record { kind = "IncidentMemory"; name = i.name; namespace = i.namespace };
  persona_ref = d.persona_ref;
  event_time = acc.later;
  k8s_event_uid = "";
}

abbrev pub cause_summary : Option RootCauseInfo → String
cause_summary none = ""
cause_summary (some rc) = rc.summary

abbrev pub broadcast_update : Access → IncidentMemory → List Sent
broadcast_update acc i =
    if acc.has_web_socket
    then incident_broadcast record {
      event_type = "updated";
      name = i.name;
      namespace = i.namespace;
      severity = i.spec.severity;
      category = i.spec.category;
      signal = i.spec.detection.signal;
      phase = i.phase;
      persona_name = i.spec.persona_ref.name;
      persona_kind = i.spec.persona_ref.kind;
      summary = cause_summary i.spec.root_cause;
    }
      ∷ []
    else []

abbrev pub broadcast_creation : Access → IncidentSubject → Diagnosis → IncidentMemory → List Sent
broadcast_creation acc s d i =
    if acc.has_web_socket
    then incident_broadcast record {
      event_type = "created";
      name = i.name;
      namespace = i.namespace;
      severity = d.severity;
      category = d.category;
      signal = primary_signal_type d;
      phase = "Detected";
      persona_name = s.persona_ref.name;
      persona_kind = s.persona_ref.kind;
      summary = d.summary;
    }
      ∷ []
    else []

-- The internal event of a contributing signal, but for what the two uses of it set.
unfoldable pub signal_event : String → String → ContributingSignal → InternalEvent
signal_event id message c = record {
  id = id;
  severity = c.signal.severity;
  category = c.signal.category;
  source = c.signal.source;
  reason = "";
  message = message;
  involved_object = c.signal.resource;
  persona_ref = c.signal.persona_ref;
  event_time = c.signal.detected_at;
  k8s_event_uid = "";
}

-- storeSignalEvents
unfoldable pub store_signal_events : Access → Diagnosis → IncidentMemory → List Sent
unfolding signal_event
store_signal_events acc d i =
    map
      (λ (c : ContributingSignal). stored (
        signal_event (i.name ++ "-" ++ c.signal.type ++ "-" ++ acc.nanos c.signal.detected_at)
          c.signal.message c))
      d.contributing

-- emitK8sEvents
unfoldable pub emit_k8s_events : Diagnosis → List Sent
unfolding signal_event
emit_k8s_events d =
    map
      (λ (c : ContributingSignal).
        emitted (signal_event "" (d.summary ++ ": " ++ c.signal.message) c))
      d.contributing
