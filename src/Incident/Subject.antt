-- ===== src/Incident/Subject.antt =====
-- internal/controller/healthcheck_reconciler.go: the application an incident is filed against, and
-- the keys by which incidents and diagnoses are told apart.
use Prim.Native.String.{◌++◌}
use dorgu_operator.Common.{String, Bool, true, false, not, Option, none, some, ◌==◌, if◌then◌else◌}
use dorgu_operator.Api.{PersonaReference}
use dorgu_operator.Detection.Grouping.{◌/◌, SignalGroup, persona_scope, unattributed, cluster}
use dorgu_operator.Diagnosis.{Diagnosis, primary_signal_type}
use dorgu_operator.Incident.{IncidentMemory}

pub record IncidentSubject : Type 0 where
  pub persona_ref : PersonaReference
  pub is_unattributed : Bool
  pub namespace : String

abbrev pub persona_subject : PersonaReference → IncidentSubject
persona_subject ref = record {
  persona_ref = ref;
  is_unattributed = false;
  namespace = ref.namespace;
}

-- incidentSubjectFor: `none` where the group is about no application.
unfoldable pub incident_subject_for : SignalGroup → Option IncidentSubject
incident_subject_for g = elim g.scope [
  | persona_scope ↦ elim g.persona_ref [
    | none ↦ none
    | some ref ↦ some (
        if ref.namespace == ""
        then record (persona_subject ref) { namespace = g.namespace }
        else persona_subject ref)
  ]
  | unattributed ↦ some record {
    persona_ref = record {
      kind = "ApplicationPersona";
      name = g.workload;
      namespace = g.namespace;
    };
    is_unattributed = true;
    namespace = g.namespace;
  }
  | cluster ↦ none
]

abbrev pub attribution : IncidentSubject → String
attribution s = if s.is_unattributed then "unattributed" else "persona"

abbrev pub incident_name_key : IncidentSubject → String
incident_name_key s =
    if s.is_unattributed then s.persona_ref.name ++ "-unattributed" else s.persona_ref.name

-- matchesIncident
unfoldable pub matches_incident : IncidentSubject → IncidentMemory → Bool
matches_incident s i =
    if i.spec.attribution == "" then not s.is_unattributed else i.spec.attribution == attribution s

unfoldable pub signal_key : IncidentSubject → Diagnosis → String
unfolding primary_signal_type
signal_key s d =
    s.persona_ref.kind
    / s.persona_ref.namespace
    / s.persona_ref.name
    / d.category
    / primary_signal_type d
