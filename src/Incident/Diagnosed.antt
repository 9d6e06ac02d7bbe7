-- ===== src/Incident/Diagnosed.antt =====
-- internal/controller/healthcheck_reconciler.go: what a diagnosis writes on an incident. The format
-- and the parser of a confidence are parameters (fmt and strconv on a float64).
pub mod Laws
use Prim.Native.String.{◌++◌}
use dorgu_operator.Common.{
  ℕ, String, Option, none, some, map, ◌&&◌, ◌==◌, eqb, ltb, leb, if◌then◌else◌,
}
use dorgu_operator.Common.Maps.{text_at, insert}
use dorgu_operator.Common.Text.{trim_space}
use dorgu_operator.Diagnosis.{Diagnosis, ContributingSignal}
use dorgu_operator.Incident.{IncidentMemory, RootCauseInfo, SignalNote}
use dorgu_operator.Incident.Subject.{IncidentSubject, attribution}

-- fmt.Sprintf("%.2f", ...) and strconv.ParseFloat.
pub record Decimals : Type 0 where
  pub format : ℕ → String
  pub parse : String → Option ℕ

abbrev pub signal_note : ContributingSignal → SignalNote
signal_note c = record { signal = c.signal.type; detail = c.detail }

-- buildRootCause
unfoldable pub build_root_cause : Decimals → Diagnosis → Option RootCauseInfo
build_root_cause f d =
    if eqb d.confidence 0 && d.summary == ""
    then none
    else some record {
      summary = d.summary;
      confidence = f.format d.confidence;
      provider = d.provider;
      contributing = map signal_note d.contributing;
    }

abbrev pub no_persona_note : IncidentSubject → String
no_persona_note s =
    " No ApplicationPersona in namespace " ++ s.namespace ++ " claims workload "
    ++ s.persona_ref.name
    ++ ", so this incident is recorded against the workload and Dorgu will not propose a remediation for it. Run \"dorgu persona import -n "
    ++ s.namespace ++ "\" to onboard it."

-- annotateUnattributed
unfoldable pub annotate_unattributed : Option RootCauseInfo → IncidentSubject → Option RootCauseInfo
annotate_unattributed none s = none
annotate_unattributed (some rc) s =
    if s.is_unattributed
    then some (record rc { summary = trim_space rc.summary ++ no_persona_note s })
    else some rc

-- The confidence of the recorded root cause, and 0 where there is none that can be read.
unfoldable pub existing_confidence : Decimals → Option RootCauseInfo → ℕ
existing_confidence f none = 0
existing_confidence f (some rc) = elim (f.parse rc.confidence) [ none ↦ 0 | some c ↦ c ]

unfoldable pub refreshed_cause :
    Decimals → IncidentSubject → Diagnosis → Option RootCauseInfo → Option RootCauseInfo
unfolding build_root_cause annotate_unattributed existing_confidence
refreshed_cause f s d old =
    if ltb 0 d.confidence && leb (existing_confidence f old) d.confidence
    then annotate_unattributed (build_root_cause f d) s
    else old

unfoldable pub attributed : IncidentSubject → IncidentMemory → String
attributed s i = if i.spec.attribution == "" then attribution s else i.spec.attribution

-- applyDiagnosisToSpec. The role of the affected resources is left out.
unfoldable pub apply_diagnosis_to_spec :
    Decimals → IncidentMemory → IncidentSubject → Diagnosis → ℕ → IncidentMemory
unfolding attributed refreshed_cause text_at insert
apply_diagnosis_to_spec f i s d now = record i {
  labels =
      if text_at "dorgu.io/attribution" i.labels == ""
      then insert "dorgu.io/attribution" (attributed s i) i.labels
      else i.labels;
  spec = record i.spec {
    attribution = attributed s i;
    detection = record i.spec.detection {
      last_seen = now;
      affected_resources = d.affected_resources;
    };
    root_cause = refreshed_cause f s d i.spec.root_cause;
  };
}
