-- ===== src/Verifier.antt =====
-- internal/remediation/verifier.go: whether the signal that a remediation addressed has cleared.
pub mod Laws
use dorgu_operator.Common.{
  ℕ, String, Bool, true, false, ◌&&◌, Option, none, some, List, [], ◌∷◌, ◌==◌, if◌then◌else◌, any,
}
use dorgu_operator.Api.{PersonaReference, Error, wrap, word, RemediationAction}
use dorgu_operator.Detection.{Signal}
use dorgu_operator.Executor.{Fetched, found, get_error}
use dorgu_operator.Incident.{IncidentMemory}

-- A result is one of three texts; `unexpected` is any other text.
pub data VerificationResult : Type 0 where
  healthy degraded unknown : VerificationResult
  unexpected : String → VerificationResult

abbrev pub result_text : VerificationResult → String
result_text healthy = "Healthy"
result_text degraded = "Degraded"
result_text unknown = "Unknown"
result_text (unexpected s) = s

abbrev pub affects : Option PersonaReference → String → String → Bool
affects none name namespace = false
affects (some ref) name namespace = ref.name == name && ref.namespace == namespace

unfoldable pub has_signal_for_persona : List Signal → String → String → String → Bool
has_signal_for_persona signals type name namespace =
    any (λ (s : Signal). s.type == type && affects s.persona_ref name namespace) signals

unfoldable pub has_new_critical_signals : List Signal → String → String → Bool
has_new_critical_signals signals name namespace =
    any (λ (s : Signal). s.severity == "critical" && affects s.persona_ref name namespace) signals

-- The namespace in which getIncident looks.
abbrev pub incident_namespace : RemediationAction → String
incident_namespace a =
    if a.spec.incident_ref.namespace == "" then a.namespace else a.spec.incident_ref.namespace

-- The result and the error that Verify returns, from the collected signals and the incident.
unfoldable pub verify :
    Fetched (List Signal)
    → (String → String → Fetched IncidentMemory)
    → RemediationAction
    → VerificationResult × Option Error
verify (get_error e) get_incident a = (unknown, some (wrap "collecting signals: %w" [] e))
verify (found signals) get_incident a =
    elim (get_incident (incident_namespace a) a.spec.incident_ref.name) [
      | get_error e ↦ (
        unknown,
        some (
            wrap "getting incident: %w" [] (
              wrap "getting IncidentMemory %s/%s: %w"
                (word (incident_namespace a) ∷ word a.spec.incident_ref.name ∷ []) e)),
      )
      | found incident ↦
          if has_signal_for_persona signals incident.spec.detection.signal a.spec.persona_ref.name
            a.spec.persona_ref.namespace
          then (degraded, none)
          else if has_new_critical_signals signals a.spec.persona_ref.name
              a.spec.persona_ref.namespace
          then (degraded, none)
          else (healthy, none)
    ]
