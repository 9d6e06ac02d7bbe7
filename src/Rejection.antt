-- ===== src/Rejection.antt =====
-- internal/controller/rejection_cooldown.go: whether an earlier rejection stops a proposal.
pub mod Laws
use dorgu_operator.Common.{
  ℕ, ◌+◌, ◌-◌, ◌*◌, ltb, eqb, String, Bool, true, false, ◌&&◌, not, Option, none, some, List, [],
  ◌∷◌, ◌==◌, if◌then◌else◌,
}
use dorgu_operator.Api.{
  Arg, word, num, Error, wrap, Message, sprintf, PersonaReference, Phase, rejected, Condition,
  RemediationAction,
}
use dorgu_operator.Detection.{severity_rank}
use dorgu_operator.Diagnosis.{Diagnosis, primary_signal_type}
use dorgu_operator.Executor.{Fetched, found, get_error}
use dorgu_operator.Incident.{IncidentMemory}
use dorgu_operator.Lifecycle.Rejection.{is_rejected}

abbrev pub rejection_cooldown : ℕ
rejection_cooldown = 3600 * 1000000000

unfoldable pub target_unchanged : Diagnosis → IncidentMemory → Bool
unfolding primary_signal_type
target_unchanged d i = primary_signal_type d == i.spec.detection.signal

unfoldable pub severity_escalated : Diagnosis → IncidentMemory → Bool
severity_escalated d i = ltb (severity_rank i.spec.severity) (severity_rank d.severity)

-- `none` is a rejection with no timestamp.
unfoldable pub rejection_time : List Condition → Option ℕ
rejection_time [] = none
rejection_time (c ∷ cs) =
    if c.type == "Rejected" && not (eqb c.last_transition_time 0)
    then some c.last_transition_time
    else rejection_time cs

-- What one round of the loop does: it goes on, or returns a reason.
abbrev pub counts : Diagnosis → IncidentMemory → RemediationAction → Bool
counts d i a =
    is_rejected a.status.phase
    && a.spec.incident_ref.name == i.name
    && target_unchanged d i
    && not (severity_escalated d i)

unfoldable pub reason_of : ℕ → Diagnosis → IncidentMemory → RemediationAction → Option Message
reason_of now d i a =
    if counts d i a
    then elim (rejection_time a.status.conditions) [
      | none ↦ some (
          sprintf "remediation %s was rejected and its cooldown has not been timestamped yet"
            (word a.name ∷ []))
      | some t ↦
          if ltb now (t + rejection_cooldown)
          then some (
              sprintf "remediation %s was rejected %s ago; not re-proposing for another %s"
                (word a.name ∷ num (now - t) ∷ num (t + rejection_cooldown - now) ∷ []))
          else none
    ]
    else none

unfoldable pub first_reason :
    ℕ → Diagnosis → IncidentMemory → List RemediationAction → Option Message
first_reason now d i [] = none
first_reason now d i (a ∷ as') = elim (reason_of now d i a) [
  | some r ↦ some r
  | none ↦ first_reason now d i as'
]

-- `list_actions` is the API server: it filters by the namespace and by the label of the persona's
-- name, where they are given. A nil incident or persona suppresses nothing.
unfoldable pub rejection_suppresses_proposal :
    ℕ
    → (Option String → Option String → Fetched (List RemediationAction))
    → Diagnosis
    → Option IncidentMemory
    → Fetched (Option Message)
rejection_suppresses_proposal now list_actions d none = found none
rejection_suppresses_proposal now list_actions d (some i) = elim d.persona_ref [
  | none ↦ found none
  | some ref ↦
      (let namespace = if i.namespace == "" then ref.namespace else i.namespace in
        elim (list_actions (if namespace == "" then none else some namespace)
          (if ref.name == "" then none else some ref.name)) [
            | get_error e ↦
                get_error
                  (wrap "listing RemediationActions for incident %s: %w" (word i.name ∷ []) e)
            | found actions ↦ found (first_reason now d i actions)
          ])
]
