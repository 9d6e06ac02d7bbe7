-- ===== src/Incident/Writes.antt =====
-- internal/controller/healthcheck_reconciler.go and incident_write.go: how a diagnosis is written
-- to an incident, with every write retried.
pub mod Retrying
use dorgu_operator.Common.{
  ℕ, ◌+◌, String, Bool, ◌||◌, Option, none, some, List, [], ◌∷◌, map, ◌==◌, if◌then◌else◌, ◌++◌,
}
use dorgu_operator.Api.{word, Error, wrap, RemediationAction}
use dorgu_operator.Diagnosis.{Diagnosis, ContributingSignal}
use dorgu_operator.Events.{InternalEvent}
use dorgu_operator.Executor.{Fetched, found, get_error}
use dorgu_operator.Incident.{IncidentMemory, RootCauseInfo}
use dorgu_operator.Incident.Subject.{IncidentSubject}
use dorgu_operator.Incident.Diagnosed.{Decimals, apply_diagnosis_to_spec}
use dorgu_operator.Incident.Access.{
  IncidentEvent, Sent, stored, emitted, incident_broadcast, Access, Written, created, updated,
  status_updated, Stage, recording_cause, recording_count,
}
use dorgu_operator.Incident.Reports.{discarded_event, broadcast_update}

-- retriableIncidentWriteError
unfoldable pub retriable_incident_write_error : Access → Error → Bool
retriable_incident_write_error acc e = acc.is_conflict e || acc.is_not_found e

-- retryIncidentWrite: retry.OnError counts the attempts.
unfoldable pub retry_incident_write : Access → (ℕ → Written → Written) → Written → Written
unfolding retriable_incident_write_error
retry_incident_write acc write w = acc.on_error (retriable_incident_write_error acc) write w

-- Get in one attempt of a loop, and what follows where it answers.
abbrev pub fetching : Access → Stage → ℕ → Written → (IncidentMemory → Written) → Written
fetching acc s n w next = elim (acc.get_incident s n w.incident.namespace w.incident.name) [
  | get_error e ↦ record w { error = some e }
  | found fresh ↦ next fresh
]

abbrev pub status_write : Access → Stage → ℕ → Written → IncidentMemory → Written
status_write acc s n w i = record {
  incident = i;
  error = acc.update_incident_status s n i;
  sent = w.sent ++ status_updated i ∷ [];
}

-- An update of the object, which replaces the one in memory once it is accepted.
abbrev pub spec_write : Access → Stage → ℕ → Written → IncidentMemory → Written
spec_write acc s n w i = elim (acc.update_incident s n i) [
  | some e ↦ record w { error = some e; sent = w.sent ++ updated i ∷ [] }
  | none ↦ record { incident = i; error = none; sent = w.sent ++ updated i ∷ [] }
]

unfoldable pub write_cause : Access → IncidentSubject → Diagnosis → ℕ → Written → Written
unfolding apply_diagnosis_to_spec
write_cause acc s d n w = fetching acc recording_cause n w (λ fresh.
    spec_write acc recording_cause n w (apply_diagnosis_to_spec acc.decimals fresh s d acc.now))

abbrev pub counted : ℕ → IncidentMemory → IncidentMemory
counted now i = record i { occurrence_count = i.occurrence_count + 1; last_occurrence = some now }

unfoldable pub write_count : Access → ℕ → Written → Written
write_count acc n w =
    fetching acc recording_count n w
      (λ fresh. status_write acc recording_count n w (counted acc.now fresh))

-- reportDiscardedDiagnosis
unfoldable pub report_discarded_diagnosis : Access → Written → Diagnosis → String → Error → Written
unfolding discarded_event
report_discarded_diagnosis acc w d stage cause = record w {
  error = some (wrap "%s for IncidentMemory %s: %w" (word stage ∷ word w.incident.name ∷ []) cause);
  sent =
      w.sent
      ++ stored (discarded_event acc w.incident d stage cause)
        ∷ emitted (discarded_event acc w.incident d stage cause)
        ∷ [];
}

-- The end of a write: the loss is reported where the loop failed.
abbrev pub or_discard : Access → Diagnosis → String → Written → (Written → Written) → Written
or_discard acc d stage w next = elim w.error [
  | some e ↦ report_discarded_diagnosis acc w d stage e
  | none ↦ next w
]

-- The second write of updateExistingIncident, and the broadcast.
unfoldable pub record_count : Access → Diagnosis → Written → Written
unfolding retry_incident_write write_count report_discarded_diagnosis
record_count acc d w =
    or_discard acc d "recording the occurrence count" (retry_incident_write acc (write_count acc) w)
      (λ v. record v { sent = v.sent ++ broadcast_update acc v.incident })

-- updateExistingIncident, over what was sent before.
unfoldable pub update_existing_incident : Access → IncidentSubject → Diagnosis → Written → Written
unfolding retry_incident_write write_cause report_discarded_diagnosis record_count
update_existing_incident acc s d w =
    or_discard acc d "recording the root cause" (retry_incident_write acc (write_cause acc s d) w)
      (record_count acc d)
