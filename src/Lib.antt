-- ===== src/Lib.antt =====
-- Verification of the dorgu operator: how signals are attributed and grouped, when an incident is
-- opened and when it is over, and the path on which a remediation is checked, applied, verified and
-- rolled back.
--
-- The operator detects signals, records incidents, and proposes RemediationActions. Once one is
-- approved, the remediation controller takes it through its phases: the executor writes a merge
-- patch to the ApplicationPersona, the verifier looks whether the signal has cleared, and a
-- rollback restores the earlier state if it has not. Before a proposal is made, the safety checker
-- looks at rate, concurrency, cooldown, blast radius and deny list, and an earlier rejection by a
-- human may suppress it. Before a diagnosis is sent to a model, a gate looks at the namespaces that
-- it touches; what happens is recorded as events. Commands in a plan are sanitized, and classified
-- by their kubectl verb.
--
-- - Api, Incident, Detection: api/v1/remediationaction_types.go, incidentmemory_types.go and
--   internal/detection/signals.go, as records with the fields that the modelled code reads.
-- - Conditions: setCondition of internal/controller/controller_helpers.go, and the readers.
-- - Json, Executor: internal/remediation/executor.go and rollback.go. A persona's spec stands as
--   its JSON encoding; Apply and Execute return their error and the updates sent.
-- - Steps: api/v1/remediationaction_steps.go.
-- - Verifier: internal/remediation/verifier.go.
-- - Lifecycle: internal/controller/remediation_controller.go. A `World` is what the clock, the API
--   server, the detectors, the websocket server and RetryOnConflict answer in a pass; a `Pass` is
--   the action left in memory, the result, the error and the requests in order. Resolution,
--   Transitions, Handlers and Rejection hold the handlers; Graph, Statuses, Follows, Requests,
--   Writes and Retry what is proved of them. `run` starts each pass from what the API server holds.
-- - Safety: internal/remediation/safety.go, with its four readings of the cluster as separate views.
-- - Rejection: internal/controller/rejection_cooldown.go.
-- - Kubectl: internal/remediation/kubectl_verb.go.
-- - Detection/Correlator, Detection/Grouping: internal/detection/persona_correlator.go and
--   grouping.go, which say whose a signal is and which signals make one finding.
-- - Workload: internal/workload/match.go, ownership.go and ownership_fields.go: the Deployment of a
--   persona, and the system that owns it.
-- - Incident/Recovery: internal/controller/incident_recovery.go, which reads the pods and the
--   Deployments before an incident is closed.
-- - Incident: internal/controller/healthcheck_reconciler.go and incident_write.go, the cycle of the
--   health check. Subject and Names say whose an incident is and what it is called; Diagnosed is
--   applyDiagnosisToSpec, Writes the retried writes, Filing processDiagnosis, Clearing and Closing
--   resolveCleared and markResolved, and Cycle puts them together. An `Access` is what the clock and
--   the API server answer to one diagnosis, the answers inside a retry loop by the loop and the
--   attempt; `Sent` is what goes out, in order. Stamps and Controller are
--   internal/controller/incident_controller.go, which runs beside the cycle; its `Surroundings` are
--   what one pass is told.
-- - Diagnosis: internal/diagnosis/types.go, engine.go, which keeps the best of equal diagnoses, and
--   namespace_gate.go, which keeps what touches a protected namespace from a model.
-- - Proposer: the guards of Propose in internal/remediation/proposer.go and proposer_mode.go.
--   Refused takes what a guardrail refused out of a plan, as internal/remediation/refused_values.go
--   does: its Patch, its Prose, and Plan for an action as a whole; Mentions says when a text names
--   such a value. Its `Reader` stands for resource.ParseQuantity and the classes of unicode. Where
--   the source scans the bytes of a text, the model scans its characters and looks at the bytes that
--   these begin and end with.
-- - Events: internal/events/store.go and types.go: the record of events, without duplicates. A
--   `Delivery` is an event with its time and the API server's answer.
-- - Common: lists, texts, maps and numbers that these share; Tests: the theorems at sample inputs.
--
-- Conventions. Times are natural numbers of nanoseconds since the zero time, and the clock does not
-- change within a pass; that the API server cuts a time to whole seconds when it stores it is not
-- modelled. Errors and messages are their formats with arguments. A float64 is its 64 bits; how it is
-- computed and compared is a parameter. Go
-- maps are association lists; the code modelled sorts the keys where their order matters. Every
-- loop is structural recursion, so no fuel is used.
--
-- Not modelled: log lines and metrics but the transition counter, the informers and the wiring of
-- the manager, the detectors that find signals and the rules that diagnose them, the planner, the part
-- of the proposer that writes plans, the controllers of personas, and the comparison of a rolled back
-- persona with the live workload. What the modelled code asks of the API server, of
-- resource.ParseQuantity, of unicode, of encoding/json, of crypto/sha256, of the formats of times and
-- of numbers, of RetryOnConflict and of retry.OnError is a parameter.
pub mod Common
pub mod Api
pub mod Conditions
pub mod Json
pub mod Executor
pub mod Steps
pub mod Detection
pub mod Incident
pub mod Verifier
pub mod Lifecycle
pub mod Safety
pub mod Diagnosis
pub mod Events
pub mod Rejection
pub mod Kubectl
pub mod Proposer
pub mod Workload
pub mod Tests
