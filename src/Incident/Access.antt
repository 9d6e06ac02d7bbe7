-- ===== src/Incident/Access.antt =====
-- internal/controller/healthcheck_reconciler.go: what the health check is told, and what it sends. The
-- event store and the emitter are set, as main.go sets them; what they answer is only logged.
use dorgu_operator.Common.{ℕ, String, Bool, Option, List}
use dorgu_operator.Api.{Message, Error, RemediationAction}
use dorgu_operator.Diagnosis.{Diagnosis}
use dorgu_operator.Events.{InternalEvent}
use dorgu_operator.Executor.{Fetched}
use dorgu_operator.Incident.{IncidentMemory}
use dorgu_operator.Incident.Diagnosed.{Decimals}

-- websocket.IncidentEvent
pub record IncidentEvent : Type 0 where
  pub event_type : String
  pub name : String
  pub namespace : String
  pub severity : String
  pub category : String
  pub signal : String
  pub phase : String
  pub persona_name : String
  pub persona_kind : String
  pub summary : String

-- What the reconciler sends, in order. A write is listed whether or not the API server accepts it.
pub data Sent : Type 0 where
  created : IncidentMemory → Sent
  updated : IncidentMemory → Sent
  status_updated : IncidentMemory → Sent
  stored : InternalEvent → Sent
  emitted : InternalEvent → Sent
  incident_broadcast : IncidentEvent → Sent
  health_broadcast : ℕ → ℕ → Sent
  proposed : Diagnosis → IncidentMemory → Sent
  remediation_broadcast : RemediationAction → Sent

-- The retry loops, by what is lost where one fails.
pub data Stage : Type 0 where
  adopting recording_cause recording_count initial_status resolving_spec resolving_status : Stage

-- What a retry loop holds: the object that its attempts write to, the last attempt's error, and
-- what was sent so far.
pub record Written : Type 0 where
  pub incident : IncidentMemory
  pub error : Option Error
  pub sent : List Sent

-- The clock, what the API server answers, and the third-party functions that are called. Answers
-- inside a retry loop are indexed by the loop and the attempt; `list_incidents` first by how many
-- times the incidents were listed before.
pub record Access : Type 0 where
  pub now : ℕ
  pub later : ℕ
  pub decimals : Decimals
  pub hash : String → String
  pub message_text : Message → String
  pub nanos : ℕ → String
  pub error_text : Error → String
  pub is_conflict : Error → Bool
  pub is_not_found : Error → Bool
  pub is_already_exists : Error → Bool
  pub on_error : (Error → Bool) → (ℕ → Written → Written) → Written → Written
  pub list_incidents : ℕ → List (String × String) → Option String → Fetched (List IncidentMemory)
  pub get_incident : Stage → ℕ → String → String → Fetched IncidentMemory
  pub create_incident : IncidentMemory → Option Error
  pub update_incident : Stage → ℕ → IncidentMemory → Option Error
  pub update_incident_status : Stage → ℕ → IncidentMemory → Option Error
  pub list_actions : Option String → Option String → Fetched (List RemediationAction)
  pub propose : Diagnosis → IncidentMemory → Fetched (Option RemediationAction)
  pub has_proposer : Bool
  pub has_web_socket : Bool
