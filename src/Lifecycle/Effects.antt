-- ===== src/Lifecycle/Effects.antt =====
-- What one pass of the remediation controller is told, and what it returns.
use dorgu_operator.Common.{ℕ, String, Bool, Option, none, some, List}
use dorgu_operator.Api.{Error, Phase, ConditionStatus, Message, RemediationAction}
use dorgu_operator.Detection.{Signal}
use dorgu_operator.Incident.{IncidentMemory}
use dorgu_operator.Executor.{ApplicationPersona, Fetched, Server}

-- A request of the pass that changes something outside it. A status update is listed whether or
-- not the API server accepts it.
pub data Request : Type 0 where
  persona_update : ApplicationPersona → Request
  status_update : RemediationAction → Request
  incident_update : IncidentMemory → Request
  incident_status_update : IncidentMemory → Request
  broadcast : String → Phase → Request
  recorded : Phase → Phase → Request

-- The answer of one attempt inside a retry loop, with the requests that it sent.
pub record Attempt : Type 0 where
  pub error : Option Error
  pub requests : List Request

-- RollbackOutcome, by its condition status, reason and message (rollback_divergence.go).
pub record RollbackOutcome : Type 0 where
  pub status : ConditionStatus
  pub reason : String
  pub message : Message

-- What the clock, the API server, the detectors and retry.RetryOnConflict answer in one pass.
-- The answers inside a retry loop are indexed by the attempt.
pub record World : Type 0 where
  pub now : ℕ
  pub server : Server
  pub update_status : RemediationAction → Option Error
  pub signals : Fetched (List Signal)
  pub get_incident : String → String → Fetched IncidentMemory
  pub update_incident : IncidentMemory → Option Error
  pub reread_incident : ℕ → Fetched IncidentMemory
  pub update_incident_status : ℕ → IncidentMemory → Option Error
  pub reread_action : ℕ → Fetched RemediationAction
  pub reupdate_status : ℕ → RemediationAction → Option Error
  pub inspect_rollback : RemediationAction → RollbackOutcome
  pub retry_on_conflict : (ℕ → Attempt) → Attempt
  pub has_web_socket : Bool

-- ctrl.Result
pub data Requeue : Type 0 where
  stop : Requeue
  requeue_after : ℕ → Requeue
  requeue_now : Requeue

pub record Pass : Type 0 where
  pub action : RemediationAction
  pub result : Requeue
  pub error : Option Error
  pub requests : List Request

abbrev pub pass : RemediationAction → Requeue → List Request → Pass
pass a r reqs = record { action = a; result = r; error = none; requests = reqs }

abbrev pub failing : RemediationAction → Error → List Request → Pass
failing a e reqs = record { action = a; result = stop; error = some e; requests = reqs }
