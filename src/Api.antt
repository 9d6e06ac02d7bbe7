-- ===== src/Api.antt =====
-- api/v1: the types of a RemediationAction and of what it refers to. Times are nanoseconds since
-- Go's zero time, so 0 is the zero time; a nil pointer is `none`.
use dorgu_operator.Common.{ℕ, Bool, String, Option, List}
use dorgu_operator.Json.{Raw}

-- An argument of a format.
pub data Arg : Type 0 where
  word : String → Arg
  num : ℕ → Arg

-- A Go error: a message with its arguments, a wrapped error (`%w`), or a *PreconditionError.
pub data Error : Type 0 where
  errorf : String → List Arg → Error
  wrap : String → List Arg → Error → Error
  precondition : Error → Error

-- A message by its format and arguments: fixed text, the retry counter's, and one about an error.
pub data Message : Type 0 where
  sprintf : String → List Arg → Message
  retry_message : ℕ → ℕ → Message
  about : String → Error → Message

pub record PersonaReference : Type 0 where
  pub kind : String
  pub name : String
  pub namespace : String

pub record IncidentReference : Type 0 where
  pub name : String
  pub namespace : String

-- A phase is a text; `other` is any text but those of the other constructors.
pub data Phase : Type 0 where
  pending approved applying verifying completed acknowledged rolled_back failed rejected expired :
      Phase
  other : String → Phase

pub data ConditionStatus : Type 0 where
  is_true is_false is_unknown : ConditionStatus

pub record Condition : Type 0 where
  pub type : String
  pub status : ConditionStatus
  pub reason : String
  pub message : Message
  pub last_transition_time : ℕ

pub record StepSafety : Type 0 where
  pub rule : String
  pub verdict : String
  pub field : String
  pub requested : String
  pub permitted : String
  pub message : String

pub record RemediationActionDetail : Type 0 where
  pub type : String
  pub patch : Option Raw
  pub pre_patch_state : Option Raw

pub record RemediationStep : Type 0 where
  pub order : ℕ
  pub id : String
  pub type : String
  pub description : String
  pub rationale : String
  pub risk : String
  pub auto_executable : Bool
  pub command : String
  pub patch : Option Raw
  pub pre_patch_state : Option Raw
  pub safety : List StepSafety

pub record RemediationRollbackSpec : Type 0 where
  pub enabled : Bool
  pub health_check_after : Option ℕ
  pub max_retries : ℕ

pub record RemediationActionSpec : Type 0 where
  pub incident_ref : IncidentReference
  pub persona_ref : PersonaReference
  pub action : RemediationActionDetail
  pub steps : List RemediationStep
  pub plan_summary : String
  pub explanation : String
  pub confidence : String
  pub rollback : Option RemediationRollbackSpec

pub record RemediationActionStatus : Type 0 where
  pub phase : Phase
  pub applied_at : Option ℕ
  pub verification_result : String
  pub conditions : List Condition

pub record RemediationAction : Type 0 where
  pub name : String
  pub namespace : String
  pub creation_timestamp : ℕ
  pub spec : RemediationActionSpec
  pub status : RemediationActionStatus
