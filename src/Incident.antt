-- ===== src/Incident.antt =====
-- api/v1/incidentmemory_types.go: what the modelled controllers read and write of an IncidentMemory.
pub mod Recovery
pub mod Clearing
pub mod Subject
pub mod Names
pub mod Diagnosed
pub mod Access
pub mod Reports
pub mod Writes
pub mod Filing
pub mod Closing
pub mod Cycle
pub mod Stamps
pub mod Controller
use dorgu_operator.Common.{ℕ, String, Option, List}
use dorgu_operator.Api.{PersonaReference, Condition}
use dorgu_operator.Detection.{ResourceReference}

pub record RemediationReference : Type 0 where
  pub name : String
  pub namespace : String

pub record ResolutionInfo : Type 0 where
  pub action : String
  pub remediation_ref : Option RemediationReference
  pub applied_at : Option ℕ
  pub outcome : String
  pub duration : Option ℕ

-- A contributing signal, by its name and its detail.
pub record SignalNote : Type 0 where
  pub signal : String
  pub detail : String

pub record RootCauseInfo : Type 0 where
  pub summary : String
  pub confidence : String
  pub provider : String
  pub contributing : List SignalNote

pub record DetectionInfo : Type 0 where
  pub signal : String
  pub source : String
  pub first_seen : ℕ
  pub last_seen : ℕ
  pub affected_resources : List ResourceReference

pub record IncidentMemorySpec : Type 0 where
  pub persona_ref : PersonaReference
  pub attribution : String
  pub category : String
  pub severity : String
  pub detection : DetectionInfo
  pub root_cause : Option RootCauseInfo
  pub resolution : Option ResolutionInfo

-- A nil map of labels is the empty list, as every reader treats it. The phase and what follows it are
-- the status; a count below zero, which every reader treats as small, is 0.
pub record IncidentMemory : Type 0 where
  pub name : String
  pub namespace : String
  pub labels : List (String × String)
  pub spec : IncidentMemorySpec
  pub phase : String
  pub occurrence_count : ℕ
  pub last_occurrence : Option ℕ
  pub conditions : List Condition
