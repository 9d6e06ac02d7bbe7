-- ===== src/Events.antt =====
-- internal/events/types.go and api/v1/dorguevent_types.go: an event in the pipeline, and its record
-- in the cluster. The raw Kubernetes event, which nothing modelled here reads, is left out.
pub mod Names
pub mod Store
use dorgu_operator.Common.{ℕ, String, Option}
use dorgu_operator.Api.{PersonaReference}
use dorgu_operator.Detection.{ResourceReference}

pub record InternalEvent : Type 0 where
  pub id : String
  pub severity : String
  pub category : String
  pub source : String
  pub reason : String
  pub message : String
  pub involved_object : ResourceReference
  pub persona_ref : Option PersonaReference
  pub event_time : ℕ
  pub k8s_event_uid : String

pub record DorguEvent : Type 0 where
  pub name : String
  pub namespace : String
  pub severity : String
  pub category : String
  pub source : String
  pub message : String
  pub involved_object : ResourceReference
  pub persona_ref : Option PersonaReference
  pub event_time : ℕ
  pub k8s_event_ref : String
  pub ttl : Option ℕ
