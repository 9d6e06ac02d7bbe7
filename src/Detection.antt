-- ===== src/Detection.antt =====
-- internal/detection/signals.go. A signal's numeric value and threshold, which nothing modelled
-- here reads, are left out. Severities and signal types are their texts.
pub mod Grouping
pub mod Correlator
use dorgu_operator.Common.{ℕ, String, Option, List, ◌==◌, if◌then◌else◌}
use dorgu_operator.Api.{PersonaReference}

pub record ResourceReference : Type 0 where
  pub kind : String
  pub name : String
  pub namespace : String

pub record Signal : Type 0 where
  pub type : String
  pub severity : String
  pub category : String
  pub source : String
  pub message : String
  pub resource : ResourceReference
  pub persona_ref : Option PersonaReference
  pub detected_at : ℕ
  pub metadata : List (String × String)

-- SeverityRank, one higher than in the source, so that the unrecognised severity's -1 is 0.
unfoldable pub severity_rank : String → ℕ
severity_rank s =
    if s == "critical" then 3 else if s == "warning" then 2 else if s == "info" then 1 else 0
