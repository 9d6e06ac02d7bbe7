-- ===== src/Diagnosis.antt =====
-- internal/diagnosis/types.go: a diagnosis, as far as the modelled code reads it.
pub mod Gate
pub mod Engine
use dorgu_operator.Common.{ℕ, String, Option, List, [], ◌∷◌}
use dorgu_operator.Api.{PersonaReference}
use dorgu_operator.Detection.{ResourceReference, Signal}

pub record ContributingSignal : Type 0 where
  pub signal : Signal
  pub detail : String

-- The time of the diagnosis, which nothing modelled here reads, is left out. The confidence is a
-- float64 that is not below zero and stands as its bits, whose order is that of the numbers.
pub record Diagnosis : Type 0 where
  pub summary : String
  pub confidence : ℕ
  pub provider : String
  pub category : String
  pub severity : String
  pub persona_ref : Option PersonaReference
  pub affected_resources : List ResourceReference
  pub contributing : List ContributingSignal
  pub suggested_action : String

-- primarySignalType of internal/controller/healthcheck_reconciler.go.
unfoldable pub primary_signal_type : Diagnosis → String
primary_signal_type d = elim d.contributing [ [] ↦ "Unknown" | c ∷ _ ↦ c.signal.type ]
