-- ===== src/Safety/Laws.antt =====
-- What the safety checker has established of an action that it allows.
use dorgu_operator.Common.{ℕ, String, List, ◌==◌, if◌then◌else◌}
use dorgu_operator.Api.{RemediationAction}
use dorgu_operator.Safety.Readings.{View, Quantities}
use dorgu_operator.Safety.Standing.{HasRoom, IsAlone, HasCooled}
use dorgu_operator.Safety.BlastRadius.Laws.{InRadius}
use dorgu_operator.Safety.DenyList.Laws.{IsCleared}

-- The namespace of the persona, or that of the action where the reference has none.
abbrev pub target_namespace : RemediationAction → String
target_namespace a =
    if a.spec.persona_ref.namespace == "" then a.namespace else a.spec.persona_ref.namespace

-- What all five checks have seen.
pub record IsSafe (protected : List String) (q : Quantities) (at : ℕ → View) (a : RemediationAction)
    : Type 0 where
  pub room : HasRoom (at 0) a
  pub alone : IsAlone (at 1) a
  pub cooled : HasCooled (at 2) a
  pub in_radius : InRadius q a
  pub permitted : IsCleared protected (at 3) (target_namespace a)
