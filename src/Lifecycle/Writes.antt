-- ===== src/Lifecycle/Writes.antt =====
-- Which passes of the remediation controller write a persona.
use dorgu_operator.Common.{◌≡◌, ◌⊎◌, true, some, List, []}
use dorgu_operator.Api.{Phase, approved, verifying, RemediationAction}
use dorgu_operator.Executor.{ApplicationPersona, rollback_enabled}
use dorgu_operator.Executor.Effects.{IsApplicable}
use dorgu_operator.Steps.{has_auto_applicable_change}

-- What the executor and the rollback allow a pass to write, by the phase it started from.
abbrev pub MayWrite : RemediationAction → Phase → List ApplicationPersona → Type 0
MayWrite a p ps =
    (ps ≡ [])
    ⊎ ((p ≡ approved) × IsApplicable a × (has_auto_applicable_change (some a) ≡ true))
    ⊎ ((p ≡ verifying) × (rollback_enabled a.spec.rollback ≡ true))
