-- ===== src/Proposer/Refused/Plan/Laws.antt =====
-- internal/remediation/refused_values.go: what scrubRefusedValues leaves of an action.
use dorgu_operator.Common.{ℕ, String, ◌≡◌, refl, sym, subst, List, [], ◌∷◌}
use dorgu_operator.Api.{RemediationAction}
use dorgu_operator.Proposer.Mentions.{Reader, RefusedValue}
use dorgu_operator.Proposer.Refused.{refused_values}
use dorgu_operator.Proposer.Refused.Laws.{AllScrubbed, scrub_steps-AreClear, scrubbed_unchanged}
use dorgu_operator.Proposer.Refused.Plan.{scrub_for, scrub_plan, scrub_refused_values}

-- The verdicts refuse what they refused before, and the steps are scrubbed of it.
abbrev pub AreClear : Reader → RemediationAction → RemediationAction → Type 0
AreClear r was now =
    (refused_values r now.spec.steps ≡ refused_values r was.spec.steps)
    × AllScrubbed r (refused_values r now.spec.steps) was.spec.steps now.spec.steps

scrub_plan-AreClear :
    (r : Reader) (decimal : ℕ → String) (a : RemediationAction)
    → AreClear r a (scrub_plan r decimal (refused_values r a.spec.steps) a).0
unfolding scrub_plan
scrub_plan-AreClear r decimal a = scrub_steps-AreClear r a.spec.steps

scrub_for-AreClear :
    (r : Reader) (decimal : ℕ → String) (a : RemediationAction) (refused : List RefusedValue)
    → refused_values r a.spec.steps ≡ refused
    → AreClear r a (scrub_for r decimal refused a).0
scrub_for-AreClear r decimal a [] eq = (
  refl,
  subst (λ vs. AllScrubbed r vs a.spec.steps a.spec.steps) (sym eq)
      (scrubbed_unchanged r a.spec.steps),
)
scrub_for-AreClear r decimal a (v ∷ vs) eq =
    subst (λ refused. AreClear r a (scrub_plan r decimal refused a).0) eq
      (scrub_plan-AreClear r decimal a)

-- After the scrub of an action, the verdicts on its steps refuse the same values as before, and no
-- step has a command that names one of them, wherever in the plan it was refused. Every step keeps
-- its verdicts and its state before the patch. A step that the operator is to apply was so before,
-- and is not without a patch that it had.
pub scrub_refused_values-AreClear :
    (r : Reader) (decimal : ℕ → String) (a : RemediationAction)
    → AreClear r a (scrub_refused_values r decimal a).0
unfolding scrub_refused_values
scrub_refused_values-AreClear r decimal a =
    scrub_for-AreClear r decimal a (refused_values r a.spec.steps) refl
