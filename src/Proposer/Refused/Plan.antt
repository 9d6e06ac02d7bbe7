-- ===== src/Proposer/Refused/Plan.antt =====
-- internal/remediation/refused_values.go: scrubRefusedValues, with planExplanation and pluralSteps
-- of proposer_ai.go. `decimal` is how fmt writes a number.
pub mod Laws
use Prim.Native.String
use dorgu_operator.Common.{
  ℕ, ◌+◌, ◌-◌, String, Option, none, some, List, [], ◌∷◌, eqb, ◌==◌, if◌then◌else◌,
}
use dorgu_operator.Json.{Raw}
use dorgu_operator.Api.{RemediationActionDetail, RemediationStep, RemediationAction}
use dorgu_operator.Proposer.Mentions.{Reader, RefusedValue, after_prefix}
use dorgu_operator.Proposer.Refused.{
  refused_values, verdicts, safety_messages, pruned_patch, scrub_steps,
}
use dorgu_operator.Proposer.Refused.Prose.{redact_refused_prose}

unfoldable pub count_steps : List RemediationStep → ℕ
count_steps [] = 0
count_steps (s ∷ ss) = 1 + count_steps ss

-- The steps that are applied on approval.
unfoldable pub count_auto : List RemediationStep → ℕ
count_auto [] = 0
count_auto (s ∷ ss) = let rest = count_auto ss in if s.auto_executable then 1 + rest else rest

-- pluralSteps
abbrev pub plural_steps : (ℕ → String) → ℕ → String
plural_steps decimal n = if eqb n 1 then "1 step" else String.◌++◌ (decimal n) " steps"

-- planExplanation
unfoldable pub plan_explanation : (ℕ → String) → List RemediationStep → String
unfolding count_steps count_auto
plan_explanation decimal steps =
    let auto = count_auto steps in
    let advisory = count_steps steps - auto in
    let plan = String.◌++◌ "AI remediation plan: " (plural_steps decimal (count_steps steps)) in
    if eqb (count_steps steps) 0
    then "AI remediation plan with no steps"
    else if eqb auto 0
    then String.◌++◌ plan ", all advisory (nothing is applied for you)"
    else if eqb advisory 0
    then String.◌++◌ plan ", applied on approval"
    else String.◌++◌ plan (
        String.◌++◌ ", " (
          String.◌++◌ (decimal auto)
            (String.◌++◌ " applied on approval and " (String.◌++◌ (decimal advisory) " advisory"))))

-- The legacy action after the pruning, and how many texts that changed.
abbrev pub with_legacy_patch :
    RemediationActionDetail → Option (Option Raw) → RemediationActionDetail × ℕ
with_legacy_patch d none = (d, 0)
with_legacy_patch d (some none) =
    (record { type = "notification"; patch = none; pre_patch_state = none }, 1)
with_legacy_patch d (some (some pruned)) = (record d { patch = some pruned }, 1)

abbrev pub redacted : String → Option String → String × ℕ
redacted text none = (text, 0)
redacted text (some kept) = (kept, 1)

-- What the explanation says of the steps is brought up to date where it begins with it.
unfoldable pub refreshed_explanation : String → String → String → String
unfolding after_prefix
refreshed_explanation before after explanation =
    if after == before then explanation else elim (after_prefix explanation before) [
      | none ↦ explanation
      | some rest ↦ String.◌++◌ after rest
    ]

unfoldable pub scrub_plan :
    Reader → (ℕ → String) → List RefusedValue → RemediationAction → RemediationAction × ℕ
unfolding scrub_steps pruned_patch redact_refused_prose safety_messages verdicts plan_explanation
    refreshed_explanation
scrub_plan r decimal refused a =
    let (steps, n) = scrub_steps r refused a.spec.steps in
    let (legacy, m) =
      with_legacy_patch a.spec.action (pruned_patch r refused a.spec.action.patch) in
    let messages = safety_messages (verdicts steps) in
    let (summary, k) =
      redacted a.spec.plan_summary (redact_refused_prose r a.spec.plan_summary messages refused) in
    let (told, l) =
      redacted a.spec.explanation (redact_refused_prose r a.spec.explanation messages refused) in
    (
      record a {
        spec = record a.spec {
          steps = steps;
          action = legacy;
          plan_summary = summary;
          explanation =
              refreshed_explanation (plan_explanation decimal a.spec.steps)
                (plan_explanation decimal steps) told;
        };
      },
      n + m + k + l,
    )

abbrev pub scrub_for :
    Reader → (ℕ → String) → List RefusedValue → RemediationAction → RemediationAction × ℕ
scrub_for r decimal [] a = (a, 0)
scrub_for r decimal (v ∷ vs) a = scrub_plan r decimal (v ∷ vs) a

-- scrubRefusedValues, of an action
unfoldable pub scrub_refused_values :
    Reader → (ℕ → String) → RemediationAction → RemediationAction × ℕ
unfolding refused_values scrub_plan
scrub_refused_values r decimal a = scrub_for r decimal (refused_values r a.spec.steps) a
