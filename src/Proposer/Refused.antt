-- ===== src/Proposer/Refused.antt =====
-- internal/remediation/refused_values.go: what is taken out of the steps of a plan after its
-- guardrails ruled.
pub mod Laws
pub mod Patch
pub mod Plan
pub mod Prose
use Prim.Native.String
use dorgu_operator.Common.{
  ℕ, ◌+◌, String, Bool, true, false, ◌&&◌, ◌||◌, not, Option, none, some, List, [], ◌∷◌, ◌++◌,
  contains, ◌==◌, if◌then◌else◌,
}
use dorgu_operator.Json.{Raw}
use dorgu_operator.Api.{StepSafety, RemediationStep}
use dorgu_operator.Proposer.Mentions.{Reader, RefusedValue, offers_refused_value}
use dorgu_operator.Proposer.Refused.Patch.{prune_refused_leaves}
use dorgu_operator.Proposer.Refused.Prose.{append_note, redact_refused_prose}

-- A verdict that refuses what was requested.
abbrev pub is_refusal : StepSafety → Bool
is_refusal s =
    not (s.requested == "" || s.requested == s.permitted)
    && (s.verdict == "rejected" || s.verdict == "clamped")

abbrev pub refusal_key : StepSafety → String
refusal_key s = String.◌++◌ s.field (String.◌++◌ "=" s.requested)

abbrev pub refused_value : Reader → StepSafety → RefusedValue
refused_value r s = record {
  field = s.field;
  value = s.requested;
  quantity = r.parse_quantity s.requested;
}

-- The loop of refusedValues over verdicts, after the keys that were seen.
unfoldable pub refused_from : Reader → List String → List StepSafety → List RefusedValue
refused_from r seen [] = []
refused_from r seen (s ∷ ss) = elim (not (is_refusal s) || contains seen (refusal_key s)) [
  | true ↦ refused_from r seen ss
  | false ↦ refused_value r s ∷ refused_from r (refusal_key s ∷ seen) ss
]

unfoldable pub verdicts : List RemediationStep → List StepSafety
verdicts [] = []
verdicts (s ∷ ss) = s.safety ++ verdicts ss

-- refusedValues
unfoldable pub refused_values : Reader → List RemediationStep → List RefusedValue
unfolding refused_from verdicts
refused_values r steps = refused_from r [] (verdicts steps)

-- droppedCommandNote
abbrev pub dropped_command_note : String
dropped_command_note =
    "Dorgu removed the command this step suggested: it carried a value a guardrail refused, and pasting it would have applied exactly the change Dorgu declined to make. The persona-update step above applies what the guardrails permit."

-- stepSafetyMessages
unfoldable pub safety_messages : List StepSafety → List String
safety_messages [] = []
safety_messages (s ∷ ss) =
    let rest = safety_messages ss in if s.message == "" then rest else s.message ∷ rest

-- What a step is after a part of scrubStep, and how many of its texts that changed.
abbrev pub Scrubbed : Type 0
Scrubbed = RemediationStep × ℕ

abbrev pub with_patch : RemediationStep → Option (Option Raw) → Scrubbed
with_patch step none = (step, 0)
with_patch step (some none) = (record step { patch = none; auto_executable = false }, 1)
with_patch step (some (some pruned)) = (record step { patch = some pruned }, 1)

unfoldable pub pruned_patch : Reader → List RefusedValue → Option Raw → Option (Option Raw)
unfolding prune_refused_leaves
pruned_patch r refused none = none
pruned_patch r refused (some raw) = prune_refused_leaves r raw refused

unfoldable pub scrub_patch : Reader → List RefusedValue → RemediationStep → Scrubbed
unfolding pruned_patch
scrub_patch r refused step = with_patch step (pruned_patch r refused step.patch)

abbrev pub without_command : Reader → RemediationStep → RemediationStep
without_command r step = record step {
  command = "";
  description = append_note r step.description dropped_command_note;
}

abbrev pub drop_command : Reader → RemediationStep → Bool → Scrubbed
drop_command r step true = (without_command r step, 1)
drop_command r step false = (step, 0)

unfoldable pub scrub_command : Reader → List RefusedValue → RemediationStep → Scrubbed
unfolding offers_refused_value
scrub_command r refused step =
    drop_command r step (not (step.command == "") && offers_refused_value r step.command refused)

abbrev pub with_description : RemediationStep → Option String → Scrubbed
with_description step none = (step, 0)
with_description step (some text) = (record step { description = text }, 1)

unfoldable pub scrub_description : Reader → List RefusedValue → RemediationStep → Scrubbed
unfolding redact_refused_prose safety_messages
scrub_description r refused step =
    with_description step
      (redact_refused_prose r step.description (safety_messages step.safety) refused)

abbrev pub with_rationale : RemediationStep → Option String → Scrubbed
with_rationale step none = (step, 0)
with_rationale step (some text) = (record step { rationale = text }, 1)

unfoldable pub scrub_rationale : Reader → List RefusedValue → RemediationStep → Scrubbed
unfolding redact_refused_prose safety_messages
scrub_rationale r refused step =
    with_rationale step
      (redact_refused_prose r step.rationale (safety_messages step.safety) refused)

-- scrubStep
unfoldable pub scrub_step : Reader → List RefusedValue → RemediationStep → Scrubbed
unfolding scrub_patch scrub_command scrub_description scrub_rationale
scrub_step r refused step =
    let (one, m) = scrub_patch r refused step in
    let (two, n) = scrub_command r refused one in
    let (three, k) = scrub_description r refused two in
    let (four, l) = scrub_rationale r refused three in (four, m + n + k + l)

-- The loop over the steps in scrubRefusedValues.
unfoldable pub scrub_steps :
    Reader → List RefusedValue → List RemediationStep → List RemediationStep × ℕ
unfolding scrub_step
scrub_steps r refused [] = ([], 0)
scrub_steps r refused (s ∷ ss) =
    let (step, n) = scrub_step r refused s in
    let (rest, m) = scrub_steps r refused ss in (step ∷ rest, n + m)
