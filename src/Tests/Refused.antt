-- ===== src/Tests/Refused.antt =====
-- Runs of the scrub of refused values of internal/remediation/refused_values.go.
use Prim.Native.Char.{code}
use dorgu_operator.Common.{
  String, true, false, ◌&&◌, ◌||◌, ◌≡◌, ◌↔◌, refl, none, some, List, [], ◌∷◌, leb, ◌==◌,
  if◌then◌else◌,
}
use dorgu_operator.Common.Int.{pos}
use dorgu_operator.Api.{pending, StepSafety, RemediationStep, RemediationAction}
use dorgu_operator.Proposer.Mentions.{Reader, contains_token}
use dorgu_operator.Proposer.Mentions.Laws.{IsToken, contains_token_iff}
use dorgu_operator.Proposer.Refused.{dropped_command_note}
use dorgu_operator.Proposer.Refused.Prose.{append_note}
use dorgu_operator.Proposer.Refused.Plan.{scrub_refused_values}
use dorgu_operator.Proposer.Refused.Plan.Laws.{AreClear, scrub_refused_values-AreClear}
use dorgu_operator.Tests.{action_in}

abbrev ascii : Reader
ascii = record {
  parse_quantity = λ s. if s == "512Mi" || s == "536870912" then some (pos 536870912) else none;
  is_letter = λ c. (leb 65 (code c) && leb (code c) 90) || (leb 97 (code c) && leb (code c) 122);
  is_digit = λ c. leb 48 (code c) && leb (code c) 57;
}

abbrev refusal : StepSafety
refusal = record {
  rule = "blast-radius";
  verdict = "clamped";
  field = "spec.resources.limits.memory";
  requested = "512Mi";
  permitted = "16Mi";
  message = "512Mi was reduced to 16Mi";
}

abbrev update : RemediationStep
update = record {
  order = 1;
  id = "persona";
  type = "persona-update";
  description = "Raise the memory to 512Mi. It was killed.";
  rationale = "";
  risk = "low";
  auto_executable = true;
  command = "";
  patch = none;
  pre_patch_state = none;
  safety = refusal ∷ [];
}

abbrev paste : String → RemediationStep
paste command = record update {
  order = 2;
  type = "workload-apply";
  description = "";
  auto_executable = false;
  command = command;
  safety = [];
}

contains_token_iff_example :
    contains_token "--limits=memory=512Mi -n" "512Mi" ≡ true
    ↔ IsToken none "--limits=memory=512Mi -n" "512Mi"
contains_token_iff_example = contains_token_iff "--limits=memory=512Mi -n" "512Mi"

abbrev texts : List RemediationStep → List (String × String)
texts [] = []
texts (s ∷ ss) = (s.description, s.command) ∷ texts ss

abbrev plan : String → RemediationAction
plan command =
    let a = action_in pending none in
    record a { spec = record a.spec { steps = update ∷ paste command ∷ [] } }

scrub_refused_values-AreClear_example :
    AreClear ascii
      (plan "kubectl set resources --limits=memory=536870912")
      (scrub_refused_values ascii
        (λ n. "2")
        (plan "kubectl set resources --limits=memory=536870912")).0
scrub_refused_values-AreClear_example =
    scrub_refused_values-AreClear ascii (λ n. "2")
      (plan "kubectl set resources --limits=memory=536870912")

scrubbed_other_notation :
    texts
      (scrub_refused_values ascii
        (λ n. "2")
        (plan "kubectl set resources --limits=memory=536870912")).0.spec.steps
    ≡ ("It was killed.", "") ∷ (dropped_command_note, "") ∷ []
unfolding scrub_refused_values append_note
scrubbed_other_notation = refl

scrubbed_longer_number :
    texts
      (scrub_refused_values ascii (λ n. "2") (plan "kubectl scale --replicas=1512Mi")).0.spec.steps
    ≡ ("It was killed.", "") ∷ ("", "kubectl scale --replicas=1512Mi") ∷ []
unfolding scrub_refused_values append_note
scrubbed_longer_number = refl
