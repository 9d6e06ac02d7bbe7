-- ===== src/Steps.antt =====
-- api/v1/remediationaction_steps.go: reading a plan as steps, and what of it the operator may apply.
pub mod Laws
pub mod Command
use Prim.Native.String.{len}
use dorgu_operator.Common.{
  ℕ, String, Bool, true, false, ◌&&◌, ◌||◌, not, Option, none, some, List, [], ◌∷◌, ◌==◌,
  if◌then◌else◌, ltb, any,
}
use dorgu_operator.Common.Text.{trim_space, has_prefix, contains_any}
use dorgu_operator.Json.{Raw, is_empty}
use dorgu_operator.Api.{word, num, Error, errorf, RemediationStep, RemediationAction}

unfoldable pub has_patch : Option Raw → Bool
unfolding is_empty
has_patch none = false
has_patch (some r) = not (is_empty r)

abbrev pub auto_applicable : RemediationStep → Bool
auto_applicable s = s.auto_executable && s.type == "persona-update" && has_patch s.patch

abbrev pub nonempty {ℓ} : {A : Type ℓ} → List A → Bool
nonempty [] = false
nonempty (_ ∷ _) = true

-- (r *RemediationAction) HasAutoApplicableChange; `none` is a nil action.
unfoldable pub has_auto_applicable_change : Option RemediationAction → Bool
unfolding has_patch
has_auto_applicable_change none = false
has_auto_applicable_change (some a) =
    if any auto_applicable a.spec.steps
    then true
    else if nonempty a.spec.steps
    then false
    else a.spec.action.type == "persona-update" && has_patch a.spec.action.patch

unfoldable pub legacy_action_step_type : String → String
legacy_action_step_type type = if type == "persona-update" then "persona-update" else "manual"

-- The step that EffectiveSteps makes of the legacy action.
unfoldable pub legacy_steps : RemediationAction → List RemediationStep
unfolding legacy_action_step_type
legacy_steps a =
    if a.spec.action.type == ""
    then []
    else record {
      order = 1;
      id = "legacy-action";
      type = legacy_action_step_type a.spec.action.type;
      description = a.spec.explanation;
      rationale = "";
      risk = "";
      auto_executable = a.spec.action.type == "persona-update";
      command = "";
      patch = a.spec.action.patch;
      pre_patch_state = a.spec.action.pre_patch_state;
      safety = [];
    }
      ∷ []

-- (r *RemediationAction) EffectiveSteps. The values of the model are never shared, so a deep copy
-- is the value itself.
unfoldable pub effective_steps : Option RemediationAction → List RemediationStep
unfolding legacy_steps
effective_steps none = []
effective_steps (some a) = if nonempty a.spec.steps then a.spec.steps else legacy_steps a

abbrev pub max_step_command_length : ℕ
max_step_command_length = 1024

abbrev pub step_command_prefix : String
step_command_prefix = "kubectl "

-- ";&|<>`$" and the two line breaks.
abbrev pub step_command_forbidden : String
step_command_forbidden = ";&|<>`$\n\r"

unfoldable pub sanitize_step_command : String → String
sanitize_step_command cmd =
    let trimmed = trim_space cmd in
    if trimmed == ""
    then ""
    else if ltb max_step_command_length (len trimmed)
    then ""
    else if not (has_prefix trimmed step_command_prefix)
    then ""
    else if contains_any trimmed step_command_forbidden
    then ""
    else trimmed

-- The error of a step that claims to be auto-executable and is no persona-update.
abbrev step_error : RemediationStep → Error
step_error s =
    errorf "step %d (id=%q, type=%q) is autoExecutable but only %q steps may be auto-executed"
      (num s.order ∷ word s.id ∷ word s.type ∷ word "persona-update" ∷ [])

abbrev offends : RemediationStep → Bool
offends s = s.auto_executable && not (s.type == "persona-update")

unfoldable pub offending : List RemediationStep → List Error
offending [] = []
offending (s ∷ ss) = let rest = offending ss in if offends s then step_error s ∷ rest else rest

-- (r *RemediationAction) ValidateAutoExecutable: the errors that it joins, none for nil.
unfoldable pub validate_auto_executable : Option RemediationAction → List Error
unfolding offending
validate_auto_executable none = []
validate_auto_executable (some a) = offending a.spec.steps
