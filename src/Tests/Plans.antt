-- ===== src/Tests/Plans.antt =====
-- The theorems on the executor, on plans, commands and conditions, at sample inputs.
use dorgu_operator.Common.{◌≡◌, ◌⊎◌, refl, none, some, [], ◌∷◌, All}
use dorgu_operator.Json.{null, str, Fields, end, field, get}
use dorgu_operator.Api.{sprintf, approved, is_true, Condition, RemediationAction}
use dorgu_operator.Conditions.Laws.{fresh}
use dorgu_operator.Executor.{ApplicationPersona, apply}
use dorgu_operator.Executor.Merge.{merge_maps}
use dorgu_operator.Executor.Laws.{merged, get-merge_maps}
use dorgu_operator.Executor.Effects.{IsApplicable, apply_updates_cases}
use dorgu_operator.Steps.{effective_steps, validate_auto_executable, offending}
use dorgu_operator.Steps.Laws.{WritesOnlyPersona, effective_steps-WritesOnlyPersona}
use dorgu_operator.Tests.{action_in, server}

abbrev fix : RemediationAction
fix = action_in approved none

abbrev limits : Fields
limits = field "cpu" null (field "memory" (str "2Gi") end)

get-merge_maps_example :
    get "cpu" (merge_maps (field "cpu" (str "1") end) limits)
    ≡ merged (get "cpu" (field "cpu" (str "1") end)) (get "cpu" limits)
unfolding get
get-merge_maps_example = get-merge_maps "cpu" (field "cpu" (str "1") end) limits (refl, (refl, tt))

apply_updates_cases_example :
    ((apply server fix).updates ≡ [])
    ⊎ ((p : ApplicationPersona) × ((apply server fix).updates ≡ p ∷ []) × IsApplicable fix)
apply_updates_cases_example = apply_updates_cases server fix

effective_steps-WritesOnlyPersona_example : All WritesOnlyPersona (effective_steps (some fix))
unfolding validate_auto_executable offending
effective_steps-WritesOnlyPersona_example = effective_steps-WritesOnlyPersona fix refl

abbrev seen : Condition
seen = fresh 7 "Applied" is_true "PatchApplied" (sprintf "done" [])
