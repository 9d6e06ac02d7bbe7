-- ===== src/Tests/Lifecycle.antt =====
-- The theorems on the phases of a remediation, at a sample action.
use dorgu_operator.Common.{◌≡◌, refl, ◌⊎◌, ◌↔◌, All, none, some, [], ◌∷◌}
use dorgu_operator.Api.{errorf, approved, verifying, RemediationAction}
use dorgu_operator.Executor.{
  apply, validate_preconditions, get_target_persona, apply_patch, apply_to, found,
}
use dorgu_operator.Executor.Merge.{merge_maps}
use dorgu_operator.Json.{get, put, unmarshal_object, is_empty}
use dorgu_operator.Steps.{has_patch, has_auto_applicable_change}
use dorgu_operator.Conditions.{find_condition}
use dorgu_operator.Verifier.{healthy, degraded, verify}
use dorgu_operator.Verifier.Laws.{IsHarmless, verify_iff}
use dorgu_operator.Lifecycle.{reconcile}
use dorgu_operator.Lifecycle.Graph.{Moves}
use dorgu_operator.Lifecycle.Statuses.{Follows}
use dorgu_operator.Lifecycle.Follows.{reconcile-Follows}
use dorgu_operator.Lifecycle.Retry.{run, run_blind-verifying}
use dorgu_operator.Tests.{action_in, incident, signal, calm, blind}

executor : Unit {0}
unfolding apply validate_preconditions is_empty unmarshal_object get_target_persona apply_to
    apply_patch get put merge_maps has_patch has_auto_applicable_change
executor = tt

abbrev ready : RemediationAction
ready = action_in approved none

reconcile-Follows_example :
    Moves approved (reconcile (calm 100) ready).action.status.phase
    × All (Follows approved) (reconcile (calm 100) ready).requests
reconcile-Follows_example = reconcile-Follows (calm 100) ready (λ f. (0, refl))

run_blind-verifying_example :
    (run
      (blind 200 ∷ blind 300 ∷ blind 400 ∷ blind 500 ∷ [])
      (action_in verifying (some 50))).status.phase
    ≡ verifying
unfolding find_condition
run_blind-verifying_example =
    let unread = errorf "timeout" [] in
    run_blind-verifying (blind 200 ∷ blind 300 ∷ blind 400 ∷ blind 500 ∷ [])
      (action_in verifying (some 50)) refl refl
      (
        (unread, (λ ns n. refl), λ b. refl),
        (
          (unread, (λ ns n. refl), λ b. refl),
          ((unread, (λ ns n. refl), λ b. refl), ((unread, (λ ns n. refl), λ b. refl), tt)),
        ),
      )

-- An action with no state to go back to.
abbrev without_undo : RemediationAction
without_undo = record ready {
  spec = record ready.spec { action = record ready.spec.action { pre_patch_state = none } };
}

verify_iff_example :
    ((verify (found (signal "OOMKilled" "other" ∷ [])) (λ ns n. found incident) ready
        ≡ (healthy, none))
      ↔ All (IsHarmless "OOMKilled" ready.spec.persona_ref) (signal "OOMKilled" "other" ∷ []))
    × ((verify (found (signal "OOMKilled" "other" ∷ [])) (λ ns n. found incident) ready
          ≡ (healthy, none))
        ⊎ (verify (found (signal "OOMKilled" "other" ∷ [])) (λ ns n. found incident) ready
            ≡ (degraded, none)))
verify_iff_example =
    verify_iff (signal "OOMKilled" "other" ∷ []) (λ ns n. found incident) ready incident refl
