-- ===== src/Lifecycle/Follows.antt =====
-- The phases that the requests of a pass write: each is the end of an edge of the diagram.
use dorgu_operator.Common.{
  leb, ◌≡◌, refl, sym, inl, inr, some, [], map, All, All-append, arith, Option-cases, Bool-cases,
}
use dorgu_operator.Api.{sprintf, Phase, approved, applying, verifying, rejected, RemediationAction}
use dorgu_operator.Executor.{apply, execute_rollback}
use dorgu_operator.Steps.{has_auto_applicable_change}
use dorgu_operator.Verifier.{VerificationResult, healthy, degraded, unknown, unexpected}
use dorgu_operator.Lifecycle.{dispatch, reconcile}
use dorgu_operator.Lifecycle.Effects.{World, persona_update}
use dorgu_operator.Lifecycle.Transitions.{transition_to_acknowledged, transition_to_failed}
use dorgu_operator.Lifecycle.Handlers.{
  max_unknown_retries, retry_count_of, retry_pass, applied, as_precondition, handle_approved,
  handle_applying, handle_verification_healthy, handle_verification_degraded,
  handle_verification_unknown, handle_result, handle_verifying,
}
use dorgu_operator.Lifecycle.Requests.{IsRetrying}
use dorgu_operator.Lifecycle.Graph.{
  Moves, reconcile-Moves, acknowledge, apply as apply_edge, refuse, start, lose, complete,
  roll_back, give_up,
}
use dorgu_operator.Lifecycle.Statuses.{
  Follows, personas_follow, broadcast_follow, finish_follow, failed_follow, rejected_follow,
}

module _ (w : World) (retrying : IsRetrying w) where
  approved_follow : (a : RemediationAction) → All (Follows approved) (handle_approved w a).requests
  unfolding handle_approved transition_to_failed transition_to_acknowledged
  approved_follow a = elim (Bool-cases (has_auto_applicable_change (some a))) [
    | inr advisory ↦
        rw (advisory, handle_approved)
          (finish_follow w retrying approved _ _ _ _ [] (inr acknowledge) tt)
    | inl auto ↦
        let sent = map persona_update (apply w.server a).updates in
        let before = personas_follow approved (apply w.server a).updates in
        elim (Option-cases (apply w.server a).error) [
          | inr (e, failure) ↦ elim (Bool-cases (as_precondition e)) [
            | inl early ↦
                rw (auto, failure, early, handle_approved)
                  (failed_follow w retrying approved a _ _ sent (inr refuse) before)
            | inr late ↦
                rw (auto, failure, late, handle_approved)
                  (failed_follow w retrying approved a _ _ sent (inr refuse) before)
          ]
          | inl fine ↦ elim (Option-cases (w.update_status (applied w a))) [
            | inl accepted ↦
                rw (auto, fine, accepted, handle_approved)
                  (All-append (Follows approved) sent _ before
                    (inr apply_edge, broadcast_follow approved w (applied w a) "approved"))
            | inr (e, refused) ↦
                rw (auto, fine, refused, handle_approved)
                  (All-append (Follows approved) sent _ before (inr apply_edge, tt))
          ]
        ]
  ]

  applying_follow : (a : RemediationAction) → All (Follows applying) (handle_applying w a).requests
  unfolding handle_applying transition_to_failed
  applying_follow a =
      let lost =
        failed_follow w retrying applying a "Failed"
          (sprintf "AppliedAt is nil in Applying phase" []) [] (inr lose) tt in
      let moved : Moves applying verifying = inr start in ground (arith, lost, moved)

  healthy_follow :
      (a : RemediationAction) → All (Follows verifying) (handle_verification_healthy w a).requests
  unfolding handle_verification_healthy
  healthy_follow a = finish_follow w retrying verifying _ _ _ _ [] (inr complete) tt

  degraded_follow :
      (a : RemediationAction) → All (Follows verifying) (handle_verification_degraded w a).requests
  unfolding handle_verification_degraded transition_to_failed
  degraded_follow a =
      let sent = map persona_update (execute_rollback w.server a).updates in
      let before = personas_follow verifying (execute_rollback w.server a).updates in
      elim (Option-cases (execute_rollback w.server a).error) [
        | inr (e, failure) ↦
            rw (failure, handle_verification_degraded)
              (failed_follow w retrying verifying a _ _ sent (inr give_up) before)
        | inl fine ↦
            rw (fine, handle_verification_degraded)
              (finish_follow w retrying verifying _ _ _ _ sent (inr roll_back) before)
      ]

  retry_pass_follow :
      (a : RemediationAction)
      → a.status.phase ≡ verifying
      → All (Follows verifying) (retry_pass w a (retry_count_of a.status.conditions)).requests
  retry_pass_follow a h =
      let stays : Moves verifying a.status.phase = inl (sym h) in ground (arith, stays)

  unknown_follow :
      (a : RemediationAction)
      → a.status.phase ≡ verifying
      → All (Follows verifying) (handle_verification_unknown w a).requests
  unfolding handle_verification_unknown transition_to_failed
  unknown_follow a h =
      let lost =
        failed_follow w retrying verifying a "Failed"
          (sprintf "verification returned Unknown after max retries" []) [] (inr give_up) tt in
      elim (Bool-cases (leb max_unknown_retries (retry_count_of a.status.conditions))) [
        | inl over ↦ rw (over, handle_verification_unknown) lost
        | inr again ↦ rw (again, handle_verification_unknown) (retry_pass_follow a h)
      ]

  result_follow :
      (r : VerificationResult) (a : RemediationAction)
      → a.status.phase ≡ verifying
      → All (Follows verifying) (handle_result w r a).requests
  unfolding handle_result transition_to_failed
  result_follow healthy a h = healthy_follow a
  result_follow degraded a h = degraded_follow a
  result_follow unknown a h = unknown_follow a h
  result_follow (unexpected s) a h = failed_follow w retrying verifying a _ _ [] (inr give_up) tt

  dispatch_follow :
      (p : Phase) (a : RemediationAction)
      → a.status.phase ≡ p
      → All (Follows p) (dispatch w p a).requests
  unfolding dispatch handle_verifying
  dispatch_follow approved a h = approved_follow a
  dispatch_follow applying a h = applying_follow a
  dispatch_follow verifying a h = result_follow _ _ h
  dispatch_follow rejected a h = rejected_follow w retrying rejected a refl
  dispatch_follow _ a h = tt

-- Whatever a pass meets, an error included, the action that it leaves in memory and every status of an
-- action that it sends are in the old phase, or at the end of an edge of the diagram. `IsRetrying`
-- is the documented behaviour of RetryOnConflict.
pub reconcile-Follows :
    (w : World) (a : RemediationAction)
    → IsRetrying w
    → Moves a.status.phase (reconcile w a).action.status.phase
      × All (Follows a.status.phase) (reconcile w a).requests
unfolding reconcile
reconcile-Follows w a retrying = (
  reconcile-Moves w a,
  elim (Option-cases (dispatch w a.status.phase a).error) [
    | inl fine ↦ rw (fine) (
        All-append (Follows a.status.phase) (dispatch w a.status.phase a).requests _
          (dispatch_follow w retrying a.status.phase a refl) (tt, tt))
    | inr (e, failure) ↦ rw (failure) (dispatch_follow w retrying a.status.phase a refl)
  ],
)
