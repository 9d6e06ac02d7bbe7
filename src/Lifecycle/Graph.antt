-- ===== src/Lifecycle/Graph.antt =====
-- The diagram of the phases, and that every pass of the controller follows it.
use dorgu_operator.Common.{◌≡◌, refl, sym, ◌⊎◌, inl, Bool, true, false, [], ◌∷◌, arith}
use dorgu_operator.Api.{
  Phase, approved, applying, verifying, completed, acknowledged, rolled_back, failed, rejected,
  expired, RemediationAction,
}
use dorgu_operator.Verifier.{VerificationResult, healthy, degraded, unknown, unexpected}
use dorgu_operator.Lifecycle.{dispatch, reconcile}
use dorgu_operator.Lifecycle.Effects.{World, recorded, stop, pass}
use dorgu_operator.Lifecycle.Transitions.{
  finish_pass, transition_to_acknowledged, transition_to_failed,
}
use dorgu_operator.Lifecycle.Handlers.{
  handle_approved, handle_applying, handle_verification_healthy, handle_verification_degraded,
  handle_verification_unknown, handle_result, handle_verifying,
}
use dorgu_operator.Lifecycle.Rejection.{record_rejection}

infix 40 ◌⟶◌
pub data ◌⟶◌ : Phase → Phase → Type 0 where
  acknowledge : approved ⟶ acknowledged
  apply : approved ⟶ applying
  refuse : approved ⟶ failed
  start : applying ⟶ verifying
  lose : applying ⟶ failed
  complete : verifying ⟶ completed
  roll_back : verifying ⟶ rolled_back
  give_up : verifying ⟶ failed

-- An edge of the diagram, or no move.
abbrev pub Moves : Phase → Phase → Type 0
Moves s t = (s ≡ t) ⊎ (s ⟶ t)

ruleset edges = (acknowledge, apply, refuse, start, lose, complete, roll_back, give_up)

handle_approved-Moves :
    (w : World) (a : RemediationAction) → Moves approved (handle_approved w a).action.status.phase
unfolding finish_pass handle_approved transition_to_acknowledged transition_to_failed
handle_approved-Moves w a = grind (arith, edges)

handle_applying-Moves :
    (w : World) (a : RemediationAction)
    → a.status.phase ≡ applying
    → Moves applying (handle_applying w a).action.status.phase
unfolding finish_pass handle_applying transition_to_failed
handle_applying-Moves w a h = grind (arith, edges)

handle_result-Moves :
    (w : World) (r : VerificationResult) (a : RemediationAction)
    → a.status.phase ≡ verifying
    → Moves verifying (handle_result w r a).action.status.phase
unfolding finish_pass handle_result handle_verification_healthy handle_verification_degraded
    handle_verification_unknown transition_to_failed
handle_result-Moves w healthy a h = grind (arith, edges)
handle_result-Moves w degraded a h = grind (arith, edges)
handle_result-Moves w unknown a h = grind (arith, edges)
handle_result-Moves w (unexpected s) a h = grind (arith, edges)

dispatch-Moves :
    (w : World) (p : Phase) (a : RemediationAction)
    → a.status.phase ≡ p
    → Moves p (dispatch w p a).action.status.phase
unfolding dispatch handle_verifying record_rejection
dispatch-Moves w approved a h = handle_approved-Moves w a
dispatch-Moves w applying a h = handle_applying-Moves w a h
dispatch-Moves w verifying a h = handle_result-Moves w _ _ h
dispatch-Moves w rejected a h = ground arith
dispatch-Moves w _ a h = inl (sym h)

-- Whatever a pass meets, an error included, the phase of the action that it leaves in memory is the
-- old one, or the end of an edge of the diagram.
pub reconcile-Moves :
    (w : World) (a : RemediationAction) → Moves a.status.phase (reconcile w a).action.status.phase
unfolding reconcile
reconcile-Moves w a = ground (arith, dispatch-Moves w a.status.phase a refl)

abbrev pub is_terminal : Phase → Bool
is_terminal completed = true
is_terminal acknowledged = true
is_terminal rolled_back = true
is_terminal failed = true
is_terminal expired = true
is_terminal _ = false

dispatch_terminal :
    (w : World) (p : Phase) (a : RemediationAction)
    → is_terminal p ≡ true
    → dispatch w p a ≡ pass a stop []
unfolding dispatch
dispatch_terminal w completed a h = refl
dispatch_terminal w acknowledged a h = refl
dispatch_terminal w rolled_back a h = refl
dispatch_terminal w failed a h = refl
dispatch_terminal w expired a h = refl
dispatch_terminal w _ a h = cc

-- In a terminal phase a pass changes nothing: it sends no request but the metric, does not requeue
-- and returns no error.
pub reconcile_terminal :
    (w : World) (a : RemediationAction)
    → is_terminal a.status.phase ≡ true
    → reconcile w a ≡ pass a stop (recorded a.status.phase a.status.phase ∷ [])
unfolding reconcile
reconcile_terminal w a h = rw (dispatch_terminal w a.status.phase a h) refl
