-- ===== src/Safety/Cooldown.antt =====
-- The remediation controller and the safety checker together: which failures start the cooldown.
use dorgu_operator.Common.{
  ℕ, any, ◌≡◌, refl, ap, ◌∙◌, true, false, none, some, List, [], ◌∷◌, eq_iff, arith,
}
use dorgu_operator.Api.{
  Error, precondition, about, approved, failed, is_false, Condition, RemediationAction,
}
use dorgu_operator.Conditions.{find_condition}
use dorgu_operator.Conditions.Laws.{set_condition_sets}
use dorgu_operator.Executor.{apply}
use dorgu_operator.Steps.{has_auto_applicable_change}
use dorgu_operator.Lifecycle.{reconcile, dispatch, reconcile-action}
use dorgu_operator.Lifecycle.Effects.{World}
use dorgu_operator.Lifecycle.Transitions.{settle, finish_pass, transition_to_failed_with_reason}
use dorgu_operator.Lifecycle.Handlers.{handle_approved}
use dorgu_operator.Safety.RateLimit.{cooling_down, rejected_before_apply, refused_by}

any-refused_by :
    (cs : List Condition) {c : Condition}
    → find_condition cs "Applied" ≡ some c
    → c.reason ≡ "PreconditionRejected"
    → any refused_by cs ≡ true
unfolding find_condition
any-refused_by [] h r = cc
any-refused_by (d ∷ cs) {c} h r =
    ground (arith, eq_iff c.reason "PreconditionRejected", any-refused_by cs {c = c})

-- What the controller makes of an action that the executor refuses on its preconditions.
abbrev refused : World → RemediationAction → Error → RemediationAction
refused w a e =
    settle w a failed "Applied" is_false "PreconditionRejected"
      (about "%v; nothing was applied" (precondition e))

handle_approved-refused :
    (w : World) (a : RemediationAction) {e : Error}
    → has_auto_applicable_change (some a) ≡ true
    → (apply w.server a).error ≡ some (precondition e)
    → (handle_approved w a).action ≡ refused w a e
unfolding handle_approved transition_to_failed_with_reason finish_pass
handle_approved-refused w a {e} auto h = ground arith

refused-rejected_before_apply :
    (w : World) (a : RemediationAction) (e : Error)
    → a.status.applied_at ≡ none
    → rejected_before_apply (refused w a e) ≡ true
unfolding rejected_before_apply
refused-rejected_before_apply w a e h =
    let (c, here, _, _, reason) =
      set_condition_sets w.now a.status.conditions "Applied" is_false "PreconditionRejected"
        (about "%v; nothing was applied" (precondition e)) in
    ground (arith, any-refused_by (refused w a e).status.conditions here reason)

-- A plan that the executor refuses before touching the cluster ends in Failed, and at no time does
-- it count as a failure for the cooldown.
pub refused-not-cooling :
    (w : World) (a : RemediationAction) (e : Error) (now : ℕ)
    → a.status.phase ≡ approved
    → a.status.applied_at ≡ none
    → has_auto_applicable_change (some a) ≡ true
    → (apply w.server a).error ≡ some (precondition e)
    → ((reconcile w a).action.status.phase ≡ failed)
      × (cooling_down now (reconcile w a).action ≡ false)
unfolding cooling_down dispatch
refused-not-cooling w a e now p t auto h =
    let same : (reconcile w a).action ≡ refused w a e =
      reconcile-action w a
      ∙ ap (λ s. (dispatch w s a).action) p
      ∙ handle_approved-refused w a auto h in
    rw same (refl, ground (arith, refused-rejected_before_apply w a e t))
