-- ===== src/Lifecycle/Transitions.antt =====
-- The transitions of the remediation controller that end in a settled phase.
use dorgu_operator.Common.{String, none, some, List, [], ◌∷◌, ◌++◌}
use dorgu_operator.Api.{
  Phase, ConditionStatus, wrap, Message, sprintf, acknowledged, failed, is_false, RemediationAction,
}
use dorgu_operator.Conditions.{set_condition}
use dorgu_operator.Lifecycle.Effects.{World, Request, status_update, stop, Pass, pass, failing}
use dorgu_operator.Lifecycle.Resolution.{update_incident_resolution, broadcast_remediation}

-- An action in another phase, with one condition set.
abbrev pub settle :
    World
    → RemediationAction
    → Phase
    → String
    → ConditionStatus
    → String
    → Message
    → RemediationAction
settle w a phase type status reason message = record a {
  status = record a.status {
    phase = phase;
    conditions = set_condition w.now a.status.conditions type status reason message;
  };
}

-- The status update, and what follows where the API server accepts it: a broadcast, and the
-- incident's resolution, whose errors are only logged.
unfoldable pub finish_pass :
    World → RemediationAction → String → String → String → List Request → Pass
finish_pass w a text event outcome sent = elim (w.update_status a) [
  | some e ↦ failing a (wrap text [] e) (sent ++ status_update a ∷ [])
  | none ↦ pass a stop (
      sent
      ++ status_update a
        ∷ (broadcast_remediation w a event ++ (update_incident_resolution w a outcome).requests))
]

abbrev advisory_message : Message
advisory_message =
    sprintf
      "Approval recorded. This plan has no auto-applicable step, so the operator changed nothing; the steps are for a human to apply."
      []

unfoldable pub transition_to_acknowledged : World → RemediationAction → Pass
transition_to_acknowledged w a =
    let a' = settle w a acknowledged "Applied" is_false "AdvisoryOnly" advisory_message in
    finish_pass w a' "updating status to Acknowledged: %w" "acknowledged" "acknowledged" []

-- transitionToFailedWithReason; `sent` are the requests sent before it.
unfoldable pub transition_to_failed_with_reason :
    World → RemediationAction → String → Message → List Request → Pass
transition_to_failed_with_reason w a condition_reason reason sent =
    let a' = settle w a failed "Applied" is_false condition_reason reason in
    finish_pass w a' "updating status to Failed: %w" "failed" "failed" sent

unfoldable pub transition_to_failed : World → RemediationAction → Message → List Request → Pass
unfolding transition_to_failed_with_reason
transition_to_failed w a reason sent = transition_to_failed_with_reason w a "Failed" reason sent
