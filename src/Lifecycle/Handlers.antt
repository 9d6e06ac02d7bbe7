-- ===== src/Lifecycle/Handlers.antt =====
-- The handlers of the phases in which the remediation controller acts.
use dorgu_operator.Common.{
  ℕ, ◌+◌, ◌-◌, ◌*◌, Bool, true, false, Option, none, some, List, [], ◌∷◌, ◌++◌, map, ◌==◌,
  if◌then◌else◌, ltb, leb, not, ◌&&◌,
}
use dorgu_operator.Api.{
  word, Error, errorf, wrap, precondition, Message, sprintf, retry_message, about, applying,
  verifying, completed, rolled_back, is_true, is_false, Condition, RemediationRollbackSpec,
  RemediationAction,
}
use dorgu_operator.Conditions.{set_condition}
use dorgu_operator.Executor.{apply, execute_rollback}
use dorgu_operator.Steps.{has_auto_applicable_change}
use dorgu_operator.Verifier.{
  VerificationResult, healthy, degraded, unknown, unexpected, result_text, verify,
}
use dorgu_operator.Lifecycle.Effects.{
  World, persona_update, status_update, requeue_after, requeue_now, Pass, pass, failing,
}
use dorgu_operator.Lifecycle.Resolution.{broadcast_remediation}
use dorgu_operator.Lifecycle.Transitions.{
  settle, finish_pass, transition_to_acknowledged, transition_to_failed_with_reason,
  transition_to_failed,
}

abbrev pub minute : ℕ
minute = 60 * 1000000000

abbrev pub default_verification_wait : ℕ
default_verification_wait = 10 * minute

abbrev pub max_unknown_retries : ℕ
max_unknown_retries = 2

abbrev delay_of : Option RemediationRollbackSpec → ℕ
delay_of none = default_verification_wait
delay_of (some r) = elim r.health_check_after [ none ↦ default_verification_wait | some d ↦ d ]

unfoldable pub get_verification_delay : RemediationAction → ℕ
get_verification_delay a = delay_of a.spec.rollback

-- errors.As(err, &precondition)
abbrev pub as_precondition : Error → Bool
as_precondition (errorf _ _) = false
as_precondition (wrap _ _ e) = as_precondition e
as_precondition (precondition _) = true

abbrev pub applied : World → RemediationAction → RemediationAction
applied w a = record a {
  status = record a.status {
    phase = applying;
    applied_at = some w.now;
    conditions =
        set_condition w.now a.status.conditions "Applied" is_true "PatchApplied"
          (sprintf "Remediation patch applied to ApplicationPersona" []);
  };
}

unfoldable pub handle_approved : World → RemediationAction → Pass
handle_approved w a =
    let done = apply w.server a in
    let sent = map persona_update done.updates in
    if not (has_auto_applicable_change (some a))
    then transition_to_acknowledged w a
    else elim done.error [
      | some e ↦
          if as_precondition e
          then transition_to_failed_with_reason w a "PreconditionRejected"
              (about "%v; nothing was applied" e) sent
          else transition_to_failed w a (about "apply failed: %v" e) sent
      | none ↦
          (let a' = applied w a in
            elim (w.update_status a') [
              | some e ↦
                  failing a' (wrap "updating status to Applying: %w" [] e)
                    (sent ++ status_update a' ∷ [])
              | none ↦
                  pass a' (requeue_after (get_verification_delay a'))
                    (sent ++ status_update a' ∷ broadcast_remediation w a' "approved")
            ])
    ]

-- elapsed < delay is read as now < applied_at + delay.
unfoldable pub handle_applying : World → RemediationAction → Pass
handle_applying w a = elim a.status.applied_at [
  | none ↦ transition_to_failed w a (sprintf "AppliedAt is nil in Applying phase" []) []
  | some applied_at ↦
      if ltb w.now (applied_at + get_verification_delay a)
      then pass a (requeue_after (applied_at + get_verification_delay a - w.now)) []
      else (let a' = record a { status = record a.status { phase = verifying } } in
          elim (w.update_status a') [
            | some e ↦
                failing a' (wrap "updating status to Verifying: %w" [] e) (status_update a' ∷ [])
            | none ↦ pass a' requeue_now (status_update a' ∷ [])
          ])
]

unfoldable pub handle_verification_healthy : World → RemediationAction → Pass
handle_verification_healthy w a =
    let a' =
      settle w a completed "Verified" is_true "HealthRestored"
        (sprintf "Verification confirmed health restored" []) in
    finish_pass w a' "updating status to Completed: %w" "completed" "resolved" []

-- recordRollbackScope
abbrev pub record_rollback_scope : World → RemediationAction → RemediationAction
record_rollback_scope w a =
    let outcome = w.inspect_rollback a in
    record a {
      status = record a.status {
        conditions =
            set_condition w.now a.status.conditions "WorkloadDiverged" outcome.status outcome.reason
              outcome.message;
      };
    }

unfoldable pub handle_verification_degraded : World → RemediationAction → Pass
handle_verification_degraded w a =
    let done = execute_rollback w.server a in
    let sent = map persona_update done.updates in
    elim done.error [
      | some e ↦ transition_to_failed w a (about "rollback failed: %v" e) sent
      | none ↦
          (let a' = record_rollback_scope w (
              settle w a rolled_back "RolledBack" is_true "HealthDegraded"
                (sprintf "Remediation rolled back due to degraded health" [])) in
            finish_pass w a' "updating status to RolledBack: %w" "rolledback" "rollback" sent)
    ]

abbrev scan_retry : Message → Option ℕ
scan_retry (retry_message attempt _) = some attempt
scan_retry _ = none

-- getRetryCount: fmt.Sscanf reads the attempt back from the message of its own format.
unfoldable pub retry_count_of : List Condition → ℕ
retry_count_of [] = 0
retry_count_of (c ∷ cs) =
    let rest = retry_count_of cs in
    if c.type == "Verified" && c.reason == "VerificationUnknown"
    then elim (scan_retry c.message) [ some attempt ↦ attempt | none ↦ rest ]
    else rest

-- The retry that is noted, after this many.
abbrev pub retry_pass : World → RemediationAction → ℕ → Pass
retry_pass w a count =
    let a' = record a {
      status = record a.status {
        conditions =
            set_condition w.now a.status.conditions "Verified" is_false "VerificationUnknown"
              (retry_message (count + 1) max_unknown_retries);
      };
    } in
    elim (w.update_status a') [
      | some e ↦ failing a' (wrap "updating retry count: %w" [] e) (status_update a' ∷ [])
      | none ↦ pass a' (requeue_after minute) (status_update a' ∷ [])
    ]

unfoldable pub handle_verification_unknown : World → RemediationAction → Pass
handle_verification_unknown w a =
    let count = retry_count_of a.status.conditions in
    if leb max_unknown_retries count
    then transition_to_failed w a (sprintf "verification returned Unknown after max retries" []) []
    else retry_pass w a count

-- The switch of handleVerifying on the result, with the result noted in the status.
unfoldable pub handle_result : World → VerificationResult → RemediationAction → Pass
handle_result w healthy a = handle_verification_healthy w a
handle_result w degraded a = handle_verification_degraded w a
handle_result w unknown a = handle_verification_unknown w a
handle_result w (unexpected s) a =
    transition_to_failed w a (sprintf "unexpected verification result: %s" (word s ∷ [])) []

-- What Verify returned, with `unknown` in place of the result where it returned an error.
unfoldable pub verified : World → RemediationAction → VerificationResult
verified w a =
    let (result, error) = verify w.signals w.get_incident a in
    elim error [ none ↦ result | some _ ↦ unknown ]

unfoldable pub handle_verifying : World → RemediationAction → Pass
unfolding handle_result
handle_verifying w a =
    let result = verified w a in
    handle_result w result
      (record a { status = record a.status { verification_result = result_text result } })
