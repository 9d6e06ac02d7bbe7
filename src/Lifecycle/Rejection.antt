-- ===== src/Lifecycle/Rejection.antt =====
-- recordRejection of the remediation controller: the first pass over a rejected action stamps it.
use dorgu_operator.Common.{ℕ, Bool, true, false, ◌||◌, not, none, some, [], ◌∷◌, if◌then◌else◌}
use dorgu_operator.Api.{word, wrap, sprintf, Phase, rejected, is_true, RemediationAction}
use dorgu_operator.Conditions.{set_condition, has_condition}
use dorgu_operator.Executor.{found, get_error}
use dorgu_operator.Lifecycle.Effects.{World, status_update, stop, Pass, pass, failing, Attempt}

abbrev pub is_rejected : Phase → Bool
is_rejected rejected = true
is_rejected _ = false

unfoldable pub stamped : World → RemediationAction → RemediationAction
stamped w a = record a {
  status = record a.status {
    conditions = set_condition w.now a.status.conditions "Rejected" is_true "UserRejected" (
        sprintf "declined by a human; dorgu will not re-propose this fix for %s"
          (word "1h0m0s" ∷ []));
  };
}

-- One round of the retry loop: the stored action is read again, and stamped if it still needs it.
unfoldable pub stamp : World → ℕ → Attempt
stamp w n = elim (w.reread_action n) [
  | get_error e ↦ record { error = some e; requests = [] }
  | found a ↦
      if not (is_rejected a.status.phase) || has_condition a.status.conditions "Rejected"
      then record { error = none; requests = [] }
      else record {
        error = w.reupdate_status n (stamped w a);
        requests = status_update (stamped w a) ∷ [];
      }
]

unfoldable pub record_rejection : World → RemediationAction → Pass
record_rejection w a =
    if has_condition a.status.conditions "Rejected"
    then pass a stop []
    else (let last = w.retry_on_conflict (stamp w) in
        elim last.error [
          | none ↦ pass a stop last.requests
          | some e ↦
              failing a (wrap "recording the rejection timestamp on %s: %w" (word a.name ∷ []) e)
                last.requests
        ])
