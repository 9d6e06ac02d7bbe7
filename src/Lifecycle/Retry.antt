-- ===== src/Lifecycle/Retry.antt =====
-- The retries of a verification that stays Unknown. setCondition leaves a condition alone whose
-- status and reason do not change, and the count of the retries is in its message.
use dorgu_operator.Common.{
  String, ◌≡◌, refl, sym, ap, subst, ◌∙◌, ◌⊎◌, inl, inr, none, some, List, [], ◌∷◌, ◌++◌, All,
  Option-cases, arith, eq_iff,
}
use dorgu_operator.Api.{
  verifying, is_false, retry_message, Phase, Condition, RemediationAction, Error,
}
use dorgu_operator.Conditions.{set_condition, find_condition}
use dorgu_operator.Conditions.Laws.{set_condition_idle, find_condition-set_new, fresh}
use dorgu_operator.Verifier.{unknown, verify, incident_namespace}
use dorgu_operator.Executor.{get_error}
use dorgu_operator.Lifecycle.{dispatch, reconcile}
use dorgu_operator.Lifecycle.Effects.{
  World, Request, status_update, recorded, requeue_after, Pass, pass,
}
use dorgu_operator.Lifecycle.Handlers.{
  retry_count_of, minute, handle_verification_unknown, handle_verifying, verified,
}

-- The action that the API server holds after some requests: what the status updates that it accepted
-- wrote.
unfoldable pub held_after : World → List Request → RemediationAction → RemediationAction
held_after w [] a = a
held_after w (status_update b ∷ rs) a =
    let written = held_after w rs b in
    let refused = held_after w rs a in
    elim (w.update_status b) [ none ↦ written | some _ ↦ refused ]
held_after w (_ ∷ rs) a = held_after w rs a

-- What the first retry leaves in the conditions.
abbrev pub HasRetried : List Condition → Type 0
HasRetried cs =
    (c : Condition) × (find_condition cs "Verified" ≡ some c)
    × (c.status ≡ is_false)
    × (c.reason ≡ "VerificationUnknown")
    × (c.message ≡ retry_message 1 2)

retry_count_of-found :
    (cs : List Condition) {c : Condition}
    → find_condition cs "Verified" ≡ some c
    → c.reason ≡ "VerificationUnknown"
    → c.message ≡ retry_message 1 2
    → retry_count_of cs ≡ 1
unfolding retry_count_of find_condition
retry_count_of-found [] h r m = cc
retry_count_of-found (d ∷ cs) {c} h r m =
    ground (arith, eq_iff c.reason "VerificationUnknown", retry_count_of-found cs {c = c})

retry_count_of-none :
    (cs : List Condition) → find_condition cs "Verified" ≡ none → retry_count_of cs ≡ 0
unfolding retry_count_of find_condition
retry_count_of-none [] h = refl
retry_count_of-none (d ∷ cs) h = ground (arith, retry_count_of-none cs)

-- No incident can be read in this pass, so that Verify answers Unknown, and status updates are
-- accepted.
abbrev pub IsBlind : World → Type 0
IsBlind w =
    (e : Error) × ((namespace name : String) → w.get_incident namespace name ≡ get_error e)
    × ((b : RemediationAction) → w.update_status b ≡ none)

abbrev retried_again : World → RemediationAction → RemediationAction
retried_again w a = record a {
  status = record a.status {
    conditions =
        set_condition w.now a.status.conditions "Verified" is_false "VerificationUnknown"
          (retry_message 2 2);
  };
}

handle_unknown_second :
    (w : World) (a : RemediationAction)
    → retry_count_of a.status.conditions ≡ 1
    → ((b : RemediationAction) → w.update_status b ≡ none)
    → handle_verification_unknown w a
      ≡ pass (retried_again w a) (requeue_after minute) (status_update (retried_again w a) ∷ [])
unfolding handle_verification_unknown
handle_unknown_second w a once accepted = ground (arith, once, accepted (retried_again w a))

handle_unknown_again :
    (w : World) (a : RemediationAction)
    → HasRetried a.status.conditions
    → ((b : RemediationAction) → w.update_status b ≡ none)
    → handle_verification_unknown w a ≡ pass a (requeue_after minute) (status_update a ∷ [])
handle_unknown_again w a (c, f, s, r, m) accepted =
    let idle = set_condition_idle w.now a.status.conditions "Verified" (retry_message 2 2) f in
    let same : retried_again w a ≡ a =
      ap (λ cs. record a { status = record a.status { conditions = cs } }) (rw (s, r) at idle) in
    handle_unknown_second w a (retry_count_of-found a.status.conditions f r m) accepted
    ∙ ap (λ (b : RemediationAction). pass b (requeue_after minute) (status_update b ∷ [])) same

abbrev retried : World → RemediationAction → RemediationAction
retried w a = record a {
  status = record a.status {
    conditions =
        set_condition w.now a.status.conditions "Verified" is_false "VerificationUnknown"
          (retry_message 1 2);
  };
}

handle_unknown_first :
    (w : World) (a : RemediationAction)
    → find_condition a.status.conditions "Verified" ≡ none
    → ((b : RemediationAction) → w.update_status b ≡ none)
    → handle_verification_unknown w a
      ≡ pass (retried w a) (requeue_after minute) (status_update (retried w a) ∷ [])
unfolding handle_verification_unknown
handle_unknown_first w a f accepted =
    ground (arith, retry_count_of-none a.status.conditions f, accepted (retried w a))

retried-HasRetried :
    (w : World) (a : RemediationAction)
    → find_condition a.status.conditions "Verified" ≡ none
    → HasRetried (retried w a).status.conditions
retried-HasRetried w a f = (
  fresh w.now "Verified" is_false "VerificationUnknown" (retry_message 1 2),
  find_condition-set_new w.now a.status.conditions "Verified" is_false "VerificationUnknown"
      (retry_message 1 2) f,
  refl,
  refl,
  refl,
)

-- An action that waits for a verification, before or after its first retry.
abbrev IsWaiting : RemediationAction → Type 0
IsWaiting a =
    (a.status.phase ≡ verifying)
    × ((find_condition a.status.conditions "Verified" ≡ none) ⊎ HasRetried a.status.conditions)

abbrev HeldWaiting : World → Pass → RemediationAction → Type 0
HeldWaiting w p a = IsWaiting (held_after w p.requests a)

handle_unknown-HeldWaiting :
    (w : World) (a before : RemediationAction)
    → ((b : RemediationAction) → w.update_status b ≡ none)
    → IsWaiting a
    → HeldWaiting w (handle_verification_unknown w a) before
unfolding held_after
handle_unknown-HeldWaiting w a before accepted (p, inl f) =
    rw (handle_unknown_first w a f accepted, accepted (retried w a))
      (p, inr (retried-HasRetried w a f))
handle_unknown-HeldWaiting w a before accepted (p, inr h) =
    rw (handle_unknown_again w a h accepted, accepted a) (p, inr h)

verified_blind : (w : World) (a : RemediationAction) → IsBlind w → verified w a ≡ unknown
unfolding verified verify
verified_blind w a (e, unread, _) =
    ground (arith, unread (incident_namespace a) a.spec.incident_ref.name)

-- The action with the Unknown result noted.
abbrev noted : RemediationAction → RemediationAction
noted a = record a { status = record a.status { verification_result = "Unknown" } }

dispatch_blind :
    (w : World) (a : RemediationAction)
    → IsBlind w
    → dispatch w verifying a ≡ handle_verification_unknown w (noted a)
unfolding dispatch handle_verifying
dispatch_blind w a blind = rw (verified_blind w a blind)

-- The metric is no status.
held_after-recorded :
    (w : World) (rs : List Request) (p q : Phase) (a : RemediationAction)
    → held_after w (rs ++ recorded p q ∷ []) a ≡ held_after w rs a
unfolding held_after
held_after-recorded w [] p q a = refl
held_after-recorded w (status_update b ∷ rs) p q a =
    ground (arith, held_after-recorded w rs p q b, held_after-recorded w rs p q a)
held_after-recorded w (_ ∷ rs) p q a = held_after-recorded w rs p q a

pub held_after-reconcile :
    (w : World) (a : RemediationAction)
    → held_after w (reconcile w a).requests a
      ≡ held_after w (dispatch w a.status.phase a).requests a
unfolding reconcile
held_after-reconcile w a = elim (Option-cases (dispatch w a.status.phase a).error) [
  | inl fine ↦ rw (fine) (held_after-recorded w (dispatch w a.status.phase a).requests _ _ a)
  | inr (e, failure) ↦ rw (failure) refl
]

reconcile-IsWaiting :
    (w : World) (a : RemediationAction)
    → IsBlind w
    → IsWaiting a
    → IsWaiting (held_after w (reconcile w a).requests a)
unfolding dispatch
reconcile-IsWaiting w a blind (p, c) =
    let same : held_after w (reconcile w a).requests a
        ≡ held_after w (handle_verification_unknown w (noted a)).requests a =
      held_after-reconcile w a
      ∙ ap (λ s. held_after w (dispatch w s a).requests a) p
      ∙ ap (λ (q : Pass). held_after w q.requests a) (dispatch_blind w a blind) in
    subst IsWaiting (sym same) (handle_unknown-HeldWaiting w (noted a) a blind.2 (p, c))

-- Passes one after the other, each over the action as the API server holds it. No pass is over a
-- rejected action, whose stamp is written by another call.
unfoldable pub run : List World → RemediationAction → RemediationAction
unfolding held_after
run [] a = a
run (w ∷ ws) a = run ws (held_after w (reconcile w a).requests a)

run-IsWaiting :
    (ws : List World) (a : RemediationAction) → All IsBlind ws → IsWaiting a → IsWaiting (run ws a)
unfolding run
run-IsWaiting [] a _ h = h
run-IsWaiting (w ∷ ws) a (b, bs) h = run-IsWaiting ws _ bs (reconcile-IsWaiting w a b h)

-- While the incident cannot be read, an action whose verification was never recorded stays in Verifying
-- through any number of passes: the limit of two retries is never reached.
pub run_blind-verifying :
    (ws : List World) (a : RemediationAction)
    → a.status.phase ≡ verifying
    → find_condition a.status.conditions "Verified" ≡ none
    → All IsBlind ws
    → (run ws a).status.phase ≡ verifying
run_blind-verifying ws a p f bs = (run-IsWaiting ws a bs (p, inl f)).0
