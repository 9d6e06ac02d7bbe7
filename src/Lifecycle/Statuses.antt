-- ===== src/Lifecycle/Statuses.antt =====
-- The statuses that the transitions of the remediation controller write.
use dorgu_operator.Common.{
  ℕ, zero, suc, String, true, ◌≡◌, refl, sym, ◌∙◌, inl, inr, List, [], ◌∷◌, map, All, All-append,
  arith, Option-cases, Bool-cases, not, ◌||◌,
}
use dorgu_operator.Api.{Message, Phase, failed, rejected, RemediationAction}
use dorgu_operator.Conditions.{has_condition}
use dorgu_operator.Executor.{ApplicationPersona, Fetched-cases}
use dorgu_operator.Lifecycle.Effects.{World, Request, persona_update, status_update, Attempt}
use dorgu_operator.Lifecycle.Resolution.{
  update_incident_resolution, broadcast_remediation, mark_resolved,
}
use dorgu_operator.Lifecycle.Transitions.{finish_pass, transition_to_failed_with_reason}
use dorgu_operator.Lifecycle.Rejection.{is_rejected, stamped, stamp, record_rejection}
use dorgu_operator.Lifecycle.Requests.{IsRetrying, sent_through}
use dorgu_operator.Lifecycle.Graph.{Moves}

-- A status that is written is in the old phase, or at the end of an edge.
abbrev pub Follows : Phase → Request → Type 0
Follows p (status_update b) = Moves p b.status.phase
Follows p _ = Unit

pub personas_follow :
    (p : Phase) (ps : List ApplicationPersona) → All (Follows p) (map persona_update ps)
personas_follow p [] = tt
personas_follow p (x ∷ ps) = (tt, personas_follow p ps)

pub broadcast_follow :
    (p : Phase) (w : World) (a : RemediationAction) (event : String)
    → All (Follows p) (broadcast_remediation w a event)
unfolding broadcast_remediation
broadcast_follow p w a event = elim (Bool-cases w.has_web_socket) [
  | inl on ↦ rw (on) (tt, tt)
  | inr off ↦ rw (off) tt
]

sent_through_follow :
    (p : Phase) (f : ℕ → Attempt)
    → ((n : ℕ) → All (Follows p) (f n).requests)
    → (n : ℕ) → All (Follows p) (sent_through f n)
sent_through_follow p f h zero = h 0
sent_through_follow p f h (suc n) =
    All-append (Follows p) (sent_through f n) (f (suc n)).requests (sent_through_follow p f h n)
      (h (suc n))

module _ (w : World) (retrying : IsRetrying w) (p : Phase) where
  retried_follow :
      (f : ℕ → Attempt)
      → ((n : ℕ) → All (Follows p) (f n).requests)
      → All (Follows p) (w.retry_on_conflict f).requests
  retried_follow f h = let (n, e) = retrying f in rw e (sent_through_follow p f h n)

  mark_resolved_follow : (n : ℕ) → All (Follows p) (mark_resolved w n).requests
  mark_resolved_follow n = elim (Fetched-cases (w.reread_incident n)) [
    | inl (i, read) ↦ rw (read, mark_resolved) (tt, tt)
    | inr (e, unread) ↦ rw (unread, mark_resolved) tt
  ]

  resolution_follow :
      (a : RemediationAction) (outcome : String)
      → All (Follows p) (update_incident_resolution w a outcome).requests
  unfolding update_incident_resolution
  resolution_follow a outcome =
      let closed = retried_follow (mark_resolved w) mark_resolved_follow in ground (arith, closed)

  pub finish_follow :
      (a : RemediationAction) (text event outcome : String) (sent : List Request)
      → Moves p a.status.phase
      → All (Follows p) sent
      → All (Follows p) (finish_pass w a text event outcome sent).requests
  unfolding finish_pass
  finish_follow a text event outcome sent m h = elim (Option-cases (w.update_status a)) [
    | inl accepted ↦
        rw (accepted, finish_pass)
          (All-append (Follows p) sent _ h (
            m,
            All-append (Follows p) (broadcast_remediation w a event) _
                (broadcast_follow p w a event) (resolution_follow a outcome),
          ))
    | inr (e, refused) ↦ rw (refused, finish_pass) (All-append (Follows p) sent _ h (m, tt))
  ]

  pub failed_follow :
      (a : RemediationAction) (text : String) (reason : Message) (sent : List Request)
      → Moves p failed
      → All (Follows p) sent
      → All (Follows p) (transition_to_failed_with_reason w a text reason sent).requests
  unfolding transition_to_failed_with_reason
  failed_follow a text reason sent m h = finish_follow _ _ _ _ sent m h

  stamp_follow : p ≡ rejected → (n : ℕ) → All (Follows p) (stamp w n).requests
  unfolding stamp stamped
  stamp_follow e n = elim (Fetched-cases (w.reread_action n)) [
    | inr (e, unread) ↦ rw (unread, stamp) tt
    | inl (a, read) ↦
        elim (Bool-cases
          (not (is_rejected a.status.phase) || has_condition a.status.conditions "Rejected")) [
            | inl done ↦ rw (read, done, stamp) tt
            | inr due ↦
                rw (read, due, stamp)
                  (inl (e ∙ sym (rejected_phase a.status.phase (ground arith))), tt)
          ]
  ]
    where
      rejected_phase : (q : Phase) → is_rejected q ≡ true → q ≡ rejected
      rejected_phase rejected h = refl
      rejected_phase _ h = ground arith

  pub rejected_follow :
      (a : RemediationAction) → p ≡ rejected → All (Follows p) (record_rejection w a).requests
  unfolding record_rejection
  rejected_follow a e =
      let stamps = retried_follow (stamp w) (stamp_follow e) in ground (arith, stamps)
