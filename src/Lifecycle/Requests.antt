-- ===== src/Lifecycle/Requests.antt =====
-- The personas that the requests of a pass write, and the requests that write none.
use dorgu_operator.Common.{
  ℕ, zero, suc, String, ◌≡◌, refl, ◌∙◌, inl, inr, List, [], ◌∷◌, ◌++◌, map, arith, Option-cases,
}
use mathlib.Core.List.{append-nil}
use dorgu_operator.Api.{RemediationAction}
use dorgu_operator.Executor.{ApplicationPersona}
use dorgu_operator.Lifecycle.Effects.{World, Request, persona_update, Attempt}
use dorgu_operator.Lifecycle.Resolution.{
  update_incident_resolution, broadcast_remediation, mark_resolved,
}
use dorgu_operator.Lifecycle.Transitions.{finish_pass}

-- The personas that a list of requests writes, in order.
unfoldable pub persona_updates : List Request → List ApplicationPersona
persona_updates [] = []
persona_updates (persona_update p ∷ rs) = p ∷ persona_updates rs
persona_updates (_ ∷ rs) = persona_updates rs

-- The requests of the attempts up to one.
abbrev pub sent_through : (ℕ → Attempt) → ℕ → List Request
sent_through f zero = (f 0).requests
sent_through f (suc n) = sent_through f n ++ (f (suc n)).requests

-- retry.RetryOnConflict makes attempts up to some one, and returns what that one returned.
abbrev pub IsRetrying : World → Type 0
IsRetrying w =
    (f : ℕ → Attempt)
    → (n : ℕ) × (w.retry_on_conflict f
        ≡ record { error = (f n).error; requests = sent_through f n })

pub persona_updates-append :
    (xs ys : List Request) → persona_updates (xs ++ ys) ≡ persona_updates xs ++ persona_updates ys
unfolding persona_updates
persona_updates-append [] ys = refl
persona_updates-append (persona_update p ∷ xs) ys = rw (persona_updates-append xs ys)
persona_updates-append (_ ∷ xs) ys = persona_updates-append xs ys

pub persona_updates-map :
    (ps : List ApplicationPersona) → persona_updates (map persona_update ps) ≡ ps
unfolding persona_updates
persona_updates-map [] = refl
persona_updates-map (p ∷ ps) = rw (persona_updates-map ps)

pub persona_updates-drop :
    (xs ys : List Request)
    → persona_updates ys ≡ []
    → persona_updates (xs ++ ys) ≡ persona_updates xs
persona_updates-drop xs ys h = rw (persona_updates-append xs ys, h) (append-nil _)

pub sent_through_none :
    (f : ℕ → Attempt)
    → ((k : ℕ) → persona_updates (f k).requests ≡ [])
    → (n : ℕ) → persona_updates (sent_through f n) ≡ []
sent_through_none f h zero = h 0
sent_through_none f h (suc n) =
    persona_updates-drop (sent_through f n) (f (suc n)).requests (h (suc n))
    ∙ sent_through_none f h n

pub sent_updates :
    (ps : List ApplicationPersona) (ys : List Request)
    → persona_updates ys ≡ []
    → persona_updates (map persona_update ps ++ ys) ≡ ps
sent_updates ps ys h = persona_updates-drop _ ys h ∙ persona_updates-map ps

module _ (w : World) (retrying : IsRetrying w) (a : RemediationAction) where
  mark_resolved_none : (n : ℕ) → persona_updates (mark_resolved w n).requests ≡ []
  unfolding persona_updates
  mark_resolved_none n = ground arith

  retry_none : persona_updates (w.retry_on_conflict (mark_resolved w)).requests ≡ []
  retry_none =
      let (n, e) = retrying (mark_resolved w) in
      rw e (sent_through_none (mark_resolved w) mark_resolved_none n)

  resolution_none :
      (outcome : String) → persona_updates (update_incident_resolution w a outcome).requests ≡ []
  unfolding update_incident_resolution persona_updates
  resolution_none outcome = ground (arith, retry_none)

  pub finish_pass-updates :
      (text event outcome : String) (sent : List Request)
      → persona_updates (finish_pass w a text event outcome sent).requests ≡ persona_updates sent
  unfolding persona_updates finish_pass broadcast_remediation
  finish_pass-updates text event outcome sent = elim (Option-cases (w.update_status a)) [
    | inl accepted ↦ rw (accepted, finish_pass) (persona_updates-drop sent _ tail_none)
    | inr (e, refused) ↦ rw (refused, finish_pass) (persona_updates-drop sent _ refl)
  ]
    where
      tail_none :
          persona_updates
            (broadcast_remediation w a event ++ (update_incident_resolution w a outcome).requests)
          ≡ []
      tail_none = ground (arith, resolution_none outcome)
