-- ===== src/Rejection/Laws.antt =====
-- How long a rejection holds, and what lifts it.
use dorgu_operator.Common.{
  ℕ, ◌+◌, ◌<◌, ◌≤◌, String, ◌≡◌, ◌≢◌, ◌↔◌, ◌⊎◌, inl, inr, refl, true, false, none, some, List, [],
  ◌∷◌, Memᴰ, All, sym, subst, arith, Option-cases,
}
use dorgu_operator.Api.{Message, sprintf, word, Condition, RemediationAction, is_true}
use dorgu_operator.Conditions.{set_condition, has_condition}
use dorgu_operator.Incident.{IncidentMemory}
use dorgu_operator.Lifecycle.Rejection.{stamped}
use dorgu_operator.Lifecycle.Effects.{World}
use dorgu_operator.Diagnosis.{Diagnosis}
use dorgu_operator.Rejection.{counts, reason_of, first_reason, rejection_time, rejection_cooldown}

-- A rejection that does not stop the proposal: it is about something else, or its cooldown is over.
abbrev pub IsOver : ℕ → Diagnosis → IncidentMemory → RemediationAction → Type 0
IsOver now d i a =
    (counts d i a ≡ false)
    ⊎ ((t : ℕ) × (rejection_time a.status.conditions ≡ some t) × (t + rejection_cooldown ≤ now))

reason_of_sound :
    (now : ℕ) (d : Diagnosis) (i : IncidentMemory) (a : RemediationAction)
    → reason_of now d i a ≡ none
    → IsOver now d i a
unfolding reason_of
reason_of_sound now d i a h = elim (Option-cases (rejection_time a.status.conditions)) [
  | inl unstamped ↦ inl (ground arith)
  | inr (t, stamped_at) ↦ ground arith
]

reason_of_complete :
    (now : ℕ) (d : Diagnosis) (i : IncidentMemory) (a : RemediationAction)
    → IsOver now d i a
    → reason_of now d i a ≡ none
unfolding reason_of
reason_of_complete now d i a (inl other) = ground arith
reason_of_complete now d i a (inr (t, stamped_at, late)) = ground arith

pub first_reason_iff :
    (now : ℕ) (d : Diagnosis) (i : IncidentMemory) (l : List RemediationAction)
    → (first_reason now d i l ≡ none) ↔ All (IsOver now d i) l
unfolding first_reason
first_reason_iff now d i [] = (λ _. tt, λ _. refl)
first_reason_iff now d i (a ∷ l) =
    let (to, from) = first_reason_iff now d i l in
    (
      λ h. (reason_of_sound now d i a (ground arith), to (ground arith)),
      λ h. let here = reason_of_complete now d i a h.0 in let later = from h.1 in ground arith,
    )

All-Memᴰ {ℓ κ} : {A : Type ℓ} (P : A → Type κ) (l : List A) {a : A} → Memᴰ a l → All P l → P a
All-Memᴰ P [] m h = elim m [ ]
All-Memᴰ P (x ∷ l) (Memᴰ.head e) h = subst P (sym e) h.0
All-Memᴰ P (x ∷ l) (Memᴰ.tail m) h = All-Memᴰ P l m h.1

rejection_time-stamped :
    (now : ℕ) (cs : List Condition) (r : String) (m : Message)
    → has_condition cs "Rejected" ≡ false
    → now ≢ 0
    → rejection_time (set_condition now cs "Rejected" is_true r m) ≡ some now
unfolding rejection_time set_condition has_condition
rejection_time-stamped now [] r m h n = ground arith
rejection_time-stamped now (c ∷ cs) r m h n = ground (arith, rejection_time-stamped now cs r m)

-- Once the controller has stamped a rejection, and as long as the stamp keeps the time to the nanosecond, the same fix for the same incident, no more severe
-- than it was, is not proposed again until the cooldown is over.
pub stamped_suppresses :
    (w : World) (a : RemediationAction) (d : Diagnosis) (i : IncidentMemory)
    (l : List RemediationAction) (now : ℕ)
    → has_condition a.status.conditions "Rejected" ≡ false
    → w.now ≢ 0
    → counts d i a ≡ true
    → now < w.now + rejection_cooldown
    → Memᴰ (stamped w a) l
    → first_reason now d i l ≢ none
unfolding stamped
stamped_suppresses w a d i l now h z c early m e =
    let at_now =
      rejection_time-stamped w.now a.status.conditions "UserRejected"
        (sprintf "declined by a human; dorgu will not re-propose this fix for %s"
          (word "1h0m0s" ∷ []))
        h z in
    let over = All-Memᴰ (IsOver now d i) l m ((first_reason_iff now d i l).0 e) in ground arith
