-- ===== src/Verifier/Laws.antt =====
-- When a verification finds a workload healthy.
use dorgu_operator.Common.{
  String, ◌≡◌, ◌≢◌, ◌↔◌, ◌⊎◌, refl, Bool, false, ◌&&◌, ◌||◌, none, some, List, [], ◌∷◌, All,
  Option-cases, inl, inr, eq_iff, arith, ◌==◌,
}
use dorgu_operator.Api.{PersonaReference, RemediationAction}
use dorgu_operator.Detection.{Signal}
use dorgu_operator.Executor.{Fetched, found}
use dorgu_operator.Incident.{IncidentMemory}
use dorgu_operator.Verifier.{
  healthy, degraded, verify, incident_namespace, affects, has_signal_for_persona,
  has_new_critical_signals,
}

-- The signal is about another persona, or neither of the type given nor critical.
abbrev pub IsHarmless : String → PersonaReference → Signal → Type 0
IsHarmless type target s =
    (r : PersonaReference)
    → s.persona_ref ≡ some r
    → r.name ≡ target.name
    → r.namespace ≡ target.namespace
    → (s.type ≢ type) × (s.severity ≢ "critical")

abbrev bad : String → PersonaReference → Signal → Bool
bad type target s =
    (s.type == type && affects s.persona_ref target.name target.namespace)
    || (s.severity == "critical" && affects s.persona_ref target.name target.namespace)

bad_iff :
    (type : String) (target : PersonaReference) (s : Signal)
    → (bad type target s ≡ false) ↔ IsHarmless type target s
bad_iff type target s = elim (Option-cases s.persona_ref) [
  | inl nobody ↦ (λ h r e. ground arith, λ h. ground arith)
  | inr (r, owner) ↦ (
    λ h r' e n m. (
      λ t. ground (
        arith,
        eq_iff s.type type,
        eq_iff r.name target.name,
        eq_iff r.namespace target.namespace,
      ),
      λ t. ground (
        arith,
        eq_iff s.severity "critical",
        eq_iff r.name target.name,
        eq_iff r.namespace target.namespace,
      ),
    ),
    λ h. ground (
      arith,
      eq_iff s.type type,
      eq_iff s.severity "critical",
      eq_iff r.name target.name,
      eq_iff r.namespace target.namespace,
      h r owner,
    ),
  )
]

no_bad_iff :
    (type : String) (target : PersonaReference) (signals : List Signal)
    → ((has_signal_for_persona signals type target.name target.namespace
          || has_new_critical_signals signals target.name target.namespace)
        ≡ false)
      ↔ All (IsHarmless type target) signals
unfolding has_signal_for_persona has_new_critical_signals
no_bad_iff type target [] = (λ _. tt, λ _. refl)
no_bad_iff type target (s ∷ signals) =
    let (to, from) = no_bad_iff type target signals in
    let (to', from') = bad_iff type target s in
    (
      λ h. (to' (ground arith), to (ground arith)),
      λ h. let here = from' h.0 in let rest = from h.1 in ground arith,
    )

-- Where the signals could be collected and the incident could be read, a verification is Healthy
-- exactly when no signal of the incident's type and no critical one, new or old, names the persona
-- with the namespace of the action's reference, letter by letter, and otherwise it is Degraded.
pub verify_iff :
    (signals : List Signal) (get_incident : String → String → Fetched IncidentMemory)
    (a : RemediationAction) (i : IncidentMemory)
    → get_incident (incident_namespace a) a.spec.incident_ref.name ≡ found i
    → ((verify (found signals) get_incident a ≡ (healthy, none))
        ↔ All (IsHarmless i.spec.detection.signal a.spec.persona_ref) signals)
      × ((verify (found signals) get_incident a ≡ (healthy, none))
          ⊎ (verify (found signals) get_incident a ≡ (degraded, none)))
unfolding verify
verify_iff signals get_incident a i h =
    let (to, from) = no_bad_iff i.spec.detection.signal a.spec.persona_ref signals in
    ((λ e. to (ground arith), λ e. let clean = from e in ground arith), ground arith)
