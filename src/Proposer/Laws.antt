-- ===== src/Proposer/Laws.antt =====
-- When a proposal is made: what the guards of Propose let through.
use dorgu_operator.Common.{
  ◌∙◌, sym, ap, subst, String, true, false, ◌≡◌, ◌≢◌, refl, arith, ◌↔◌, inl, inr, Option, none,
  some, Option-cases, Bool-cases, text-cases, List, [], ◌∷◌, All, ◌==◌, eq_iff, ne→==,
  if◌then◌else◌,
}
use dorgu_operator.Api.{Message, PersonaReference, RemediationAction}
use dorgu_operator.Diagnosis.{Diagnosis}
use dorgu_operator.Executor.{Fetched, found, get_error, Fetched-cases}
use dorgu_operator.Incident.{IncidentMemory}
use dorgu_operator.Safety.Readings.{ClusterPersona, SafetyViolation}
use dorgu_operator.Proposer.{
  guard_persona, skip_or, deny_or, guard_answer, is_active, remediation_targets_path,
  diagnosis_target_path, redundant_with, first_redundant, active_remediation_exists,
  self_healing_mode, proposal_suppressed_by_mode, where_given, goes_on, propose_guards,
}

-- The action is over, or it is about another incident and sets another field.
abbrev pub StandsAside : String → IncidentMemory → RemediationAction → Type 0
StandsAside target i a =
    is_active a.status.phase ≡ true
    → (a.spec.incident_ref.name ≢ i.name)
      × (target ≢ "" → remediation_targets_path a target ≡ false)

redundant_with_iff :
    (ref : PersonaReference) (target : String) (i : IncidentMemory) (a : RemediationAction)
    → (redundant_with ref target i a ≡ none) ↔ StandsAside target i a
unfolding redundant_with
redundant_with_iff ref target i a = (
  λ h active. (
    λ same. ground (arith, (eq_iff a.spec.incident_ref.name i.name).1 same),
    λ aimed. ground (arith, ne→== target "" aimed),
  ),
  λ aside. elim (Bool-cases (is_active a.status.phase)) [
    | inr over ↦ rw (over, redundant_with) refl
    | inl active ↦
        let (elsewhere, apart) = aside active in
        let other = ne→== a.spec.incident_ref.name i.name elsewhere in
        elim (text-cases target "") [
          | inl none_aimed ↦ ground (arith, (eq_iff target "").1 none_aimed)
          | inr aimed ↦ ground (arith, apart aimed)
        ]
  ],
)

pub first_redundant_iff :
    (ref : PersonaReference) (target : String) (i : IncidentMemory) (as' : List RemediationAction)
    → (first_redundant ref target i as' ≡ none) ↔ All (StandsAside target i) as'
unfolding first_redundant
first_redundant_iff ref target i [] = (λ _. tt, λ _. refl)
first_redundant_iff ref target i (a ∷ as') =
    let (here, back) = redundant_with_iff ref target i a in
    let (later, back_later) = first_redundant_iff ref target i as' in
    elim (Option-cases (redundant_with ref target i a)) [
      | inl aside ↦ rw (aside, first_redundant) (λ h. (here aside, later h), λ h. back_later h.1)
      | inr (reason, stops) ↦
          rw (stops, first_redundant) (λ h. ground arith, λ h. ground (arith, back h.0))
    ]

passes_iff :
    (ref : PersonaReference) (m : Option Message) (v : Option SafetyViolation)
    (f : Fetched (Option Message))
    → (skip_or m (deny_or v (guard_answer ref f)) ≡ goes_on ref)
      ↔ ((m ≡ none) × (v ≡ none) × (f ≡ found none))
passes_iff ref (some r) v f = (λ h. cc, λ h. cc)
passes_iff ref none (some x) f = (λ h. cc, λ h. cc)
passes_iff ref none none (get_error e) = (λ h. cc, λ h. cc)
passes_iff ref none none (found (some r)) = (λ h. cc, λ h. cc)
passes_iff ref none none (found none) = (λ h. (refl, refl, refl), λ h. refl)

suppressed_iff :
    (personas : Fetched (List ClusterPersona))
    → (proposal_suppressed_by_mode personas ≡ none) ↔ (self_healing_mode personas ≢ "observe")
unfolding proposal_suppressed_by_mode
suppressed_iff personas = (
  λ h same. ground (arith, (eq_iff (self_healing_mode personas) "observe").1 same),
  λ other.
      rw (ne→== (self_healing_mode personas) "observe" other, proposal_suppressed_by_mode) refl,
)

active_exists_iff :
    (list_actions : Option String → Option String → Fetched (List RemediationAction))
    (ref : PersonaReference) (d : Diagnosis) (i : IncidentMemory)
    → (active_remediation_exists list_actions ref d i ≡ found none) ↔ (
        (actions : List RemediationAction) × (list_actions
            (where_given (if i.namespace == "" then ref.namespace else i.namespace))
            (where_given ref.name)
          ≡ found actions)
        × All (StandsAside (diagnosis_target_path d) i) actions)
unfolding active_remediation_exists
active_exists_iff list_actions ref d i =
    elim (Fetched-cases (
      list_actions (where_given (if i.namespace == "" then ref.namespace else i.namespace))
        (where_given ref.name))) [
          | inr (e, failed) ↦ (λ h. ground arith, λ h. ground (arith, h.1))
          | inl (actions, listed) ↦
              let (aside, back) = first_redundant_iff ref (diagnosis_target_path d) i actions in
              (
                λ h. (actions, listed, aside (ground arith)),
                λ h.
                    (let same : h.0 ≡ actions =
                        ap
                          (λ (x : Fetched (List RemediationAction)). elim x [
                            | found l ↦ l
                            | get_error _ ↦ []
                          ])
                          (sym h.1 ∙ listed) in
                      rw (listed, active_remediation_exists)
                        (ap found (
                          back (
                            subst
                              (λ (l : List RemediationAction).
                                All (StandsAside (diagnosis_target_path d) i) l)
                              same h.2)))),
              )
        ]

-- What lets a proposal for a persona and an incident pass.
pub record MayPlan (personas : Fetched (List ClusterPersona))
    (namespace_denied : String → Option SafetyViolation)
    (list_actions : Option String → Option String → Fetched (List RemediationAction))
    (ref : PersonaReference) (d : Diagnosis) (i : IncidentMemory) : Type 0 where
  pub not_observing : self_healing_mode personas ≢ "observe"
  pub cleared : namespace_denied ref.namespace ≡ none
  pub actions : List RemediationAction
  pub listed :
      list_actions
        (where_given (if i.namespace == "" then ref.namespace else i.namespace))
        (where_given ref.name)
      ≡ found actions
  pub aside : All (StandsAside (diagnosis_target_path d) i) actions

-- A proposal for a diagnosis of a persona, about an incident, goes on to the planning exactly where the
-- cluster's mode is not to observe, the persona's namespace is not denied, the persona's actions
-- could be listed, and each of them that is active is about another incident and sets no field that
-- the diagnosis aims at.
pub propose_guards_iff :
    (personas : Fetched (List ClusterPersona)) (namespace_denied : String → Option SafetyViolation)
    (list_actions : Option String → Option String → Fetched (List RemediationAction))
    (ref : PersonaReference) (d : Diagnosis) (i : IncidentMemory)
    → d.persona_ref ≡ some ref
    → (propose_guards personas namespace_denied list_actions d (some i) ≡ goes_on ref)
      ↔ MayPlan personas namespace_denied list_actions ref d i
unfolding propose_guards
propose_guards_iff personas namespace_denied list_actions ref d i known =
    let guards : propose_guards personas namespace_denied list_actions d (some i)
        ≡ skip_or (proposal_suppressed_by_mode personas) (
            deny_or (namespace_denied ref.namespace)
              (guard_answer ref (active_remediation_exists list_actions ref d i))) =
      ap (guard_persona personas namespace_denied list_actions d (some i)) known in
    let (passed, pass) =
      passes_iff ref (proposal_suppressed_by_mode personas) (namespace_denied ref.namespace)
        (active_remediation_exists list_actions ref d i) in
    (
      λ h.
          let (mode, cleared, none_active) = passed (sym guards ∙ h) in
          let (actions, listed, aside) = (active_exists_iff list_actions ref d i).0 none_active in
          record {
            not_observing = (suppressed_iff personas).0 mode;
            cleared = cleared;
            actions = actions;
            listed = listed;
            aside = aside;
          },
      λ may.
          guards
          ∙ pass (
            (suppressed_iff personas).1 may.not_observing,
            may.cleared,
            (active_exists_iff list_actions ref d i).1 (may.actions, may.listed, may.aside),
          ),
    )
