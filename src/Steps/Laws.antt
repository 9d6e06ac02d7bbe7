-- ===== src/Steps/Laws.antt =====
-- What of a plan the operator may apply by itself.
use dorgu_operator.Common.{
  String, ◌≡◌, ◌↔◌, ◌⊎◌, inl, inr, refl, ap, Bool, true, false, ◌&&◌, Option, none, some, List, [],
  ◌∷◌, All, any, ◌==◌, eq_iff, arith, if◌then◌else◌, Bool-cases,
}
use dorgu_operator.Api.{RemediationStep, RemediationAction}
use dorgu_operator.Steps.{
  has_patch, auto_applicable, has_auto_applicable_change, effective_steps, legacy_action_step_type,
  offending, legacy_steps, nonempty, validate_auto_executable,
}

legacy_type_lem :
    (t : String) → (legacy_action_step_type t == "persona-update") ≡ (t == "persona-update")
unfolding legacy_action_step_type
legacy_type_lem t = elim (Bool-cases (t == "persona-update")) [
  | inl same ↦ rw same refl
  | inr other ↦ rw other refl
]

legacy_steps-auto_applicable :
    (a : RemediationAction)
    → (a.spec.action.type == "persona-update" && has_patch a.spec.action.patch)
      ≡ any auto_applicable (legacy_steps a)
unfolding legacy_steps
legacy_steps-auto_applicable a = elim (Bool-cases (a.spec.action.type == "")) [
  | inl empty ↦
      let other : (a.spec.action.type == "persona-update") ≡ false =
        ap (λ t. t == "persona-update") ((eq_iff a.spec.action.type "").0 empty) in
      ground arith
  | inr typed ↦ ground (arith, legacy_type_lem a.spec.action.type)
]

plan_or_legacy :
    (ss legacy : List RemediationStep) (b : Bool)
    → b ≡ any auto_applicable legacy
    → (if any auto_applicable ss then true else if nonempty ss then false else b)
      ≡ any auto_applicable (if nonempty ss then ss else legacy)
plan_or_legacy [] legacy b h = h
plan_or_legacy (s ∷ ss) legacy b h = ground arith

-- The plan has a change to apply exactly when one of the steps that a consumer reads is an
-- auto-executable persona-update with a patch, whether the plan was written as steps or as the
-- legacy action.
has_auto_applicable_change-effective_steps :
    (a : Option RemediationAction)
    → has_auto_applicable_change a ≡ any auto_applicable (effective_steps a)
unfolding has_auto_applicable_change effective_steps
has_auto_applicable_change-effective_steps none = refl
has_auto_applicable_change-effective_steps (some a) =
    plan_or_legacy a.spec.steps (legacy_steps a) _ (legacy_steps-auto_applicable a)

-- The step is advisory, or a persona-update.
abbrev pub WritesOnlyPersona : RemediationStep → Type 0
WritesOnlyPersona s = (s.auto_executable ≡ false) ⊎ (s.type ≡ "persona-update")

offending_iff : (ss : List RemediationStep) → (offending ss ≡ []) ↔ All WritesOnlyPersona ss
unfolding offending
offending_iff [] = (λ _. tt, λ _. refl)
offending_iff (s ∷ ss) =
    let (to, from) = offending_iff ss in
    (
      λ h. (ground (arith, eq_iff s.type "persona-update"), to (ground arith)),
      λ h. let later = from h.1 in ground (arith, eq_iff s.type "persona-update"),
    )

-- ValidateAutoExecutable accepts a plan exactly when every step of it is advisory or a
-- persona-update.
pub validate_auto_executable_iff :
    (a : RemediationAction)
    → (validate_auto_executable (some a) ≡ []) ↔ All WritesOnlyPersona a.spec.steps
unfolding validate_auto_executable
validate_auto_executable_iff a = offending_iff a.spec.steps

-- A plan that ValidateAutoExecutable accepts has no step, legacy action included, that a consumer
-- may execute by itself and that is no persona-update.
pub effective_steps-WritesOnlyPersona :
    (a : RemediationAction)
    → validate_auto_executable (some a) ≡ []
    → All WritesOnlyPersona (effective_steps (some a))
unfolding effective_steps
effective_steps-WritesOnlyPersona a h =
    let own = (validate_auto_executable_iff a).0 h in
    ground (arith, eq_iff a.spec.action.type "persona-update")
