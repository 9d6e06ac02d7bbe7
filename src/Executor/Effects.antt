-- ===== src/Executor/Effects.antt =====
-- What the executor and the rollback have sent to the API server, by the error that they return.
use dorgu_operator.Common.{
  String, ◌≡◌, none, some, eq_iff, arith, Option-cases, inl, inr, ◌≢◌, [], ◌∷◌, ◌⊎◌, true, false,
}
use dorgu_operator.Json.{Raw}
use dorgu_operator.Api.{Error, precondition, RemediationAction}
use dorgu_operator.Executor.{
  ApplicationPersona, Server, Done, validate_preconditions, apply_patch, apply_to, apply,
  raw_or_empty, execute_rollback, is_approved, wrap_done, raw_missing, rollback_enabled,
}

-- No error that stands behind a text is a *PreconditionError.
wrap_done-ne-precondition :
    (text : String) (d : Done) (e : Error)
    → ((e' : Error) → d.error ≢ some (precondition e'))
    → (wrap_done text d).error ≢ some (precondition e)
wrap_done-ne-precondition text d e h = ground (arith, h e)

apply_patch-ne-precondition :
    (s : Server) (p : ApplicationPersona) (raw : Raw) (e : Error)
    → (apply_patch s p raw).error ≢ some (precondition e)
unfolding apply_patch
apply_patch-ne-precondition s p raw e = ground arith

-- What has to hold of an action whose persona is written.
pub record IsApplicable (a : RemediationAction) : Type 0 where
  pub approved_phase : is_approved a.status.phase ≡ true
  pub persona_update : a.spec.action.type ≡ "persona-update"
  pub has_patch : raw_missing a.spec.action.patch ≡ false
  pub has_undo : raw_missing a.spec.action.pre_patch_state ≡ false

validate_preconditions_sound :
    (a : RemediationAction) → validate_preconditions a ≡ none → IsApplicable a
unfolding validate_preconditions
validate_preconditions_sound a h = ground (arith, eq_iff a.spec.action.type "persona-update")

-- An update is sent only after every check has passed.
apply_patch_cases :
    (s : Server) (p : ApplicationPersona) (raw : Raw)
    → ((apply_patch s p raw).updates ≡ [])
      ⊎ ((q : ApplicationPersona) × ((apply_patch s p raw).updates ≡ q ∷ []))
unfolding apply_patch
apply_patch_cases s p raw = ground arith

wrap_done-updates : (text : String) (d : Done) → (wrap_done text d).updates ≡ d.updates
wrap_done-updates text d = ground arith

apply_to_cases :
    (s : Server) (a : RemediationAction) (p : ApplicationPersona)
    → ((apply_to s a p).updates ≡ [])
      ⊎ ((q : ApplicationPersona) × ((apply_to s a p).updates ≡ q ∷ []))
unfolding apply_to
apply_to_cases s a p = ground (arith, apply_patch_cases s p (raw_or_empty a.spec.action.patch))

apply_to-ne-precondition :
    (s : Server) (a : RemediationAction) (p : ApplicationPersona) (e : Error)
    → (apply_to s a p).error ≢ some (precondition e)
unfolding apply_to
apply_to-ne-precondition s a p e = ground arith

-- An action that the executor refuses on its preconditions changed nothing.
pub apply_precondition_updates :
    (s : Server) (a : RemediationAction) {e : Error}
    → (apply s a).error ≡ some (precondition e)
    → (apply s a).updates ≡ []
unfolding apply
apply_precondition_updates s a {e} h = grind (arith, apply_to-ne-precondition)

-- The executor sends at most one update, and only for an approved persona-update with a patch and
-- the state to undo it.
pub apply_updates_cases :
    (s : Server) (a : RemediationAction)
    → ((apply s a).updates ≡ [])
      ⊎ ((p : ApplicationPersona) × ((apply s a).updates ≡ p ∷ []) × IsApplicable a)
unfolding apply
apply_updates_cases s a = elim (Option-cases (validate_preconditions a)) [
  | inr (e, refused) ↦ inl (rw (refused, apply))
  | inl passed ↦ grind (arith, apply_to_cases, validate_preconditions_sound a passed)
]

-- A successful rollback was enabled.
pub execute_rollback_enabled :
    (s : Server) (a : RemediationAction)
    → (execute_rollback s a).error ≡ none
    → rollback_enabled a.spec.rollback ≡ true
unfolding execute_rollback
execute_rollback_enabled s a h = ground arith

pub execute_rollback_disabled :
    (s : Server) (a : RemediationAction)
    → rollback_enabled a.spec.rollback ≡ false
    → (execute_rollback s a).updates ≡ []
unfolding execute_rollback
execute_rollback_disabled s a h = ground arith
