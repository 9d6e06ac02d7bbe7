-- ===== src/Steps/Command.antt =====
-- What a suggested command that SanitizeStepCommand lets through looks like.
use Prim.Native.String.{len}
use dorgu_operator.Common.{
  ◌≤◌, String, ◌≡◌, ◌⊎◌, inl, inr, refl, Bool, true, false, ◌&&◌, not, ◌==◌, eq_iff, arith,
  Bool-cases, ◌∙◌, ap,
}
use dorgu_operator.Common.Text.{
  is_space, trim_left, trim_right, trim_space, has_prefix, contains_any,
}
use dorgu_operator.Steps.{
  sanitize_step_command, max_step_command_length, step_command_prefix, step_command_forbidden,
}

-- The text is empty, or begins with a character that is no space.
abbrev starts_plain : String → Bool
starts_plain String.[] = true
starts_plain (String.◌∷◌ c s) = not (is_space c)

trim_left-starts_plain : (s : String) → starts_plain (trim_left s) ≡ true
unfolding trim_left
trim_left-starts_plain String.[] = refl
trim_left-starts_plain (String.◌∷◌ c s) = elim (Bool-cases (is_space c)) [
  | inl space ↦ rw space (trim_left-starts_plain s)
  | inr plain ↦ rw plain (rw plain)
]

trim_left_plain : (s : String) → starts_plain s ≡ true → trim_left s ≡ s
unfolding trim_left
trim_left_plain String.[] h = refl
trim_left_plain (String.◌∷◌ c s) h = elim (Bool-cases (is_space c)) [
  | inl space ↦ ground arith
  | inr plain ↦ rw plain
]

trim_right-starts_plain : (s : String) → starts_plain s ≡ true → starts_plain (trim_right s) ≡ true
unfolding trim_right
trim_right-starts_plain String.[] h = refl
trim_right-starts_plain (String.◌∷◌ c s) h = ground arith

trim_right_idem : (s : String) → trim_right (trim_right s) ≡ trim_right s
unfolding trim_right
trim_right_idem String.[] = refl
trim_right_idem (String.◌∷◌ c s) = elim (Bool-cases (is_space c && trim_right s == "")) [
  | inl blank ↦ rw blank refl
  | inr kept ↦ rw kept (rw (trim_right_idem s, kept) refl)
]

trim_space_idem : (s : String) → trim_space (trim_space s) ≡ trim_space s
unfolding trim_space
trim_space_idem s =
    let plain = trim_right-starts_plain (trim_left s) (trim_left-starts_plain s) in
    ap trim_right (trim_left_plain (trim_right (trim_left s)) plain) ∙ trim_right_idem (trim_left s)

-- A command that passed: one kubectl invocation with neither a shell metacharacter nor a line
-- break, within the length, and with no space around it.
pub record IsSafeCommand (s : String) : Type 0 where
  pub short : len s ≤ max_step_command_length
  pub kubectl : has_prefix s step_command_prefix ≡ true
  pub no_metacharacter : contains_any s step_command_forbidden ≡ false
  pub trimmed : trim_space s ≡ s

-- SanitizeStepCommand returns nothing, or the trimmed command, and then a safe one.
pub sanitize_step_command_cases :
    (cmd : String)
    → (sanitize_step_command cmd ≡ "")
      ⊎ ((sanitize_step_command cmd ≡ trim_space cmd) × IsSafeCommand (sanitize_step_command cmd))
unfolding sanitize_step_command
sanitize_step_command_cases cmd = ground (arith, trim_space_idem cmd)

-- A safe command is let through as it is.
pub sanitize_step_command-safe : (s : String) → IsSafeCommand s → sanitize_step_command s ≡ s
unfolding sanitize_step_command
sanitize_step_command-safe s safe = rw safe.trimmed (ground (arith, eq_iff s ""))

sanitize_empty : sanitize_step_command "" ≡ ""
unfolding sanitize_step_command trim_space
sanitize_empty = refl

-- Sanitizing a command a second time changes nothing.
pub sanitize_step_command_idem :
    (cmd : String) → sanitize_step_command (sanitize_step_command cmd) ≡ sanitize_step_command cmd
sanitize_step_command_idem cmd = elim (sanitize_step_command_cases cmd) [
  | inl dropped ↦ rw dropped sanitize_empty
  | inr (_, safe) ↦ sanitize_step_command-safe _ safe
]
