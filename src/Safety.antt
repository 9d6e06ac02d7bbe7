-- ===== src/Safety.antt =====
-- internal/remediation/safety.go: whether a proposed remediation may be created at all.
pub mod Readings
pub mod RateLimit
pub mod BlastRadius
pub mod DenyList
pub mod Standing
pub mod Laws
pub mod Cooldown
use dorgu_operator.Common.{
  ℕ, String, Bool, true, false, Option, none, some, List, [], ◌∷◌, ◌++◌, ◌==◌, if◌then◌else◌,
}
use dorgu_operator.Api.{Error, wrap, RemediationAction}
use dorgu_operator.Executor.{Fetched, found, get_error}
use Readings.{View, Quantities, SafetyViolation, Verdict, clear, violated, check_error}
use RateLimit.{check_rate_limit, check_concurrent, check_failed_cooldown}
use BlastRadius.{check_blast_radius}
use DenyList.{check_deny_list}

pub record SafetyResult : Type 0 where
  pub allowed : Bool
  pub violations : List SafetyViolation

abbrev is_empty_list : List SafetyViolation → Bool
is_empty_list [] = true
is_empty_list (_ ∷ _) = false

abbrev as_list : Option SafetyViolation → List SafetyViolation
as_list none = []
as_list (some v) = v ∷ []

-- A check that can fail, and the rest of Check over the violations gathered so far.
abbrev then_check :
    String
    → Verdict
    → List SafetyViolation
    → (List SafetyViolation → Fetched SafetyResult)
    → Fetched SafetyResult
then_check label (check_error e) vs rest = get_error (wrap label [] e)
then_check label clear vs rest = rest vs
then_check label (violated v) vs rest = rest (vs ++ v ∷ [])

-- The checks that cannot fail, and the verdict.
unfoldable pub finish_check :
    List String
    → Quantities
    → (ℕ → View)
    → RemediationAction
    → List SafetyViolation
    → Fetched SafetyResult
finish_check protected q at a vs =
    let all =
      (vs ++ check_blast_radius q a) ++ as_list (check_deny_list (some protected) (at 3) a) in
    found record { allowed = is_empty_list all; violations = all }

-- SafetyCheckerImpl.Check. Its checks read the cluster one after the other, and the cluster may
-- change in between: `at 0` to `at 3` are what the four that read it see.
unfoldable pub check :
    List String → Quantities → (ℕ → View) → RemediationAction → Fetched SafetyResult
check protected q at a = then_check "checking rate limit: %w" (check_rate_limit (at 0) a) [] λ vs.
    then_check "checking concurrent: %w" (check_concurrent (at 1) a) vs λ ws.
      then_check "checking failed cooldown: %w" (check_failed_cooldown (at 2) a) ws
        (finish_check protected q at a)
