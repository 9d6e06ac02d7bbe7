-- ===== src/Safety/RateLimit.antt =====
-- The checks on a persona's other remediations: the hourly limit, one at a time, and the cooldown
-- after a failure. An interval is compared by its end: time.Since(t) < d is now < t + d.
use dorgu_operator.Common.{
  ℕ, ◌+◌, ◌*◌, ltb, leb, String, Bool, true, false, ◌&&◌, not, Option, none, some, List, [], ◌∷◌,
  length, filter, find, any, is_some, ◌==◌, if◌then◌else◌,
}
use dorgu_operator.Api.{
  word, num, wrap, Message, sprintf, Phase, approved, applying, verifying, failed, Condition,
  RemediationAction,
}
use dorgu_operator.Executor.{Fetched, found, get_error}
use dorgu_operator.Safety.Readings.{
  View, ClusterPersona, ClusterPolicies, Verdict, clear, violated, check_error,
}

abbrev pub hour : ℕ
hour = 3600 * 1000000000

abbrev pub failed_cooldown : ℕ
failed_cooldown = 1800 * 1000000000

abbrev pub default_max_remediations_per_hour : ℕ
default_max_remediations_per_hour = 5

abbrev pub rate_of : Option ClusterPolicies → ℕ
rate_of none = 0
rate_of (some p) = elim p.self_healing [ none ↦ 0 | some h ↦ h.max_remediations_per_hour ]

abbrev pub first_rate : List ClusterPersona → ℕ
first_rate [] = default_max_remediations_per_hour
first_rate (cp ∷ cps) =
    let rest = first_rate cps in if ltb 0 (rate_of cp.policies) then rate_of cp.policies else rest

unfoldable pub get_max_remediations_per_hour : View → ℕ
get_max_remediations_per_hour v = elim v.list_cluster_personas [
  | get_error _ ↦ default_max_remediations_per_hour
  | found cps ↦ first_rate cps
]

unfoldable pub list_persona_actions : View → RemediationAction → Fetched (List RemediationAction)
list_persona_actions v a =
    let ref = a.spec.persona_ref in
    elim (v.list_actions ref.kind ref.name
      (if ref.namespace == "" then none else some ref.namespace)) [
        | get_error e ↦ get_error (wrap "listing RemediationActions: %w" [] e)
        | found actions ↦ found actions
      ]

abbrev pub created_after : ℕ → ℕ → RemediationAction → Bool
created_after now window a = ltb now (a.creation_timestamp + window)

unfoldable pub list_recent_actions : View → RemediationAction → ℕ → Fetched (List RemediationAction)
list_recent_actions v a window = elim (list_persona_actions v a) [
  | get_error e ↦ get_error e
  | found actions ↦ found (filter (created_after v.now window) actions)
]

abbrev violation : String → Message → Verdict
violation rule message = violated record { rule = rule; message = message; blast_radius = none }

unfoldable pub check_rate_limit : View → RemediationAction → Verdict
check_rate_limit v a =
    let most = get_max_remediations_per_hour v in
    elim (list_recent_actions v a hour) [
      | get_error e ↦ check_error e
      | found existing ↦
          if leb most (length existing)
          then violation "rate-limit" (
              sprintf "rate limit exceeded: %d remediations for persona %s/%s in last hour (max %d)"
                (num (length existing)
                  ∷ word a.spec.persona_ref.namespace
                  ∷ word a.spec.persona_ref.name
                  ∷ num most
                  ∷ []))
          else clear
    ]

abbrev pub is_active : RemediationAction → Bool
is_active a = elim a.status.phase [
  | approved ↦ true
  | applying ↦ true
  | verifying ↦ true
  | _ ↦ false
]

abbrev phase_text : Phase → String
phase_text approved = "Approved"
phase_text applying = "Applying"
phase_text verifying = "Verifying"
phase_text _ = ""

unfoldable pub check_concurrent : View → RemediationAction → Verdict
check_concurrent v a = elim (list_persona_actions v a) [
  | get_error e ↦ check_error e
  | found actions ↦ elim (find is_active actions) [
    | none ↦ clear
    | some b ↦ violation "concurrent" (
        sprintf "concurrent remediation %s is in phase %s for persona %s/%s" (
          word b.name
          ∷ word (phase_text b.status.phase)
          ∷ word a.spec.persona_ref.namespace
          ∷ word a.spec.persona_ref.name
          ∷ []))
  ]
]

abbrev pub refused_by : Condition → Bool
refused_by c = c.type == "Applied" && c.reason == "PreconditionRejected"

unfoldable pub rejected_before_apply : RemediationAction → Bool
rejected_before_apply a = not (is_some a.status.applied_at) && any refused_by a.status.conditions

abbrev pub failed_at : RemediationAction → ℕ
failed_at a = elim a.status.applied_at [ none ↦ a.creation_timestamp | some t ↦ t ]

abbrev pub is_failed : Phase → Bool
is_failed failed = true
is_failed _ = false

unfoldable pub cooling_down : ℕ → RemediationAction → Bool
cooling_down now b =
    is_failed b.status.phase
    && not (rejected_before_apply b)
    && ltb now (failed_at b + failed_cooldown)

unfoldable pub check_failed_cooldown : View → RemediationAction → Verdict
check_failed_cooldown v a = elim (list_persona_actions v a) [
  | get_error e ↦ check_error e
  | found actions ↦ elim (find (cooling_down v.now) actions) [
    | none ↦ clear
    | some b ↦ violation "rate-limit" (
        sprintf "failed remediation %s within %s cooldown period for persona %s/%s" (
          word b.name
          ∷ word "30m0s"
          ∷ word a.spec.persona_ref.namespace
          ∷ word a.spec.persona_ref.name
          ∷ []))
  ]
]
