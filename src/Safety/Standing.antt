-- ===== src/Safety/Standing.antt =====
-- internal/remediation/safety.go: what the checks on a persona's other remediations establish.
use dorgu_operator.Common.{
  sym, subst, ◌+◌, ◌*◌, ◌≤◌, ltb, ◌⊎◌, Bool-cases, Option-cases, ℕ, ◌<◌, length, filter,
  find-eq-none, ◌≡◌, ◌≢◌, inl, inr, refl, true, false, none, some, List, [], ◌∷◌, Memᴰ, arith, ◌==◌,
  if◌then◌else◌,
}
use dorgu_operator.Api.{Error, Phase, approved, applying, verifying, failed, RemediationAction}
use dorgu_operator.Executor.{found, get_error, Fetched-cases}
use dorgu_operator.Safety.Readings.{ClusterPersona, View, clear}
use dorgu_operator.Safety.RateLimit.{
  get_max_remediations_per_hour, list_persona_actions, list_recent_actions, check_rate_limit,
  check_concurrent, check_failed_cooldown, is_active, rate_of, first_rate, cooling_down, is_failed,
  failed_at, rejected_before_apply,
}

-- The first limit that a ClusterPersona declares, or five.
abbrev pub IsFirstLimit : List ClusterPersona → ℕ → Type 0
IsFirstLimit [] n = n ≡ 5
IsFirstLimit (cp ∷ cps) n =
    ((0 < rate_of cp.policies) × (n ≡ rate_of cp.policies))
    ⊎ ((rate_of cp.policies ≡ 0) × IsFirstLimit cps n)

-- The limit that holds: five where the ClusterPersonas cannot be read.
abbrev pub IsLimit : View → ℕ → Type 0
IsLimit v n =
    ((e : Error) × (v.list_cluster_personas ≡ get_error e) × (n ≡ 5))
    ⊎ ((cps : List ClusterPersona) × (v.list_cluster_personas ≡ found cps) × IsFirstLimit cps n)

first_limit : (cps : List ClusterPersona) → IsFirstLimit cps (first_rate cps)
first_limit [] = refl
first_limit (cp ∷ cps) = elim (Bool-cases (ltb 0 (rate_of cp.policies))) [
  | inl declared ↦ inl (ground arith, ground arith)
  | inr undeclared ↦
      let skipped : first_rate (cp ∷ cps) ≡ first_rate cps = ground arith in
      inr (ground arith, subst (IsFirstLimit cps) (sym skipped) (first_limit cps))
]

limit_lem : (v : View) → IsLimit v (get_max_remediations_per_hour v)
unfolding get_max_remediations_per_hour
limit_lem v = elim (Fetched-cases v.list_cluster_personas) [
  | inl (cps, read) ↦
      inr (cps, read, subst (IsFirstLimit cps) (ground (arith, read)) (first_limit cps))
  | inr (e, unread) ↦ inl (e, unread, ground (arith, unread))
]

-- The remediations that carry the labels of the action's persona.
abbrev pub Lists : View → RemediationAction → List RemediationAction → Type 0
Lists v a others =
    v.list_actions a.spec.persona_ref.kind a.spec.persona_ref.name
      (if a.spec.persona_ref.namespace == "" then none else some a.spec.persona_ref.namespace)
    ≡ found others

listed_lem :
    (v : View) (a : RemediationAction) (others : List RemediationAction)
    → list_persona_actions v a ≡ found others
    → Lists v a others
unfolding list_persona_actions
listed_lem v a others h = ground (arith, h)

-- The persona's other remediations, as a view lists them, leave room for one more.
pub record HasRoom (v : View) (a : RemediationAction) : Type 0 where
  pub others : List RemediationAction
  pub listed : Lists v a others
  pub limit : ℕ
  pub limited : IsLimit v limit
  pub below_rate :
      length (filter (λ b. ltb v.now (b.creation_timestamp + 3600 * 1000000000)) others) < limit

pub check_rate_limit-clear :
    (v : View) (a : RemediationAction) → check_rate_limit v a ≡ clear → HasRoom v a
unfolding check_rate_limit list_recent_actions
check_rate_limit-clear v a h = elim (Fetched-cases (list_persona_actions v a)) [
  | inl (others, listed) ↦ record {
    others = others;
    listed = listed_lem v a others listed;
    limit = get_max_remediations_per_hour v;
    limited = limit_lem v;
    below_rate = ground arith;
  }
  | inr (e, unread) ↦ ground arith
]

-- A remediation that is not under way.
abbrev pub IsIdle : RemediationAction → Type 0
IsIdle b = (b.status.phase ≢ approved) × (b.status.phase ≢ applying) × (b.status.phase ≢ verifying)

inactive-IsIdle : (b : RemediationAction) → is_active b ≡ false → IsIdle b
inactive-IsIdle b h = (λ e. ground arith, λ e. ground arith, λ e. ground arith)

-- None of the persona's other remediations is under way.
pub record IsAlone (v : View) (a : RemediationAction) : Type 0 where
  pub others : List RemediationAction
  pub listed : Lists v a others
  pub idle : (b : RemediationAction) → Memᴰ b others → IsIdle b

pub check_concurrent-clear :
    (v : View) (a : RemediationAction) → check_concurrent v a ≡ clear → IsAlone v a
unfolding check_concurrent
check_concurrent-clear v a h = elim (Fetched-cases (list_persona_actions v a)) [
  | inl (others, listed) ↦ record {
    others = others;
    listed = listed_lem v a others listed;
    idle = λ b m. inactive-IsIdle b (find-eq-none is_active others (ground arith) m);
  }
  | inr (e, unread) ↦ ground arith
]

-- A remediation that has not failed, that was refused before anything was applied, or that failed
-- half an hour ago or more: when it was applied, or else created.
abbrev pub IsCool : ℕ → RemediationAction → Type 0
IsCool now b =
    (b.status.phase ≢ failed)
    ⊎ (rejected_before_apply b ≡ true)
    ⊎ ((b.status.applied_at ≡ none) × (b.creation_timestamp + 1800 * 1000000000 ≤ now))
    ⊎ ((t : ℕ) × (b.status.applied_at ≡ some t) × (t + 1800 * 1000000000 ≤ now))

not_failed : (p : Phase) → is_failed p ≡ false → p ≢ failed
not_failed p h e = ground arith

failed_long_ago :
    (now : ℕ) (b : RemediationAction)
    → ltb now (failed_at b + 1800 * 1000000000) ≡ false
    → IsCool now b
failed_long_ago now b h = elim (Option-cases b.status.applied_at) [
  | inl never ↦ inr (inr (inl (never, ground arith)))
  | inr (t, applied) ↦ inr (inr (inr (t, applied, ground arith)))
]

cooled-IsCool : (now : ℕ) (b : RemediationAction) → cooling_down now b ≡ false → IsCool now b
unfolding cooling_down
cooled-IsCool now b h = elim (Bool-cases (is_failed b.status.phase)) [
  | inr other ↦ inl (not_failed b.status.phase other)
  | inl down ↦ elim (Bool-cases (rejected_before_apply b)) [
    | inl refused ↦ inr (inl refused)
    | inr applied ↦ failed_long_ago now b (ground arith)
  ]
]

-- No failure of the persona's other remediations is within its cooldown.
pub record HasCooled (v : View) (a : RemediationAction) : Type 0 where
  pub others : List RemediationAction
  pub listed : Lists v a others
  pub cooled : (b : RemediationAction) → Memᴰ b others → IsCool v.now b

pub check_failed_cooldown-clear :
    (v : View) (a : RemediationAction) → check_failed_cooldown v a ≡ clear → HasCooled v a
unfolding check_failed_cooldown
check_failed_cooldown-clear v a h = elim (Fetched-cases (list_persona_actions v a)) [
  | inl (others, listed) ↦ record {
    others = others;
    listed = listed_lem v a others listed;
    cooled =
        λ b m. cooled-IsCool v.now b (find-eq-none (cooling_down v.now) others (ground arith) m);
  }
  | inr (e, unread) ↦ ground arith
]
