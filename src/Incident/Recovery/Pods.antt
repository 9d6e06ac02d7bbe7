-- ===== src/Incident/Recovery/Pods.antt =====
-- What the evidence that a pod gives says of it.
use dorgu_operator.Common.{
  ◌∙◌, [], ◌∷◌, ℕ, ◌+◌, ◌≤◌, String, ◌≡◌, ◌≢◌, ◌↔◌, ◌⊎◌, inl, inr, true, false, ◌||◌, none, some,
  ◌++◌, All, arith, Option-cases, List, ◌∷◌, Bool-cases, refl, ◌==◌, eq_iff, ◌&&◌, not, ltb, sym,
  ap, ◌∙◌, subst,
}
use dorgu_operator.Api.{is_true, ConditionStatus, sprintf, word}
use dorgu_operator.Incident.Recovery.{
  recovery_stability_window, is_broken, ContainerStatus, PodCondition, Pod,
  container_recovery_evidence, pod_ready_condition, judge_containers, RecoveryEvidence,
  pod_recovery_evidence, recovered, RecoveryVerdict, verdict_healthy, verdict_unknown,
  verdict_broken, status_eq, healthy,
}

-- The container runs or has ended, and has not restarted within the window.
pub record IsSteady (now : ℕ) (cs : ContainerStatus) : Type 0 where
  pub running : cs.waiting ≡ none
  pub up : (cs.ready || cs.terminated) ≡ true
  pub rested :
      (t : ℕ) (why : String)
      → cs.last_termination ≡ some (t, why)
      → t ≢ 0
      → t + recovery_stability_window ≤ now

-- The pod is there to stay, it has been ready for the window and each of its containers is steady.
pub record IsStable (now : ℕ) (p : Pod) : Type 0 where
  pub stays : p.deleting ≡ false
  pub not_completed : p.phase ≢ "Succeeded"
  pub not_failed : p.phase ≢ "Failed"
  pub ready : PodCondition
  pub first : pod_ready_condition p ≡ some ready
  pub is_ready : ready.status ≡ is_true
  pub held : ready.last_transition_time + recovery_stability_window ≤ now
  pub containers : All (IsSteady now) (p.container_statuses ++ p.init_container_statuses)

-- The pod says nothing of the workload: it is on its way out, or has run to its end.
abbrev pub IsSilent : Pod → Type 0
IsSilent p = (p.deleting ≡ true) ⊎ (p.phase ≡ "Succeeded")

container_iff :
    (now : ℕ) (pod : String) (cs : ContainerStatus)
    → (is_broken (container_recovery_evidence now pod cs) ≡ false) ↔ IsSteady now cs
unfolding container_recovery_evidence
container_iff now pod cs = elim (Option-cases cs.waiting) [
  | inr (reason, w) ↦ (λ h. ground arith, λ s. let r = s.running in ground arith)
  | inl w ↦ elim (Option-cases cs.last_termination) [
    | inl l ↦ (
      λ h. record { running = w; up = ground arith; rested = λ t why e n. ground arith },
      λ s. let u = s.up in ground arith,
    )
    | inr ((t, why), l) ↦ (
      λ h. record { running = w; up = ground arith; rested = λ t' why' e n. ground arith },
      λ s. let u = s.up in let r = s.rested t why l in ground arith,
    )
  ]
]

verdict_cases :
    (v : RecoveryVerdict) → (v ≡ verdict_healthy) ⊎ ((v ≡ verdict_unknown) ⊎ (v ≡ verdict_broken))
verdict_cases verdict_healthy = inl refl
verdict_cases verdict_unknown = inr (inl refl)
verdict_cases verdict_broken = inr (inr refl)

not_broken : (e : RecoveryEvidence) → recovered e ≡ true → is_broken e ≡ false
not_broken e h = elim (verdict_cases e.verdict) [
  | inl v ↦ rw v refl
  | inr (inl v) ↦ rw v refl
  | inr (inr v) ↦ ground arith
]

pub broken_lasts : (e : RecoveryEvidence) → is_broken e ≡ true → recovered e ≡ false
broken_lasts e h = elim (verdict_cases e.verdict) [
  | inl v ↦ ground arith
  | inr (inl v) ↦ rw v refl
  | inr (inr v) ↦ rw v refl
]

containers_iff :
    (now : ℕ) (pod : String) (css : List ContainerStatus) (next : RecoveryEvidence)
    → recovered next ≡ true
    → ((recovered (judge_containers now pod css next) ≡ true) ↔ All (IsSteady now) css)
      × ((is_broken (judge_containers now pod css next) ≡ false) ↔ All (IsSteady now) css)
unfolding judge_containers
containers_iff now pod [] next h = ((λ _. tt, λ _. h), (λ _. tt, λ _. not_broken next h))
containers_iff now pod (cs ∷ css) next h =
    let (to, from) = container_iff now pod cs in
    let ((to_r, from_r), (to_b, from_b)) = containers_iff now pod css next h in
    elim (Bool-cases (is_broken (container_recovery_evidence now pod cs))) [
      | inl b ↦ (
        (λ k. ground (arith, broken_lasts _ b), λ s. let bad = from s.0 in ground arith),
        (λ k. ground arith, λ s. let bad = from s.0 in ground arith),
      )
      | inr b ↦
          rw b ((λ k. (to b, to_r k), λ s. from_r s.1), (λ k. (to b, to_b k), λ s. from_b s.1))
    ]

-- What is known of a pod whose evidence is `e`.
abbrev pub IsJudged : ℕ → Pod → RecoveryEvidence → Type 0
IsJudged now p e =
    ((recovered e ≡ true) ↔ IsStable now p)
    × ((is_broken e ≡ false) ↔ (IsStable now p ⊎ IsSilent p))

IsJudged-broken :
    (now : ℕ) (p : Pod) (e : RecoveryEvidence)
    → is_broken e ≡ true
    → (IsStable now p ⊎ IsSilent p → true ≡ false)
    → IsJudged now p e
IsJudged-broken now p e b refuted = (
  (λ h. let bad = broken_lasts e b in ground arith, λ s. let bad = refuted (inl s) in ground arith),
  (λ h. ground arith, λ s. let bad = refuted s in ground arith),
)

module _ (now : ℕ) (p : Pod) where
  same_status : (s t : ConditionStatus) → (status_eq s t ≡ true) ↔ (s ≡ t)
  same_status s t = (λ h. ground arith, λ h. ground arith)

  silent_not : p.deleting ≡ false → (p.phase == "Succeeded") ≡ false → IsSilent p → true ≡ false
  silent_not stays runs s = ground (arith, eq_iff p.phase "Succeeded")

  IsStable-pod :
      (c : PodCondition)
      → p.deleting ≡ false
      → (p.phase == "Succeeded") ≡ false
      → (p.phase == "Failed") ≡ false
      → pod_ready_condition p ≡ some c
      → (status_eq c.status is_true
          && not (ltb now (c.last_transition_time + recovery_stability_window)))
        ≡ true
      → All (IsSteady now) (p.container_statuses ++ p.init_container_statuses)
      → IsStable now p
  IsStable-pod c stays runs fine first settled containers = record {
    stays = stays;
    not_completed = λ h. ground (arith, eq_iff p.phase "Succeeded");
    not_failed = λ h. ground (arith, eq_iff p.phase "Failed");
    ready = c;
    first = first;
    is_ready = (same_status c.status is_true).0 (ground arith);
    held = ground arith;
    containers = containers;
  }

  ready-IsJudged :
      (c : PodCondition)
      → p.deleting ≡ false
      → (p.phase == "Succeeded") ≡ false
      → (IsSilent p → true ≡ false)
      → (p.phase == "Failed") ≡ false
      → pod_ready_condition p ≡ some c
      → IsJudged now p (pod_recovery_evidence now p)
  unfolding pod_recovery_evidence
  ready-IsJudged c stays runs speaks fine first =
      let due = c.last_transition_time + recovery_stability_window in
      elim (Bool-cases (status_eq c.status is_true && not (ltb now due))) [
        | inr early ↦ IsJudged-broken now p (pod_recovery_evidence now p) (ground arith) (λ s.
            elim s [
              | inl stable ↦
                  (let same : c ≡ stable.ready = ground (arith, stable.first) in
                    let yes = ap (λ (x : PodCondition). x.status) same ∙ stable.is_ready in
                    let held =
                      subst
                        (λ (x : PodCondition).
                          x.last_transition_time + recovery_stability_window ≤ now)
                        (sym same) stable.held in
                    ground (arith, same_status c.status is_true))
              | inr silent ↦ speaks silent
            ])
        | inl settled ↦
            let all = p.container_statuses ++ p.init_container_statuses in
            let stable = healthy (sprintf "pod %s is Ready and stable" (word p.name ∷ [])) in
            let e : pod_recovery_evidence now p ≡ judge_containers now p.name all stable =
              ground arith in
            let ((to_r, from_r), (to_b, from_b)) = containers_iff now p.name all stable refl in
            let whole =
              λ (k : All (IsSteady now) all). IsStable-pod c stays runs fine first settled k in
            (
              (
                λ h. whole (to_r (sym (ap recovered e) ∙ h)),
                λ s. ap recovered e ∙ from_r s.containers,
              ),
              (
                λ h. inl (whole (to_b (sym (ap is_broken e) ∙ h))),
                λ s. elim s [
                  | inl k ↦ ap is_broken e ∙ from_b k.containers
                  | inr silent ↦ let bad = speaks silent in ground arith
                ],
              ),
            )
      ]

  pub pod-IsJudged : IsJudged now p (pod_recovery_evidence now p)
  unfolding pod_recovery_evidence
  pod-IsJudged = elim (Bool-cases p.deleting) [
    | inl gone ↦ (
      (λ h. ground arith, λ s. let stays = s.stays in ground arith),
      (λ h. inr (inl gone), λ s. ground arith),
    )
    | inr stays ↦ elim (Bool-cases (p.phase == "Succeeded")) [
      | inl ended ↦ (
        (
          λ h. ground arith,
          λ s. let n = s.not_completed ((eq_iff p.phase "Succeeded").0 ended) in ground arith,
        ),
        (λ h. inr (inr ((eq_iff p.phase "Succeeded").0 ended)), λ s. ground arith),
      )
      | inr runs ↦
          let speaks = λ (s : IsSilent p). silent_not stays runs s in
          elim (Bool-cases (p.phase == "Failed")) [
            | inl failed ↦ IsJudged-broken now p (pod_recovery_evidence now p) (ground arith) (λ s.
                elim s [
                  | inl stable ↦
                      let n = stable.not_failed ((eq_iff p.phase "Failed").0 failed) in ground arith
                  | inr silent ↦ speaks silent
                ])
            | inr fine ↦ elim (Option-cases (pod_ready_condition p)) [
              | inl unready ↦
                  IsJudged-broken now p (pod_recovery_evidence now p) (ground arith) (λ s. elim s [
                    | inl stable ↦ let f = stable.first in ground arith
                    | inr silent ↦ speaks silent
                  ])
              | inr (c, first) ↦ ready-IsJudged c stays runs speaks fine first
            ]
          ]
    ]
  ]
