-- ===== src/Incident/Recovery/Laws.antt =====
-- When the cluster is taken to show that an incident is over.
use dorgu_operator.Common.{
  ◌∙◌, sym, ap, ℕ, ◌+◌, String, ◌≡◌, ◌≢◌, ◌↔◌, ◌⊎◌, inl, inr, refl, true, false, List, [], ◌∷◌, All,
  Memᴰ, ◌==◌, eq_iff, arith, Bool-cases, eqb, if◌then◌else◌, subst,
}
use dorgu_operator.Executor.{Fetched, found, Fetched-cases}
use dorgu_operator.Incident.{IncidentMemory}
use dorgu_operator.Workload.{Deployment}
use dorgu_operator.Workload.Match.{Rung, Resolved, ambiguous, unfound, resolved, resolve}
use dorgu_operator.Incident.Recovery.{
  RecoveryEvidence, recovered, is_broken, Pod, pod_recovery_evidence, ruled_out, confirmed,
  judge_pods, verify_recovery, verify_absent_workload, incident_namespace, own_pods, workload_pods,
  desired_replicas, Rung, not_positive,
}
use dorgu_operator.Incident.Recovery.Pods.{IsStable, IsSilent, pod-IsJudged, broken_lasts}

-- The workload is gone, or wants no replica.
pub data IsAtRest (i : IncidentMemory) (ds : List Deployment) : Type 0 where
  gone : resolve ds i.spec.persona_ref.name ≡ unfound → IsAtRest i ds
  idle :
      (d : Deployment) (r : Rung)
      → resolve ds i.spec.persona_ref.name ≡ resolved d r
      → not_positive (desired_replicas d) ≡ true
      → IsAtRest i ds

resolved_cases :
    (x : Resolved)
    → (x ≡ unfound)
      ⊎ (((d : Deployment) × (r : Rung) × (x ≡ resolved d r))
          ⊎ ((r : Rung) × (names : List String) × (x ≡ ambiguous r names)))
resolved_cases unfound = inl refl
resolved_cases (resolved d r) = inr (inl (d, r, refl))
resolved_cases (ambiguous r names) = inr (inr (r, names, refl))

at_rest :
    (i : IncidentMemory) (ns : String) (list_deployments : String → Fetched (List Deployment))
    (ds : List Deployment)
    → list_deployments ns ≡ found ds
    → IsAtRest i ds
    → recovered (verify_absent_workload i ns list_deployments) ≡ true
unfolding verify_absent_workload
at_rest i ns list_deployments ds answer (gone missing) = ground arith
at_rest i ns list_deployments ds answer (idle d r one zero) = ground arith

absent_iff :
    (i : IncidentMemory) (ns : String) (list_deployments : String → Fetched (List Deployment))
    → (recovered (verify_absent_workload i ns list_deployments) ≡ true)
      ↔ (ds : List Deployment) × (list_deployments ns ≡ found ds) × IsAtRest i ds
unfolding verify_absent_workload
absent_iff i ns list_deployments = elim (Fetched-cases (list_deployments ns)) [
  | inr (e, failed) ↦ (λ h. ground arith, λ h. let answer = h.1 in ground arith)
  | inl (ds, answer) ↦ elim (resolved_cases (resolve ds i.spec.persona_ref.name)) [
    | inl missing ↦
        (λ h. (ds, answer, gone missing), λ h. at_rest i ns list_deployments h.0 h.1 h.2)
    | inr (inl (d, r, one)) ↦ (
      λ h. (ds, answer, idle d r one (ground arith)),
      λ h. at_rest i ns list_deployments h.0 h.1 h.2,
    )
    | inr (inr (r, names, several)) ↦
        (λ h. ground arith, λ h. at_rest i ns list_deployments h.0 h.1 h.2)
  ]
]

abbrev IsStableAmong : ℕ → List Pod → Type 0
IsStableAmong now ps = (p : Pod) × Memᴰ p ps × IsStable now p

-- Every pod of the list is stable or silent, and what counts the stable ones says whether there is
-- one.
record IsConfirmed (now count k : ℕ) (ps : List Pod) : Type 0 where
  sound : All (λ p. IsStable now p ⊎ IsSilent p) ps
  counted : (eqb k 0 ≡ false) ↔ ((eqb count 0 ≡ false) ⊎ IsStableAmong now ps)

counted_cons :
    (now count k : ℕ) (p : Pod) (ps : List Pod)
    → (eqb k 0 ≡ false) ↔ (
        (eqb (if recovered (pod_recovery_evidence now p) then count + 1 else count) 0 ≡ false)
        ⊎ IsStableAmong now ps)
    → (eqb k 0 ≡ false) ↔ ((eqb count 0 ≡ false) ⊎ IsStableAmong now (p ∷ ps))
counted_cons now count k p ps (to, from) =
    let (to_r, from_r) = (pod-IsJudged now p).0 in
    (
      λ h. elim (to h) [
        | inl n ↦ elim (Bool-cases (recovered (pod_recovery_evidence now p))) [
          | inl r ↦ inr (p, Memᴰ.head refl, to_r r)
          | inr r ↦ inl (ground arith)
        ]
        | inr (q, m, s) ↦ inr (q, Memᴰ.tail m, s)
      ],
      λ h. elim h [
        | inl n ↦ from (inl (ground arith))
        | inr (q, Memᴰ.head e, s) ↦
            let r = from_r (subst (IsStable now) e s) in from (inl (ground arith))
        | inr (q, Memᴰ.tail m, s) ↦ from (inr (q, m, s))
      ],
    )

judge_pods_cases :
    (now count : ℕ) (ps : List Pod)
    → ((k : ℕ) × (judge_pods now count ps ≡ confirmed k) × IsConfirmed now count k ps)
      ⊎ ((e : RecoveryEvidence) × (judge_pods now count ps ≡ ruled_out e)
          × (recovered e ≡ false)
          × (All (λ p. IsStable now p ⊎ IsSilent p) ps → true ≡ false))
unfolding judge_pods
judge_pods_cases now count [] = inl (
  count,
  refl,
  record {
    sound = tt;
    counted = (λ h. inl h, λ h. elim h [ inl c ↦ c | inr (p, m, s) ↦ elim m [ ] ]);
  },
)
judge_pods_cases now count (p ∷ ps) =
    let evidence = pod_recovery_evidence now p in
    let ((to_r, from_r), (to_b, from_b)) = pod-IsJudged now p in
    elim (Bool-cases (is_broken evidence)) [
      | inl bad ↦ inr (
        evidence,
        rw bad refl,
        broken_lasts evidence bad,
        λ all. let fine = from_b all.0 in ground arith,
      )
      | inr fine ↦
          elim (judge_pods_cases now (if recovered evidence then count + 1 else count) ps) [
            | inl (k, e, c) ↦ inl (
              k,
              rw fine e,
              record {
                sound = (to_b fine, c.sound);
                counted = counted_cons now count k p ps c.counted;
              },
            )
            | inr (v, e, fails, refuted) ↦ inr (v, rw fine e, fails, λ all. refuted all.1)
          ]
    ]

-- What the workload's own pods show, and the Deployments where no pod is stable.
abbrev Shows : (String → Fetched (List Deployment)) → IncidentMemory → ℕ → List Pod → Type 0
Shows list_deployments i now pods =
    All (λ p. IsStable now p ⊎ IsSilent p) (own_pods i (incident_namespace i) pods)
    × (IsStableAmong now (own_pods i (incident_namespace i) pods)
        ⊎ ((ds : List Deployment) × (list_deployments (incident_namespace i) ≡ found ds)
            × IsAtRest i ds))

judged_iff :
    (list_pods : String → Fetched (List Pod))
    (list_deployments : String → Fetched (List Deployment)) (i : IncidentMemory) (now : ℕ)
    (pods : List Pod)
    → (incident_namespace i == "") ≡ false
    → list_pods (incident_namespace i) ≡ found pods
    → (recovered (verify_recovery list_pods list_deployments i now) ≡ true)
      ↔ Shows list_deployments i now pods
unfolding verify_recovery workload_pods
judged_iff list_pods list_deployments i now pods placed listed =
    let ns = incident_namespace i in
    let evidence = verify_recovery list_pods list_deployments i now in
    elim (judge_pods_cases now 0 (own_pods i ns pods)) [
      | inr (v, e, fails, refuted) ↦ (λ h. ground arith, λ h. let bad = refuted h.0 in ground arith)
      | inl (k, e, c) ↦ elim (Bool-cases (eqb k 0)) [
        | inl none_stable ↦
            let at_rest = absent_iff i ns list_deployments in
            let same : evidence ≡ verify_absent_workload i ns list_deployments = ground arith in
            (
              λ h. (c.sound, inr (at_rest.0 (sym (ap recovered same) ∙ h))),
              λ h. elim h.1 [
                | inl stable ↦ let bad = c.counted.1 (inr stable) in ground arith
                | inr over ↦ ap recovered same ∙ at_rest.1 over
              ],
            )
        | inr some_stable ↦ (
          λ h. (
            c.sound,
            elim (c.counted.0 some_stable) [ inl zero ↦ ground arith | inr stable ↦ inl stable ],
          ),
          λ h. ground arith,
        )
      ]
    ]

-- The pods could be listed and none of the workload's own speaks against recovery; and one of them
-- is stable, or the Deployments could be listed and the workload is at rest.
pub record HasRecovered (list_pods : String → Fetched (List Pod))
    (list_deployments : String → Fetched (List Deployment)) (i : IncidentMemory) (now : ℕ)
    : Type 0 where
  pub placed : incident_namespace i ≢ ""
  pub pods : List Pod
  pub listed : list_pods (incident_namespace i) ≡ found pods
  pub sound : All (λ p. IsStable now p ⊎ IsSilent p) (own_pods i (incident_namespace i) pods)
  pub over :
      IsStableAmong now (own_pods i (incident_namespace i) pods)
      ⊎ ((ds : List Deployment) × (list_deployments (incident_namespace i) ≡ found ds)
          × IsAtRest i ds)

-- An incident is taken to be over exactly when its namespace is known, the pods could be listed,
-- each of the workload's own is stable or silent, and either one of them is stable, or the
-- Deployments could be listed and the workload has none or wants no replica.
pub recovered_iff :
    (list_pods : String → Fetched (List Pod))
    (list_deployments : String → Fetched (List Deployment)) (i : IncidentMemory) (now : ℕ)
    → (recovered (verify_recovery list_pods list_deployments i now) ≡ true)
      ↔ HasRecovered list_pods list_deployments i now
unfolding verify_recovery workload_pods
recovered_iff list_pods list_deployments i now =
    let ns = incident_namespace i in
    elim (Bool-cases (ns == "")) [
      | inl nowhere ↦ (
        λ h. ground arith,
        λ h. let p = h.placed in ground (arith, eq_iff (incident_namespace i) ""),
      )
      | inr placed ↦ elim (Fetched-cases (list_pods ns)) [
        | inr (e, failed) ↦ (λ h. ground arith, λ h. let l = h.listed in ground arith)
        | inl (pods, listed) ↦
            let (to, from) = judged_iff list_pods list_deployments i now pods placed listed in
            (
              λ h.
                  let (sound, over) = to h in
                  record {
                    placed = λ e. ground (arith, eq_iff (incident_namespace i) "");
                    pods = pods;
                    listed = listed;
                    sound = sound;
                    over = over;
                  },
              λ h.
                  let same : h.pods ≡ pods = ground (arith, h.listed) in
                  from (subst (Shows list_deployments i now) same (h.sound, h.over)),
            )
      ]
    ]
