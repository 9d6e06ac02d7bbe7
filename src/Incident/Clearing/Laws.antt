-- ===== src/Incident/Clearing/Laws.antt =====
-- Which incidents may be closed.
use dorgu_operator.Common.{
  All-map, not, if◌then◌else◌, ltb, ℕ, ◌+◌, ◌≤◌, String, Bool, true, false, ◌≡◌, ◌≢◌, ◌⊎◌, inl, inr,
  some, List, [], ◌∷◌, ◌++◌, All, Memᴰ, contains, arith, Option-cases, eq_iff, find-eq-some, refl,
  find,
}
use dorgu_operator.Executor.{Fetched, found, Fetched-cases}
use dorgu_operator.Incident.{IncidentMemory}
use dorgu_operator.Incident.Recovery.{RecoveryEvidence, recovered, incident_namespace}
use dorgu_operator.Incident.Recovery.Laws.{HasRecovered, recovered_iff}
use dorgu_operator.Incident.Clearing.{
  Cluster, clear_incidents, incident_signal_key, resolution_evidence, resolution_grace_period,
  resolve_cleared, superseded_by_persona, takes_over,
}

-- The incident is unattributed, and another one that is not resolved is attributed to the persona of
-- its workload.
pub record IsSuperseded (c : Cluster) (i : IncidentMemory) : Type 0 where
  pub unattributed : i.spec.attribution ≡ "unattributed"
  pub attributed : List IncidentMemory
  pub listed : c.list_attributed (incident_namespace i) i.spec.persona_ref.name ≡ found attributed
  pub other : IncidentMemory
  pub there : Memᴰ other attributed
  pub is_other : other.name ≢ i.name
  pub unresolved : other.phase ≢ "Resolved"

-- No signal of the incident is up, none was for the grace period, and the cluster shows that the
-- workload has recovered or that another incident follows it.
pub record MayClose (at : ℕ → Cluster) (active : List String) (now : ℕ) (i : IncidentMemory)
    : Type 0 where
  pub silent : contains active (incident_signal_key i) ≡ false
  pub past : i.spec.detection.last_seen + resolution_grace_period ≤ now
  pub n : ℕ
  pub shown : IsSuperseded (at n) i ⊎ HasRecovered (at n).list_pods (at n).list_deployments i now

superseded_lem :
    (c : Cluster) (i : IncidentMemory) (e : RecoveryEvidence)
    → superseded_by_persona c i ≡ some e
    → IsSuperseded c i
unfolding superseded_by_persona
superseded_lem c i e h =
    elim (Fetched-cases (c.list_attributed (incident_namespace i) i.spec.persona_ref.name)) [
      | inr (err, failed) ↦ ground arith
      | inl (attributed, listed) ↦ elim (Option-cases (find (takes_over i) attributed)) [
        | inl nobody ↦ ground arith
        | inr (other, first) ↦
            let (there, takes) = find-eq-some (takes_over i) attributed first in
            record {
              unattributed = ground (arith, eq_iff i.spec.attribution "unattributed");
              attributed = attributed;
              listed = listed;
              other = other;
              there = there;
              is_other = λ same. ground (arith, eq_iff other.name i.name);
              unresolved = λ same. ground (arith, eq_iff other.phase "Resolved");
            }
      ]
    ]

evidence_shown :
    (c : Cluster) (i : IncidentMemory) (now : ℕ)
    → recovered (resolution_evidence c i now) ≡ true
    → IsSuperseded c i ⊎ HasRecovered c.list_pods c.list_deployments i now
unfolding resolution_evidence
evidence_shown c i now h = elim (Option-cases (superseded_by_persona c i)) [
  | inr (e, superseded) ↦ inl (superseded_lem c i e superseded)
  | inl alone ↦ inr ((recovered_iff c.list_pods c.list_deployments i now).0 (ground (arith, alone)))
]

-- One of the two lists, which could both be read, has the incident.
pub record IsListed (list_phase : String → Fetched (List IncidentMemory)) (i : IncidentMemory)
    : Type 0 where
  pub detected : List IncidentMemory
  pub investigating : List IncidentMemory
  pub first : list_phase "Detected" ≡ found detected
  pub second : list_phase "Investigating" ≡ found investigating
  pub there : Memᴰ i (detected ++ investigating)

All-guarded {ℓ κ} :
    {A : Type ℓ} (P : A → Type κ) (up early shows : Bool) (x : A) (rest : List A)
    → All P rest
    → (up ≡ false → early ≡ false → shows ≡ true → P x)
    → All P (if up then rest else if early then rest else if not shows then rest else x ∷ rest)
All-guarded P true early shows x rest h p = h
All-guarded P false true shows x rest h p = h
All-guarded P false false false x rest h p = h
All-guarded P false false true x rest h p = (p refl refl refl, h)

clear_incidents-MayClose :
    (at : ℕ → Cluster) (active : List String) (now n : ℕ) (is : List IncidentMemory)
    → All
        (λ (x : IncidentMemory × RecoveryEvidence). Memᴰ x.0 is × MayClose at active now x.0)
        (clear_incidents at active now n is)
unfolding clear_incidents
clear_incidents-MayClose at active now n [] = tt
clear_incidents-MayClose at active now n (i ∷ is) =
    All-guarded
      (λ (x : IncidentMemory × RecoveryEvidence). Memᴰ x.0 (i ∷ is) × MayClose at active now x.0)
      (contains active (incident_signal_key i))
      (ltb now (i.spec.detection.last_seen + resolution_grace_period))
      (recovered (resolution_evidence (at n) i now)) (i, resolution_evidence (at n) i now)
      (clear_incidents at active now (n + 1) is)
      (All-map (λ x h. (Memᴰ.tail h.0, h.1)) (clear_incidents at active now (n + 1) is)
        (clear_incidents-MayClose at active now (n + 1) is))
      (λ up early shows. (
        Memᴰ.head refl,
        record {
          silent = up;
          past = ground arith;
          n = n;
          shown = evidence_shown (at n) i now shows;
        },
      ))

-- Every incident that a cycle closes was listed as Detected or Investigating; no signal of it is up
-- and none was for the grace period; and either the cluster shows that its workload has recovered,
-- or another incident that is not resolved is attributed to that workload's persona. Where a list
-- of incidents cannot be read, the cycle closes none.
pub resolve_cleared-MayClose :
    (list_phase : String → Fetched (List IncidentMemory)) (at : ℕ → Cluster) (active : List String)
    (now : ℕ)
    → All
        (λ (x : IncidentMemory × RecoveryEvidence).
          IsListed list_phase x.0 × MayClose at active now x.0)
        (resolve_cleared list_phase at active now).1
unfolding resolve_cleared
resolve_cleared-MayClose list_phase at active now = elim (Fetched-cases (list_phase "Detected")) [
  | inr (e, failed) ↦ rw (failed, resolve_cleared) tt
  | inl (detected, first) ↦ elim (Fetched-cases (list_phase "Investigating")) [
    | inr (e, failed) ↦ rw (first, failed, resolve_cleared) tt
    | inl (investigating, second) ↦
        rw (first, second, resolve_cleared)
          (All-map
            (λ x h. (
              record {
                detected = detected;
                investigating = investigating;
                first = first;
                second = second;
                there = h.0;
              },
              h.1,
            ))
            (clear_incidents at active now 0 (detected ++ investigating))
            (clear_incidents-MayClose at active now 0 (detected ++ investigating)))
  ]
]
