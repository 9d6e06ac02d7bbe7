-- ===== src/Incident/Cycle/Laws.antt =====
-- What a cycle closes and counts.
use dorgu_operator.Common.{
  ℕ, ◌+◌, true, ◌≡◌, arith, some, List, [], ◌∷◌, All, All-map, Memᴰ, contains, contains-append,
  eq_iff, subst,
}
use dorgu_operator.Detection.{Signal}
use dorgu_operator.Detection.Grouping.{SignalGroup, group_signals}
use dorgu_operator.Diagnosis.{Diagnosis}
use dorgu_operator.Executor.{Fetched, found}
use dorgu_operator.Incident.{IncidentMemory}
use dorgu_operator.Incident.Recovery.{RecoveryEvidence}
use dorgu_operator.Incident.Clearing.Laws.{resolve_cleared-MayClose}
use dorgu_operator.Incident.Subject.{IncidentSubject, incident_subject_for, signal_key}
use dorgu_operator.Incident.Access.{Access}
use dorgu_operator.Incident.Filing.Laws.{IsFor}
use dorgu_operator.Incident.Filing.Again.{signal_key-IsFor}
use dorgu_operator.Incident.Cycle.{
  CycleInput, process_diagnoses, process_group, process_groups, diagnosed, closed_by,
}

diagnoses-active :
    (at : ℕ → Access) (n : ℕ) (s : IncidentSubject) (ds : List Diagnosis) {d : Diagnosis}
    → Memᴰ d ds
    → contains (process_diagnoses at n s ds).active (signal_key s d) ≡ true
unfolding process_diagnoses
diagnoses-active at n s [] m = elim m [ ]
diagnoses-active at n s (c ∷ ds) {d} (Memᴰ.head e) =
    rw e (ground (arith, eq_iff (signal_key s c) (signal_key s c)))
diagnoses-active at n s (c ∷ ds) {d} (Memᴰ.tail m) =
    ground (arith, diagnoses-active at (n + 1) s ds m)

-- A diagnosis of a group, for the subject of that group.
pub record IsDiagnosed (analyze : List Signal → Fetched (List Diagnosis)) (gs : List SignalGroup)
    (s : IncidentSubject) (d : Diagnosis) : Type 0 where
  pub group : SignalGroup
  pub there : Memᴰ group gs
  pub diagnoses : List Diagnosis
  pub analyzed : analyze group.signals ≡ found diagnoses
  pub is_one : Memᴰ d diagnoses
  pub subject : incident_subject_for group ≡ some s

group-active :
    (analyze : List Signal → Fetched (List Diagnosis)) (at : ℕ → Access) (n : ℕ) (g : SignalGroup)
    (s : IncidentSubject) (d : Diagnosis) (ds : List Diagnosis)
    → analyze g.signals ≡ found ds
    → incident_subject_for g ≡ some s
    → Memᴰ d ds
    → contains (process_group analyze at n g).active (signal_key s d) ≡ true
unfolding process_group
group-active analyze at n g s d ds a b m = rw (a, b, process_group) (diagnoses-active at n s ds m)

listed-active :
    (analyze : List Signal → Fetched (List Diagnosis)) (at : ℕ → Access) (n : ℕ)
    (gs : List SignalGroup) (s : IncidentSubject) (d : Diagnosis) (g : SignalGroup)
    → Memᴰ g gs
    → ((k : ℕ) → contains (process_group analyze at k g).active (signal_key s d) ≡ true)
    → contains (process_groups analyze at n gs).active (signal_key s d) ≡ true
unfolding process_groups
listed-active analyze at n [] s d g m here = elim m [ ]
listed-active analyze at n (f ∷ gs) s d g m here =
    let first = process_group analyze at n f in
    let rest = process_groups analyze at (n + first.attempted) gs in
    let both = contains-append first.active rest.active (signal_key s d) in
    elim m [
      | Memᴰ.head e ↦
          let own : contains first.active (signal_key s d) ≡ true =
            subst
              (λ (x : SignalGroup).
                contains (process_group analyze at n x).active (signal_key s d) ≡ true)
              e (here n) in
          ground arith
      | Memᴰ.tail k ↦
          let later = listed-active analyze at (n + first.attempted) gs s d g k here in ground arith
    ]

groups-active :
    (analyze : List Signal → Fetched (List Diagnosis)) (at : ℕ → Access) (n : ℕ)
    (gs : List SignalGroup) (s : IncidentSubject) (d : Diagnosis)
    → IsDiagnosed analyze gs s d
    → contains (process_groups analyze at n gs).active (signal_key s d) ≡ true
groups-active analyze at n gs s d h =
    listed-active analyze at n gs s d h.group h.there
      (λ k. group-active analyze at k h.group s d h.diagnoses h.analyzed h.subject h.is_one)

-- No incident that a cycle closes is the record of a diagnosis that the same cycle made of a group
-- with a subject, whether or not that diagnosis could be written.
pub closed_by-not_diagnosed :
    (c : CycleInput) (signals : List Signal) (s : IncidentSubject) (d : Diagnosis)
    → IsDiagnosed c.analyze (group_signals signals) s d
    → All (λ (x : IncidentMemory × RecoveryEvidence). ¬ IsFor s d x.0) (closed_by c signals)
unfolding closed_by
closed_by-not_diagnosed c signals s d h =
    All-map
      (λ x may same. ground (
        arith,
        groups-active c.analyze c.filing 0 (group_signals signals) s d h,
        may.1.silent,
        signal_key-IsFor s d x.0 same,
      ))
      (closed_by c signals)
      (resolve_cleared-MayClose c.list_phase c.cluster (diagnosed c signals).active c.now)
