-- ===== src/Incident/Filing/Sending.antt =====
-- What may be sent for one diagnosis: a property that every kind of request has holds of everything
-- that processDiagnosis sends.
use dorgu_operator.Common.{
  ℕ, suc, String, Bool, true, false, ◌≡◌, ◌≢◌, refl, Option, none, some, Option-cases, Bool-cases,
  List, [], ◌∷◌, ◌++◌, All, All-append, inl, inr, if◌then◌else◌, map, arith, eq_iff, ◌==◌, not,
  ◌&&◌, ◌||◌,
}
use dorgu_operator.Api.{RemediationAction}
use dorgu_operator.Diagnosis.{Diagnosis, ContributingSignal}
use dorgu_operator.Events.{InternalEvent}
use dorgu_operator.Executor.{found, Fetched-cases}
use dorgu_operator.Incident.{IncidentMemory}
use dorgu_operator.Incident.Subject.{IncidentSubject}
use dorgu_operator.Incident.Diagnosed.{apply_diagnosis_to_spec}
use dorgu_operator.Incident.Access.{
  Access, Written, Sent, created, updated, status_updated, stored, emitted, incident_broadcast,
  proposed, remediation_broadcast, IncidentEvent, recording_cause, recording_count, initial_status,
  adopting,
}
use dorgu_operator.Incident.Reports.{broadcast_creation, store_signal_events, emit_k8s_events}
use dorgu_operator.Incident.Writes.{
  counted, retry_incident_write, status_write, update_existing_incident,
}
use dorgu_operator.Incident.Writes.Retrying.{
  IsRetrying, retry_keeps, retry_keeps_from, SentAll, All-snoc, fetching-SentAll,
  or_discard-SentAll, update_existing-SentAll,
}
use dorgu_operator.Incident.Filing.{
  new_incident, begun, set_initial_status, adopt, announce_creation, creating, create_incident,
  propose_remediation, find_matching_incident, found_again, proposing, process_diagnosis,
  send_proposal,
}
use dorgu_operator.Rejection.{rejection_suppresses_proposal}

-- When a proposal may be made: the subject is attributed, a proposer is there, an incident was
-- found and is not resolved, and the history of rejections could be read and does not speak against it.
pub record MayPropose (acc : Access) (s : IncidentSubject) (d : Diagnosis) (i : IncidentMemory)
    : Type 0 where
  pub is_attributed : s.is_unattributed ≡ false
  pub configured : acc.has_proposer ≡ true
  pub unresolved : i.phase ≢ "Resolved"
  pub known : (n : ℕ) × (j : IncidentMemory) × (find_matching_incident acc n s d ≡ found (some j))
  pub unrejected : rejection_suppresses_proposal acc.now acc.list_actions d (some i) ≡ found none

-- What each kind of request is about, for a property of requests.
pub record Allows (P : Sent → Type 0) (acc : Access) (s : IncidentSubject) (d : Diagnosis)
    : Type 0 where
  pub creates : find_matching_incident acc 0 s d ≡ found none → P (created (new_incident acc s d))
  pub begins :
      acc.create_incident (new_incident acc s d) ≡ none
      → P (status_updated (begun acc.now (new_incident acc s d)))
  pub begins_again :
      acc.create_incident (new_incident acc s d) ≡ none
      → (n : ℕ) (ns name : String) (i : IncidentMemory)
      → acc.get_incident initial_status n ns name ≡ found i
      → P (status_updated (begun acc.now i))
  pub causes :
      (n : ℕ) (ns name : String) (i : IncidentMemory)
      → acc.get_incident recording_cause n ns name ≡ found i
      → P (updated (apply_diagnosis_to_spec acc.decimals i s d acc.now))
  pub counts :
      (n : ℕ) (ns name : String) (i : IncidentMemory)
      → acc.get_incident recording_count n ns name ≡ found i
      → P (status_updated (counted acc.now i))
  pub stores : (e : InternalEvent) → P (stored e)
  pub emits : (e : InternalEvent) → P (emitted e)
  pub broadcasts : (e : IncidentEvent) → P (incident_broadcast e)
  pub proposes : (i : IncidentMemory) → MayPropose acc s d i → P (proposed d i)
  pub announces : (a : RemediationAction) → P (remediation_broadcast a)

All-if {κ} : (P : Sent → Type κ) (b : Bool) (r : Sent) → P r → All P (if b then r ∷ [] else [])
All-if P true r h = (h, tt)
All-if P false r h = tt

All-of-map {κ} :
    (P : Sent → Type κ) (f : ContributingSignal → Sent)
    → ((c : ContributingSignal) → P (f c))
    → (cs : List ContributingSignal) → All P (map f cs)
All-of-map P f h [] = tt
All-of-map P f h (c ∷ cs) = (h c, All-of-map P f h cs)

module _ (P : Sent → Type 0) (acc : Access) (s : IncidentSubject) (d : Diagnosis)
    (allows : Allows P acc s d) where
  send_proposal-All : (i : IncidentMemory) → MayPropose acc s d i → All P (send_proposal acc d i)
  unfolding send_proposal
  send_proposal-All i may = elim (Fetched-cases (acc.propose d i)) [
    | inr (e, failed) ↦ rw (failed, send_proposal) (allows.proposes i may, tt)
    | inl (none, answered) ↦ rw (answered, send_proposal) (allows.proposes i may, tt)
    | inl (some a, answered) ↦
        rw (answered, send_proposal)
          (allows.proposes i may, All-if P acc.has_web_socket _ (allows.announces a))
  ]

  -- A guard that was passed.
  guarded-All : (b : Bool) (rs : List Sent) → (b ≡ true → All P rs) → All P (if b then rs else [])
  guarded-All true rs h = h refl
  guarded-All false rs h = tt

  unguarded-All :
      (b : Bool) (rs : List Sent) → (b ≡ false → All P rs) → All P (if b then [] else rs)
  unguarded-All true rs h = tt
  unguarded-All false rs h = h refl

  pub proposal-All :
      (n : ℕ) (j : IncidentMemory)
      → find_matching_incident acc n s d ≡ found (some j)
      → (o : Option IncidentMemory) → All P (propose_remediation acc s d o)
  unfolding propose_remediation
  proposal-All n j known none = tt
  proposal-All n j known (some i) = unguarded-All s.is_unattributed _ (λ is_attributed.
      guarded-All (acc.has_proposer && not (i.phase == "Resolved")) _ (λ passed.
        elim (Fetched-cases (rejection_suppresses_proposal acc.now acc.list_actions d (some i))) [
          | inr (e, failed) ↦ rw (failed) tt
          | inl (some r, answered) ↦ rw (answered) tt
          | inl (none, answered) ↦ rw (answered) (
              send_proposal-All i (record {
                is_attributed = is_attributed;
                configured = ground arith;
                unresolved = λ e. ground (arith, eq_iff i.phase "Resolved");
                known = (n, j, known);
                unrejected = answered;
              }))
        ]))

  again-All : All P (propose_remediation acc s d (found_again (find_matching_incident acc 1 s d)))
  unfolding propose_remediation
  again-All = elim (Fetched-cases (find_matching_incident acc 1 s d)) [
    | inr (e, failed) ↦ rw (failed, found_again) tt
    | inl (none, answered) ↦ rw (answered, found_again) tt
    | inl (some i, answered) ↦ rw (answered, found_again) (proposal-All 1 i answered (some i))
  ]

  module _ (retrying : IsRetrying acc) where
    pub existing-SentAll :
        (w : Written) → SentAll P w → SentAll P (update_existing_incident acc s d w)
    existing-SentAll w h =
        update_existing-SentAll P acc d (λ i stage e. (allows.stores _, allows.emits _)) retrying s
          w allows.causes allows.counts (λ i. All-if P acc.has_web_socket _ (allows.broadcasts _)) h

    initial-SentAll :
        find_matching_incident acc 0 s d ≡ found none
        → acc.create_incident (new_incident acc s d) ≡ none
        → SentAll P (
            retry_incident_write acc
              (set_initial_status acc)
              (creating (new_incident acc s d) none))
    unfolding set_initial_status
    initial-SentAll unknown accepted =
        retry_keeps_from (SentAll P) (set_initial_status acc) acc retrying
          (creating (new_incident acc s d) none)
          (allows.creates unknown, (allows.begins accepted, tt))
          (λ n v h.
            fetching-SentAll P acc initial_status (suc n) v
              (λ i. status_write acc initial_status (suc n) v (begun acc.now i)) h
              (λ i read.
                All-snoc P acc v.sent _ h (allows.begins_again accepted (suc n) _ _ i read)))

    adopt-SentAll :
        find_matching_incident acc 0 s d ≡ found none
        → SentAll P (retry_incident_write acc (adopt acc) (creating (new_incident acc s d) none))
    unfolding adopt
    adopt-SentAll unknown =
        retry_keeps (SentAll P) (adopt acc) acc retrying (creating (new_incident acc s d) none)
          (allows.creates unknown, tt)
          (λ n v h.
            fetching-SentAll P acc adopting n v (λ i. record v { incident = i; error = none }) h
              (λ i read. h))

    announce-All : (i : IncidentMemory) → All P (announce_creation acc s d i)
    unfolding store_signal_events emit_k8s_events
    announce-All i =
        All-append P (broadcast_creation acc s d i ++ store_signal_events acc d i) _
          (All-append P (broadcast_creation acc s d i) _
            (All-if P acc.has_web_socket _ (allows.broadcasts _))
            (All-of-map P _ (λ c. allows.stores _) d.contributing))
          (guarded-All (d.severity == "warning" || d.severity == "critical") (emit_k8s_events d)
            (λ _. All-of-map P _ (λ c. allows.emits _) d.contributing))

    create-SentAll :
        find_matching_incident acc 0 s d ≡ found none → SentAll P (create_incident acc s d)
    unfolding create_incident
    create-SentAll unknown =
        let i = new_incident acc s d in
        elim (Option-cases (acc.create_incident i)) [
          | inl accepted ↦
              let w = retry_incident_write acc (set_initial_status acc) (creating i none) in
              rw (accepted, create_incident)
                (or_discard-SentAll P acc d (λ j stage e. (allows.stores _, allows.emits _))
                  "setting the initial incident status" w
                  (λ v. record v { sent = v.sent ++ announce_creation acc s d v.incident })
                  (initial-SentAll unknown accepted)
                  (λ _.
                    All-append P w.sent _ (initial-SentAll unknown accepted)
                      (announce-All w.incident)))
          | inr (e, refused) ↦ elim (Bool-cases (acc.is_already_exists e)) [
            | inl there ↦
                let w = retry_incident_write acc (adopt acc) (creating i none) in
                rw (refused, there, create_incident)
                  (or_discard-SentAll P acc d (λ j stage e. (allows.stores _, allows.emits _))
                    "adopting the incident that already existed" w
                    (update_existing_incident acc s d) (adopt-SentAll unknown)
                    (λ _. existing-SentAll w (adopt-SentAll unknown)))
            | inr other ↦ rw (refused, other, create_incident) (allows.creates unknown, tt)
          ]
        ]

    proposing-All :
        (w : Written) (o : Option IncidentMemory)
        → SentAll P w
        → All P (propose_remediation acc s d o)
        → All P (proposing acc s d w o).1
    proposing-All w o h k = elim (Option-cases w.error) [
      | inr (e, failed) ↦ rw (failed, proposing) h
      | inl fine ↦ rw (fine, proposing) (All-append P w.sent _ h k)
    ]

    pub process_diagnosis-All : All P (process_diagnosis acc s d).1
    unfolding process_diagnosis
    process_diagnosis-All = elim (Fetched-cases (find_matching_incident acc 0 s d)) [
      | inr (e, failed) ↦ rw (failed, process_diagnosis) tt
      | inl (none, answered) ↦
          rw (answered, process_diagnosis)
            (proposing-All (create_incident acc s d)
              (found_again (find_matching_incident acc 1 s d)) (create-SentAll answered) again-All)
      | inl (some i, answered) ↦
          let w =
            update_existing_incident acc s d (record { incident = i; error = none; sent = [] }) in
          rw (answered, process_diagnosis)
            (proposing-All w (some w.incident) (existing-SentAll _ tt)
              (proposal-All 0 i answered (some w.incident)))
    ]
