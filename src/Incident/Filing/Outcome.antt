-- ===== src/Incident/Filing/Outcome.antt =====
-- What becomes of a diagnosis: it is recorded, or its loss is told.
use dorgu_operator.Common.{
  ℕ, String, false, ◌≡◌, refl, sym, subst, arith, ◌⊎◌, inl, inr, Option, none, some, List, [], ◌∷◌,
  ◌++◌, Option-cases, Bool-cases,
}
use dorgu_operator.Api.{Error, wrap}
use dorgu_operator.Diagnosis.{Diagnosis}
use dorgu_operator.Executor.{found, get_error, Fetched-cases}
use dorgu_operator.Incident.{IncidentMemory}
use dorgu_operator.Incident.Subject.{IncidentSubject}
use dorgu_operator.Incident.Access.{Access, Stage, Written, Sent, created}
use dorgu_operator.Incident.Writes.{retry_incident_write, update_existing_incident}
use dorgu_operator.Incident.Writes.Retrying.{IsRetrying}
use dorgu_operator.Incident.Filing.{
  new_incident, set_initial_status, adopt, creating, announce_creation, create_incident,
  propose_remediation, find_matching_incident, found_again, proposing, process_diagnosis,
}
use dorgu_operator.Incident.Filing.Laws.{IsFor, WritesOnly, process_diagnosis-IsFor}
use dorgu_operator.Incident.Filing.Recorded.{
  All-at, Recorded, Surfaced, Told, Recorded-append, or_discard-Told, initial-Recorded,
  announced-Told, update_existing-Told,
}

-- The API server refused to create the incident, and not because one of the name is there.
pub record IsRefused (acc : Access) (s : IncidentSubject) (d : Diagnosis) (rs : List Sent)
    : Type 0 where
  pub error : Error
  pub refused : acc.create_incident (new_incident acc s d) ≡ some error
  pub missing : acc.is_already_exists error ≡ false
  pub alone : rs ≡ created (new_incident acc s d) ∷ []

-- How a loss shows: the incidents could not be listed and nothing was sent, the creation was refused
-- and nothing else was sent, or the loss was told.
abbrev pub IsTold : Access → IncidentSubject → Diagnosis → List Sent → Type 0
IsTold acc s d rs =
    (((e : Error) × (find_matching_incident acc 0 s d ≡ get_error e)) × (rs ≡ []))
    ⊎ IsRefused acc s d rs
    ⊎ Surfaced rs

-- Without an error a status was accepted, and an error is told of.
abbrev pub IsEnded : Access → IncidentSubject → Diagnosis → Option Error × List Sent → Type 0
IsEnded acc s d r =
    (r.0 ≡ none → Recorded acc r.1) × ((e : Error) → r.0 ≡ some e → IsTold acc s d r.1)

-- A diagnosis without an error is recorded in an incident of its subject, and an error is told of.
abbrev pub IsOutcome : Access → IncidentSubject → Diagnosis → Option Error × List Sent → Type 0
IsOutcome acc s d r =
    (r.0 ≡ none → (kept : Recorded acc r.1) × IsFor s d kept.incident)
    × ((e : Error) → r.0 ≡ some e → IsTold acc s d r.1)

module _ (acc : Access) (d : Diagnosis) (retrying : IsRetrying acc) where
  create-Told :
      (s : IncidentSubject)
      → Told acc (create_incident acc s d)
        ⊎ (((e : Error) × ((create_incident acc s d).error ≡ some e))
            × IsRefused acc s d (create_incident acc s d).sent)
  unfolding create_incident
  create-Told s =
      let i = new_incident acc s d in
      elim (Option-cases (acc.create_incident i)) [
        | inl accepted ↦
            let w = retry_incident_write acc (set_initial_status acc) (creating i none) in
            inl (
              rw (accepted, create_incident)
                (or_discard-Told acc d "setting the initial incident status" w
                  (λ v. record v { sent = v.sent ++ announce_creation acc s d v.incident })
                  (λ fine.
                    announced-Told acc d retrying w (announce_creation acc s d w.incident) fine
                      (initial-Recorded acc d retrying (creating i none) fine))))
        | inr (e, refused) ↦ elim (Bool-cases (acc.is_already_exists e)) [
          | inl there ↦
              let w = retry_incident_write acc (adopt acc) (creating i none) in
              inl (
                rw (refused, there, create_incident)
                  (or_discard-Told acc d "adopting the incident that already existed" w
                    (update_existing_incident acc s d)
                    (λ _. update_existing-Told acc d retrying s w)))
          | inr other ↦
              let failure = wrap "creating IncidentMemory: %w" [] e in
              let same : create_incident acc s d ≡ creating i (some failure) =
                rw (refused, other, create_incident) refl in
              inr (
                rw same (
                  (failure, refl),
                  record { error = e; refused = refused; missing = other; alone = refl },
                ))
        ]
      ]

  proposing-Told :
      (s : IncidentSubject) (w : Written) (o : Option IncidentMemory)
      → Told acc w
      → ((proposing acc s d w o).0 ≡ none → Recorded acc (proposing acc s d w o).1)
        × ((e : Error) → (proposing acc s d w o).0 ≡ some e → Surfaced (proposing acc s d w o).1)
  proposing-Told s w o t = elim (Option-cases w.error) [
    | inl fine ↦
        rw (fine, proposing)
          (
            λ _. Recorded-append acc w.sent (propose_remediation acc s d o) (t.0 fine),
            λ e h. ground arith,
          )
    | inr (e, failed) ↦ rw (failed, proposing) (λ h. ground arith, λ e2 h. t.1 e failed)
  ]

  recorded-IsEnded :
      (s : IncidentSubject) (w : Written) (o : Option IncidentMemory)
      → Told acc w
      → IsEnded acc s d (proposing acc s d w o)
  recorded-IsEnded s w o t =
      let (fine, lost) = proposing-Told s w o t in (fine, λ e h. inr (inr (lost e h)))

  refused-IsEnded :
      (s : IncidentSubject) (w : Written) (o : Option IncidentMemory) (e : Error)
      → w.error ≡ some e
      → IsRefused acc s d w.sent
      → IsEnded acc s d (proposing acc s d w o)
  refused-IsEnded s w o e failed refused =
      rw (failed, proposing) (λ h. ground arith, λ e2 h. inr (inl refused))

  pub process_diagnosis-IsEnded :
      (s : IncidentSubject) → IsEnded acc s d (process_diagnosis acc s d)
  unfolding process_diagnosis
  process_diagnosis-IsEnded s = elim (Fetched-cases (find_matching_incident acc 0 s d)) [
    | inr (e, failed) ↦
        let same : process_diagnosis acc s d
            ≡ (some (wrap "finding matching incident: %w" [] e), []) =
          rw (failed, process_diagnosis) refl in
        subst (IsEnded acc s d) (sym same) (λ h. ground arith, λ e2 h. inl ((e, failed), refl))
    | inl (some i, answered) ↦
        let start : Written = record { incident = i; error = none; sent = [] } in
        let w = update_existing_incident acc s d start in
        let same : process_diagnosis acc s d ≡ proposing acc s d w (some w.incident) =
          rw (answered, process_diagnosis) refl in
        subst (IsEnded acc s d) (sym same)
          (recorded-IsEnded s w (some w.incident) (update_existing-Told acc d retrying s start))
    | inl (none, answered) ↦
        let o = found_again (find_matching_incident acc 1 s d) in
        let w = create_incident acc s d in
        let same : process_diagnosis acc s d ≡ proposing acc s d w o =
          rw (answered, process_diagnosis) refl in
        subst (IsEnded acc s d) (sym same) (elim (create-Told s) [
          | inl told ↦ recorded-IsEnded s w o told
          | inr ((e, failed), refused) ↦ refused-IsEnded s w o e failed refused
        ])
  ]

-- A diagnosis whose processing reports no error is recorded: the API server accepted a status that
-- counts one occurrence more than was read in that attempt, or the first occurrence of a new incident,
-- as of now, for an incident of that subject, with that diagnosis' category and signal. One whose
-- processing reports an error is told of by an event that the event store is handed, unless the
-- incidents could not be listed, and nothing was sent, or the creation was refused although none of
-- the name is there, and nothing else was sent. The retries are as documented, and every incident
-- that is read for a write is one of that subject and diagnosis.
pub process_diagnosis-IsOutcome :
    (acc : Access) (s : IncidentSubject) (d : Diagnosis)
    → IsRetrying acc
    → ((st : Stage) (n : ℕ) (ns name : String) (i : IncidentMemory)
        → acc.get_incident st n ns name ≡ found i
        → IsFor s d i)
    → IsOutcome acc s d (process_diagnosis acc s d)
process_diagnosis-IsOutcome acc s d retrying reads =
    let (fine, told) = process_diagnosis-IsEnded acc d retrying s in
    let all = process_diagnosis-IsFor acc s d retrying reads in
    (λ h. let kept = fine h in (kept, All-at (WritesOnly (IsFor s d)) _ all kept.there), told)
