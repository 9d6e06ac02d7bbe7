-- ===== src/Incident/Filing/Recorded.antt =====
-- That an existing incident is written with the diagnosis counted, or the loss is told.
use mathlib.Core.List.Memᴰ
use dorgu_operator.Common.{
  ℕ, zero, suc, ◌+◌, ◌⊎◌, String, ◌≡◌, refl, sym, subst, arith, inl, inr, none, some, List, [],
  ◌++◌, Memᴰ, Option-cases, All, ◌∷◌,
}
use dorgu_operator.Api.{Error}
use dorgu_operator.Diagnosis.{Diagnosis}
use dorgu_operator.Events.{InternalEvent}
use dorgu_operator.Executor.{found, Fetched-cases}
use dorgu_operator.Incident.{IncidentMemory}
use dorgu_operator.Incident.Subject.{IncidentSubject}
use dorgu_operator.Incident.Access.{
  Access, Written, Sent, Stage, status_updated, stored, recording_count, initial_status,
}
use dorgu_operator.Incident.Reports.{discarded_event, discard_reason, broadcast_update}
use dorgu_operator.Incident.Writes.{
  retry_incident_write, fetching, status_write, write_cause, write_count, counted,
  report_discarded_diagnosis, or_discard, record_count, update_existing_incident,
}
use dorgu_operator.Incident.Writes.Retrying.{IsRetrying, retry_last}
use dorgu_operator.Incident.Filing.{begun, set_initial_status}

pub All-at {ℓ κ} : {A : Type ℓ} (P : A → Type κ) (xs : List A) {x : A} → All P xs → Memᴰ x xs → P x
All-at P [] h m = elim m [ ]
All-at P (y ∷ xs) h m = elim m [
  | Memᴰ.head e ↦ subst P (sym e) h.0
  | Memᴰ.tail t ↦ All-at P xs h.1 t
]

-- A status that counts this cycle's occurrence: one more than was read in the attempt, or the first.
abbrev pub Counts : Access → Stage → ℕ → IncidentMemory → Type 0
Counts acc st n i =
    ((before : IncidentMemory) × (namespace : String) × (name : String) × (acc.get_incident st n
          namespace name
        ≡ found before)
      × (i ≡ record before {
        occurrence_count = before.occurrence_count + 1;
        last_occurrence = some acc.now;
      }))
    ⊎ ((st ≡ initial_status)
        × (i.phase ≡ "Detected")
        × (i.occurrence_count ≡ 1)
        × (i.last_occurrence ≡ some acc.now))

-- The API server accepted a status that counts this cycle's occurrence.
pub record Recorded (acc : Access) (rs : List Sent) : Type 0 where
  pub incident : IncidentMemory
  pub there : Memᴰ (status_updated incident) rs
  pub stage : Stage
  pub attempt : ℕ
  pub counts : Counts acc stage attempt incident
  pub accepted : acc.update_incident_status stage attempt incident ≡ none

-- An event that tells of the loss was handed to the event store.
pub record Surfaced (rs : List Sent) : Type 0 where
  pub event : InternalEvent
  pub there : Memᴰ (stored event) rs
  pub told : event.reason ≡ discard_reason

pub Recorded-append : (acc : Access) (xs ys : List Sent) → Recorded acc xs → Recorded acc (xs ++ ys)
Recorded-append acc xs ys r = record {
  incident = r.incident;
  there = Memᴰ.append_left ys r.there;
  stage = r.stage;
  attempt = r.attempt;
  counts = r.counts;
  accepted = r.accepted;
}

abbrev pub Told : Access → Written → Type 0
Told acc w =
    (w.error ≡ none → Recorded acc w.sent) × ((e : Error) → w.error ≡ some e → Surfaced w.sent)

module _ (acc : Access) (d : Diagnosis) where
  report-Surfaced :
      (w : Written) (stage : String) (e : Error)
      → Surfaced (report_discarded_diagnosis acc w d stage e).sent
  unfolding report_discarded_diagnosis discarded_event
  report-Surfaced w stage e = record {
    event = discarded_event acc w.incident d stage e;
    there = Memᴰ.append_right w.sent (Memᴰ.head refl);
    told = refl;
  }

  pub or_discard-Told :
      (stage : String) (w : Written) (next : Written → Written)
      → (w.error ≡ none → Told acc (next w))
      → Told acc (or_discard acc d stage w next)
  unfolding report_discarded_diagnosis
  or_discard-Told stage w next k = elim (Option-cases w.error) [
    | inl fine ↦ rw (fine, or_discard) (k fine)
    | inr (e, failed) ↦
        rw (failed, or_discard) (λ h. ground arith, λ e2 h. report-Surfaced w stage e)
  ]

  status_write-Recorded :
      (st : Stage) (n : ℕ) (w : Written) (i : IncidentMemory)
      → Counts acc st n i
      → (status_write acc st n w i).error ≡ none
      → Recorded acc (status_write acc st n w i).sent
  status_write-Recorded st n w i counts accepted = record {
    incident = i;
    there = Memᴰ.append_right w.sent (Memᴰ.head refl);
    stage = st;
    attempt = n;
    counts = counts;
    accepted = accepted;
  }

  fetching-Recorded :
      (st : Stage) (n : ℕ) (w : Written) (f : IncidentMemory → IncidentMemory)
      → ((namespace name : String) (i : IncidentMemory)
          → acc.get_incident st n namespace name ≡ found i
          → Counts acc st n (f i))
      → (fetching acc st n w (λ i. status_write acc st n w (f i))).error ≡ none
      → Recorded acc (fetching acc st n w (λ i. status_write acc st n w (f i))).sent
  fetching-Recorded st n w f counts =
      elim (Fetched-cases (acc.get_incident st n w.incident.namespace w.incident.name)) [
        | inr (e, failed) ↦ rw (failed, fetching) (λ h. ground arith)
        | inl (i, answered) ↦
            rw (answered, fetching) (status_write-Recorded st n w (f i) (counts _ _ i answered))
      ]

  module _ (retrying : IsRetrying acc) where
    count-Recorded :
        (w : Written)
        → (retry_incident_write acc (write_count acc) w).error ≡ none
        → Recorded acc (retry_incident_write acc (write_count acc) w).sent
    unfolding write_count
    count-Recorded w =
        let (n, v, last) = retry_last acc retrying (write_count acc) w in
        subst (λ (u : Written). u.error ≡ none → Recorded acc u.sent) (sym last)
          (fetching-Recorded recording_count n v (counted acc.now)
            (λ ns name i read. inl (i, ns, name, read, refl)))

    initial_lem :
        (n : ℕ) (v : Written)
        → (set_initial_status acc n v).error ≡ none
        → Recorded acc (set_initial_status acc n v).sent
    unfolding set_initial_status
    initial_lem zero v =
        status_write-Recorded initial_status 0 v (begun acc.now v.incident)
          (inr (refl, refl, refl, refl))
    initial_lem (suc n) v =
        fetching-Recorded initial_status (suc n) v (begun acc.now)
          (λ ns name i read. inr (refl, refl, refl, refl))

    pub initial-Recorded :
        (w : Written)
        → (retry_incident_write acc (set_initial_status acc) w).error ≡ none
        → Recorded acc (retry_incident_write acc (set_initial_status acc) w).sent
    initial-Recorded w =
        let (n, v, last) = retry_last acc retrying (set_initial_status acc) w in
        subst (λ (u : Written). u.error ≡ none → Recorded acc u.sent) (sym last) (initial_lem n v)

    pub announced-Told :
        (w : Written) (rs : List Sent)
        → w.error ≡ none
        → Recorded acc w.sent
        → Told acc (record w { sent = w.sent ++ rs })
    announced-Told w rs fine r = (λ _. Recorded-append acc w.sent rs r, λ e failed. ground arith)

    pub update_existing-Told :
        (s : IncidentSubject) (w : Written) → Told acc (update_existing_incident acc s d w)
    unfolding update_existing_incident record_count
    update_existing-Told s w =
        or_discard-Told "recording the root cause" _ (record_count acc d) (λ _.
          (let v =
              retry_incident_write acc (write_count acc)
                (retry_incident_write acc (write_cause acc s d) w) in
            or_discard-Told "recording the occurrence count" v
              (λ u. record u { sent = u.sent ++ broadcast_update acc u.incident })
              (λ fine.
                announced-Told v (broadcast_update acc v.incident) fine (count-Recorded _ fine))))
