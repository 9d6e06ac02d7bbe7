-- ===== src/Incident/Writes/Retrying.antt =====
-- What retried writes leave and send.
use dorgu_operator.Common.{
  ℕ, zero, suc, String, ◌≡◌, refl, sym, subst, ◌∙◌, none, Option-cases, List, [], ◌∷◌, ◌++◌, All,
  All-append, inl, inr, Bool,
}
use dorgu_operator.Api.{Error}
use dorgu_operator.Diagnosis.{Diagnosis}
use dorgu_operator.Executor.{found, Fetched-cases}
use dorgu_operator.Incident.{IncidentMemory}
use dorgu_operator.Incident.Subject.{IncidentSubject}
use dorgu_operator.Incident.Diagnosed.{apply_diagnosis_to_spec}
use dorgu_operator.Incident.Access.{
  Access, Written, Sent, updated, status_updated, stored, emitted, Stage, recording_cause,
  recording_count,
}
use dorgu_operator.Incident.Reports.{discarded_event, broadcast_update}
use dorgu_operator.Incident.Writes.{
  retry_incident_write, fetching, spec_write, status_write, write_cause, write_count, counted,
  report_discarded_diagnosis, or_discard, record_count, update_existing_incident,
}

-- The attempts of a loop up to some one, each over what the one before it left.
abbrev pub attempts : (ℕ → Written → Written) → ℕ → Written → Written
attempts f zero w = f 0 w
attempts f (suc n) w = f (suc n) (attempts f n w)

-- retry.OnError makes attempts up to some one, and returns what that one returned.
abbrev pub IsRetrying : Access → Type 0
IsRetrying acc =
    (retriable : Error → Bool) (f : ℕ → Written → Written) (w : Written)
    → (n : ℕ) × (acc.on_error retriable f w ≡ attempts f n w)

module _ {κ} (P : Written → Type κ) (f : ℕ → Written → Written) (acc : Access)
    (retrying : IsRetrying acc) where
  attempts_keep :
      (w : Written)
      → P (f 0 w)
      → ((n : ℕ) (v : Written) → P v → P (f (suc n) v))
      → (n : ℕ) → P (attempts f n w)
  attempts_keep w first keeps zero = first
  attempts_keep w first keeps (suc n) = keeps n (attempts f n w) (attempts_keep w first keeps n)

  -- What the first attempt makes true and the later ones keep holds in the end.
  pub retry_keeps_from :
      (w : Written)
      → P (f 0 w)
      → ((n : ℕ) (v : Written) → P v → P (f (suc n) v))
      → P (retry_incident_write acc f w)
  unfolding retry_incident_write
  retry_keeps_from w first keeps =
      let (n, e) = retrying _ f w in subst P (sym e) (attempts_keep w first keeps n)

  pub retry_keeps :
      (w : Written)
      → P w
      → ((n : ℕ) (v : Written) → P v → P (f n v))
      → P (retry_incident_write acc f w)
  retry_keeps w h keeps = retry_keeps_from w (keeps 0 w h) (λ n. keeps (suc n))

-- The last attempt of a loop, made over something.
pub attempts_last :
    (f : ℕ → Written → Written) (n : ℕ) (w : Written) → (v : Written) × (attempts f n w ≡ f n v)
attempts_last f zero w = (w, refl)
attempts_last f (suc n) w = (attempts f n w, refl)

pub retry_last :
    (acc : Access)
    → IsRetrying acc
    → (f : ℕ → Written → Written) (w : Written)
    → (n : ℕ) × (v : Written) × (retry_incident_write acc f w ≡ f n v)
unfolding retry_incident_write
retry_last acc retrying f w =
    let (n, e) = retrying _ f w in let (v, last) = attempts_last f n w in (n, v, e ∙ last)

-- Everything that was sent so far has a property.
abbrev pub SentAll : (Sent → Type 0) → Written → Type 0
SentAll P w = All P w.sent

module _ (P : Sent → Type 0) (acc : Access) where
  pub All-snoc : (rs : List Sent) (r : Sent) → All P rs → P r → All P (rs ++ r ∷ [])
  All-snoc rs r h p = All-append P rs (r ∷ []) h (p, tt)

  pub fetching-SentAll :
      (st : Stage) (n : ℕ) (w : Written) (next : IncidentMemory → Written)
      → SentAll P w
      → ((i : IncidentMemory)
          → acc.get_incident st n w.incident.namespace w.incident.name ≡ found i
          → SentAll P (next i))
      → SentAll P (fetching acc st n w next)
  fetching-SentAll st n w next h k =
      elim (Fetched-cases (acc.get_incident st n w.incident.namespace w.incident.name)) [
        | inr (e, failed) ↦ rw (failed, fetching) h
        | inl (i, answered) ↦ rw (answered, fetching) (k i answered)
      ]

  pub spec_write-SentAll :
      (st : Stage) (n : ℕ) (w : Written) (i : IncidentMemory)
      → SentAll P w
      → P (updated i)
      → SentAll P (spec_write acc st n w i)
  spec_write-SentAll st n w i h p = elim (Option-cases (acc.update_incident st n i)) [
    | inr (e, refused) ↦ rw (refused, spec_write) (All-snoc w.sent (updated i) h p)
    | inl accepted ↦ rw (accepted, spec_write) (All-snoc w.sent (updated i) h p)
  ]

  -- What a report of a loss and a broadcast send.
  module _ (d : Diagnosis)
      (reports : (i : IncidentMemory) (stage : String) (e : Error)
        → P (stored (discarded_event acc i d stage e))
          × P (emitted (discarded_event acc i d stage e))) where
    pub or_discard-SentAll :
        (stage : String) (w : Written) (next : Written → Written)
        → SentAll P w
        → (w.error ≡ none → SentAll P (next w))
        → SentAll P (or_discard acc d stage w next)
    unfolding report_discarded_diagnosis
    or_discard-SentAll stage w next h k = elim (Option-cases w.error) [
      | inl fine ↦ rw (fine, or_discard) (k fine)
      | inr (e, failed) ↦
          rw (failed, or_discard)
            (All-append P w.sent _ h
              ((reports w.incident stage e).0, ((reports w.incident stage e).1, tt)))
    ]

    record_count-SentAll :
        IsRetrying acc
        → (w : Written)
        → ((n : ℕ) (ns name : String) (i : IncidentMemory)
            → acc.get_incident recording_count n ns name ≡ found i
            → P (status_updated (counted acc.now i)))
        → ((i : IncidentMemory) → All P (broadcast_update acc i))
        → SentAll P w
        → SentAll P (record_count acc d w)
    unfolding record_count write_count
    record_count-SentAll retrying w counts announces h =
        let v = retry_incident_write acc (write_count acc) w in
        let all : SentAll P v = retry_keeps (SentAll P) (write_count acc) acc retrying w h (λ n u k.
          fetching-SentAll recording_count n u
            (λ i. status_write acc recording_count n u (counted acc.now i)) k
            (λ i read. All-snoc u.sent _ k (counts n _ _ i read))) in
        or_discard-SentAll "recording the occurrence count" v
          (λ u. record u { sent = u.sent ++ broadcast_update acc u.incident }) all
          (λ _. All-append P v.sent _ all (announces v.incident))

    pub update_existing-SentAll :
        IsRetrying acc
        → (s : IncidentSubject) (w : Written)
        → ((n : ℕ) (ns name : String) (i : IncidentMemory)
            → acc.get_incident recording_cause n ns name ≡ found i
            → P (updated (apply_diagnosis_to_spec acc.decimals i s d acc.now)))
        → ((n : ℕ) (ns name : String) (i : IncidentMemory)
            → acc.get_incident recording_count n ns name ≡ found i
            → P (status_updated (counted acc.now i)))
        → ((i : IncidentMemory) → All P (broadcast_update acc i))
        → SentAll P w
        → SentAll P (update_existing_incident acc s d w)
    unfolding update_existing_incident write_cause
    update_existing-SentAll retrying s w causes counts announces h =
        let v = retry_incident_write acc (write_cause acc s d) w in
        let all : SentAll P v =
          retry_keeps (SentAll P) (write_cause acc s d) acc retrying w h (λ n u k.
            fetching-SentAll recording_cause n u
              (λ i.
                spec_write acc recording_cause n u
                  (apply_diagnosis_to_spec acc.decimals i s d acc.now))
              k (λ i read. spec_write-SentAll recording_cause n u _ k (causes n _ _ i read))) in
        or_discard-SentAll "recording the root cause" v (record_count acc d) all
          (λ _. record_count-SentAll retrying v counts announces all)
