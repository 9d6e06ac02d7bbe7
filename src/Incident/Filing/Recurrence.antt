-- ===== src/Incident/Filing/Recurrence.antt =====
-- What processDiagnosis does to an incident that was resolved before.
use dorgu_operator.Common.{
  ℕ, ◌+◌, String, true, ◌≡◌, ◌⊎◌, inl, inr, sym, ap, ◌∙◌, none, some, Option-cases, List, All, Memᴰ,
  eq_iff, arith,
}
use dorgu_operator.Api.{Error}
use dorgu_operator.Diagnosis.{Diagnosis}
use dorgu_operator.Executor.{found}
use dorgu_operator.Incident.{IncidentMemory}
use dorgu_operator.Incident.Subject.{IncidentSubject}
use dorgu_operator.Incident.Diagnosed.{apply_diagnosis_to_spec}
use dorgu_operator.Incident.Access.{Access, Sent, Stage, updated, status_updated, proposed}
use dorgu_operator.Incident.Writes.Retrying.{IsRetrying}
use dorgu_operator.Incident.Filing.{new_incident, find_matching_incident, process_diagnosis}
use dorgu_operator.Incident.Filing.Recorded.{All-at, Recorded, Surfaced}
use dorgu_operator.Incident.Filing.Outcome.{IsTold, process_diagnosis-IsEnded}
use dorgu_operator.Incident.Filing.Sending.{process_diagnosis-All}

-- No incident is written in another phase, and nothing is proposed. What is created is not asked:
-- here the API server refuses it.
abbrev pub StaysResolved : Sent → Type 0
StaysResolved (updated i) = i.phase ≡ "Resolved"
StaysResolved (status_updated i) = i.phase ≡ "Resolved"
StaysResolved (proposed d i) = ⊥
StaysResolved _ = Unit

sent-StaysResolved :
    (acc : Access) (s : IncidentSubject) (d : Diagnosis) (e : Error)
    → IsRetrying acc
    → ((n : ℕ) → find_matching_incident acc n s d ≡ found none)
    → acc.create_incident (new_incident acc s d) ≡ some e
    → ((st : Stage) (n : ℕ) (ns name : String) (i : IncidentMemory)
        → acc.get_incident st n ns name ≡ found i
        → i.phase ≡ "Resolved")
    → All StaysResolved (process_diagnosis acc s d).1
unfolding apply_diagnosis_to_spec
sent-StaysResolved acc s d e retrying unknown there reads =
    process_diagnosis-All StaysResolved acc s d
      (record {
        creates = λ _. tt;
        begins = λ accepted. ground arith;
        begins_again = λ accepted n ns name i _. ground arith;
        causes = λ n ns name i read. reads _ n ns name i read;
        counts = λ n ns name i read. reads _ n ns name i read;
        stores = λ _. tt;
        emits = λ _. tt;
        broadcasts = λ _. tt;
        proposes = λ i may. ground (arith, unknown may.known.0);
        announces = λ _. tt;
      })
      retrying

-- The API server accepted a status that counts one occurrence more than was read, of an incident that
-- stays resolved.
pub record IsFolded (acc : Access) (rs : List Sent) : Type 0 where
  pub before : IncidentMemory
  pub stage : Stage
  pub attempt : ℕ
  pub namespace : String
  pub name : String
  pub read : acc.get_incident stage attempt namespace name ≡ found before
  pub incident : IncidentMemory
  pub counted_again : incident ≡ record before {
    occurrence_count = before.occurrence_count + 1;
    last_occurrence = some acc.now;
  }
  pub there : Memᴰ (status_updated incident) rs
  pub accepted : acc.update_incident_status stage attempt incident ≡ none
  pub resolved : incident.phase ≡ "Resolved"

kept-IsFolded :
    (acc : Access) (rs : List Sent) → All StaysResolved rs → Recorded acc rs → IsFolded acc rs
kept-IsFolded acc rs all kept = elim kept.counts [
  | inl (before, ns, name, read, same) ↦ record {
    before = before;
    stage = kept.stage;
    attempt = kept.attempt;
    namespace = ns;
    name = name;
    read = read;
    incident = kept.incident;
    counted_again = same;
    there = kept.there;
    accepted = kept.accepted;
    resolved = All-at StaysResolved _ all kept.there;
  }
  | inr (first, detected, once, now) ↦
      let resolved : kept.incident.phase ≡ "Resolved" = All-at StaysResolved _ all kept.there in
      absurd (ground (arith, eq_iff "Detected" "Resolved", sym detected ∙ resolved))
]

error_inj : {e f : Error} → some e ≡ some f → e ≡ f
error_inj h = ground arith

not_listed :
    (acc : Access) (s : IncidentSubject) (d : Diagnosis) (e : Error) (rs : List Sent)
    → find_matching_incident acc 0 s d ≡ found none
    → acc.create_incident (new_incident acc s d) ≡ some e
    → acc.is_already_exists e ≡ true
    → IsTold acc s d rs
    → Surfaced rs
not_listed acc s d e rs unknown refused there (inl ((e2, failed), _)) =
    absurd (ground (arith, unknown, failed))
not_listed acc s d e rs unknown refused there (inr (inl r)) =
    let same : e ≡ r.error = error_inj (sym refused ∙ r.refused) in
    absurd (ground (arith, r.missing, sym (ap acc.is_already_exists same) ∙ there))
not_listed acc s d e rs unknown refused there (inr (inr surfaced)) = surfaced

-- Where no incident is found that is not resolved, and one of the name is there already, which every
-- read answers as resolved, the recurrence opens no incident: every incident that is written stays
-- resolved and nothing is proposed. The diagnosis is folded into the resolved one: the API server
-- accepted a status of it that counts one occurrence more than was read; or its loss is told. The
-- retries are as documented.
pub process_diagnosis-StaysResolved :
    (acc : Access) (s : IncidentSubject) (d : Diagnosis) (e : Error)
    → IsRetrying acc
    → ((n : ℕ) → find_matching_incident acc n s d ≡ found none)
    → acc.create_incident (new_incident acc s d) ≡ some e
    → acc.is_already_exists e ≡ true
    → ((st : Stage) (n : ℕ) (ns name : String) (i : IncidentMemory)
        → acc.get_incident st n ns name ≡ found i
        → i.phase ≡ "Resolved")
    → All StaysResolved (process_diagnosis acc s d).1
      × (((process_diagnosis acc s d).0 ≡ none) × IsFolded acc (process_diagnosis acc s d).1
          ⊎ ((cause : Error) × ((process_diagnosis acc s d).0 ≡ some cause)
              × Surfaced (process_diagnosis acc s d).1))
process_diagnosis-StaysResolved acc s d e retrying unknown refused there reads =
    let all = sent-StaysResolved acc s d e retrying unknown refused reads in
    let (fine, told) = process_diagnosis-IsEnded acc d retrying s in
    (
      all,
      elim (Option-cases (process_diagnosis acc s d).0) [
        | inl none_told ↦ inl (none_told, kept-IsFolded acc _ all (fine none_told))
        | inr (cause, failed) ↦
            inr
              (cause, failed, not_listed acc s d e _ (unknown 0) refused there (told cause failed))
      ],
    )
