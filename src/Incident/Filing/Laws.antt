-- ===== src/Incident/Filing/Laws.antt =====
-- What processDiagnosis may send: when it proposes, and whose incidents it writes.
use dorgu_operator.Common.{
  ℕ, String, false, ◌≡◌, refl, Option, some, List, All, arith, if◌then◌else◌, ◌==◌, Bool-cases, inl,
  inr, ◌∙◌,
}
use dorgu_operator.Common.Maps.{lookup, insert, text_at, lookup-insert}
use dorgu_operator.Diagnosis.{Diagnosis, primary_signal_type}
use dorgu_operator.Executor.{found}
use dorgu_operator.Incident.{IncidentMemory}
use dorgu_operator.Incident.Subject.{IncidentSubject, attribution}
use dorgu_operator.Incident.Diagnosed.{Decimals, apply_diagnosis_to_spec, attributed}
use dorgu_operator.Incident.Access.{Access, Sent, Stage, created, updated, status_updated, proposed}
use dorgu_operator.Incident.Writes.Retrying.{IsRetrying}
use dorgu_operator.Incident.Filing.{new_incident, process_diagnosis, incident_home}
use dorgu_operator.Incident.Filing.Sending.{MayPropose, process_diagnosis-All}

abbrev pub ProposalIs : (IncidentMemory → Type 0) → Diagnosis → Sent → Type 0
ProposalIs P d (proposed e i) = (e ≡ d) × P i
ProposalIs P d _ = Unit

-- Whatever is proposed for a diagnosis is about that diagnosis, and only for a subject that a
-- persona claims, with a proposer configured, an incident found that is not resolved, and a history
-- of rejections that could be read and does not speak against it. The retries are as documented.
pub process_diagnosis-MayPropose :
    (acc : Access) (s : IncidentSubject) (d : Diagnosis)
    → IsRetrying acc
    → All (ProposalIs (MayPropose acc s d) d) (process_diagnosis acc s d).1
process_diagnosis-MayPropose acc s d retrying =
    process_diagnosis-All (ProposalIs (MayPropose acc s d) d) acc s d
      (record {
        creates = λ _. tt;
        begins = λ _. tt;
        begins_again = λ _ n ns name i _. tt;
        causes = λ n ns name i _. tt;
        counts = λ n ns name i _. tt;
        stores = λ _. tt;
        emits = λ _. tt;
        broadcasts = λ _. tt;
        proposes = λ i may. (refl, may);
        announces = λ _. tt;
      })
      retrying

-- The record of a subject and a diagnosis: what tells it apart stands in its spec and its labels.
pub record IsFor (s : IncidentSubject) (d : Diagnosis) (i : IncidentMemory) : Type 0 where
  pub home : i.namespace ≡ incident_home s
  pub persona_ref : i.spec.persona_ref ≡ s.persona_ref
  pub category : i.spec.category ≡ d.category
  pub signal : i.spec.detection.signal ≡ primary_signal_type d
  pub attribution : i.spec.attribution ≡ attribution s
  pub kind_label : lookup "dorgu.io/persona-kind" i.labels ≡ some s.persona_ref.kind
  pub name_label : lookup "dorgu.io/persona-name" i.labels ≡ some s.persona_ref.name
  pub category_label : lookup "dorgu.io/category" i.labels ≡ some d.category
  pub signal_label : lookup "dorgu.io/signal" i.labels ≡ some (primary_signal_type d)

pub new_incident-IsFor :
    (acc : Access) (s : IncidentSubject) (d : Diagnosis) → IsFor s d (new_incident acc s d)
unfolding new_incident lookup
new_incident-IsFor acc s d = record {
  home = refl;
  persona_ref = refl;
  category = refl;
  signal = refl;
  attribution = refl;
  kind_label = refl;
  name_label = refl;
  category_label = refl;
  signal_label = refl;
}

attributed_same :
    (s : IncidentSubject) (i : IncidentMemory)
    → i.spec.attribution ≡ attribution s
    → attributed s i ≡ attribution s
unfolding attributed
attributed_same s i h = ground arith

-- A label beside the one for the attribution is kept.
kept_label :
    (at : String) (new : String) (labels : List (String × String)) (v : Option String)
    → ("dorgu.io/attribution" == at) ≡ false
    → lookup at labels ≡ v
    → lookup at (
        if text_at "dorgu.io/attribution" labels == ""
        then insert "dorgu.io/attribution" new labels
        else labels)
      ≡ v
kept_label at new labels v other h =
    elim (Bool-cases (text_at "dorgu.io/attribution" labels == "")) [
      | inl missing ↦ rw (missing) (lookup-insert "dorgu.io/attribution" at new labels ∙ rw other h)
      | inr there ↦ rw (there) h
    ]

pub apply_diagnosis-IsFor :
    (f : Decimals) (i : IncidentMemory) (s : IncidentSubject) (d : Diagnosis) (now : ℕ)
    → IsFor s d i
    → IsFor s d (apply_diagnosis_to_spec f i s d now)
unfolding apply_diagnosis_to_spec
apply_diagnosis-IsFor f i s d now h = record {
  home = h.home;
  persona_ref = h.persona_ref;
  category = h.category;
  signal = h.signal;
  attribution = attributed_same s i h.attribution;
  kind_label = kept_label "dorgu.io/persona-kind" _ i.labels _ refl h.kind_label;
  name_label = kept_label "dorgu.io/persona-name" _ i.labels _ refl h.name_label;
  category_label = kept_label "dorgu.io/category" _ i.labels _ refl h.category_label;
  signal_label = kept_label "dorgu.io/signal" _ i.labels _ refl h.signal_label;
}

-- The status is no part of that.
pub status_IsFor :
    (s : IncidentSubject) (d : Diagnosis) (i : IncidentMemory) (phase : String) (count : ℕ)
    (last : Option ℕ)
    → IsFor s d i
    → IsFor s d (record i { phase = phase; occurrence_count = count; last_occurrence = last })
status_IsFor s d i phase count last h = record {
  home = h.home;
  persona_ref = h.persona_ref;
  category = h.category;
  signal = h.signal;
  attribution = h.attribution;
  kind_label = h.kind_label;
  name_label = h.name_label;
  category_label = h.category_label;
  signal_label = h.signal_label;
}

-- A property of every incident that is written.
abbrev pub WritesOnly : (IncidentMemory → Type 0) → Sent → Type 0
WritesOnly P (created i) = P i
WritesOnly P (updated i) = P i
WritesOnly P (status_updated i) = P i
WritesOnly P _ = Unit

-- Every incident that is created or written for a subject and a diagnosis carries their persona, their
-- namespace, category, signal and attribution, in its spec and in the labels by which it is looked
-- for, where every incident that is read for the write does. The retries are as documented.
pub process_diagnosis-IsFor :
    (acc : Access) (s : IncidentSubject) (d : Diagnosis)
    → IsRetrying acc
    → ((st : Stage) (n : ℕ) (ns name : String) (i : IncidentMemory)
        → acc.get_incident st n ns name ≡ found i
        → IsFor s d i)
    → All (WritesOnly (IsFor s d)) (process_diagnosis acc s d).1
process_diagnosis-IsFor acc s d retrying reads =
    process_diagnosis-All (WritesOnly (IsFor s d)) acc s d
      (record {
        creates = λ _. new_incident-IsFor acc s d;
        begins = λ _. status_IsFor s d _ _ _ _ (new_incident-IsFor acc s d);
        begins_again = λ _ n ns name i read. status_IsFor s d i _ _ _ (reads _ n ns name i read);
        causes = λ n ns name i read.
            apply_diagnosis-IsFor acc.decimals i s d acc.now (reads _ n ns name i read);
        counts = λ n ns name i read. status_IsFor s d i _ _ _ (reads _ n ns name i read);
        stores = λ _. tt;
        emits = λ _. tt;
        broadcasts = λ _. tt;
        proposes = λ i may. tt;
        announces = λ _. tt;
      })
      retrying
