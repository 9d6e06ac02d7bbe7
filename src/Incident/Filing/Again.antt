-- ===== src/Incident/Filing/Again.antt =====
-- An incident that is not resolved is found again, so that no second one is created.
use dorgu_operator.Common.{
  ℕ, String, true, ◌≡◌, ◌≢◌, refl, ◌∙◌, ap, arith, inl, inr, Option, none, some, List, All, Memᴰ,
  find, find-eq-none, Option-cases, Bool-cases, if◌then◌else◌, ◌==◌, ne→==,
}
use dorgu_operator.Common.Maps.{lookup}
use dorgu_operator.Diagnosis.{Diagnosis}
use dorgu_operator.Executor.{found}
use dorgu_operator.Incident.{IncidentMemory}
use dorgu_operator.Incident.Clearing.{incident_signal_key}
use dorgu_operator.Incident.Subject.{IncidentSubject, attribution, matches_incident, signal_key}
use dorgu_operator.Incident.Access.{Access, Sent, created}
use dorgu_operator.Incident.Writes.Retrying.{IsRetrying}
use dorgu_operator.Incident.Filing.{
  incident_selector, may_continue, incident_home, find_matching_incident, process_diagnosis,
}
use dorgu_operator.Incident.Filing.Laws.{IsFor}
use dorgu_operator.Incident.Filing.Sending.{process_diagnosis-All}

-- Whether an object has the labels of a selector, and stands in the namespace, if one is given.
abbrev pub HasLabels : List (String × String) → IncidentMemory → Type 0
HasLabels selector i = All (λ (l : String × String). lookup l.0 i.labels ≡ some l.1) selector

abbrev pub StandsIn : Option String → IncidentMemory → Type 0
StandsIn none i = Unit
StandsIn (some ns) i = i.namespace ≡ ns

-- A list request that is answered lists every object in the store that has the labels and stands in
-- the namespace.
abbrev pub IsListing : Access → ℕ → List IncidentMemory → Type 0
IsListing acc n store =
    (selector : List (String × String)) (ns : Option String)
    → (items : List IncidentMemory) × (acc.list_incidents n selector ns ≡ found items)
      × ((i : IncidentMemory) → Memᴰ i store → HasLabels selector i → StandsIn ns i → Memᴰ i items)

-- The namespace that is searched, if it is known.
abbrev searched : IncidentSubject → Option String
searched s = if s.namespace == "" then none else some s.namespace

searched_home :
    (s : IncidentSubject) (i : IncidentMemory)
    → i.namespace ≡ incident_home s
    → StandsIn (searched s) i
searched_home s i h = elim (Bool-cases (s.namespace == "")) [
  | inl anywhere ↦ rw (anywhere) tt
  | inr known ↦ rw (known) (h ∙ rw (known) refl)
]

may_continue-IsFor :
    (s : IncidentSubject) (i : IncidentMemory)
    → i.spec.attribution ≡ attribution s
    → i.phase ≢ "Resolved"
    → may_continue s i ≡ true
unfolding matches_incident
may_continue-IsFor s i same unresolved =
    let other = ne→== i.phase "Resolved" unresolved in
    elim (Bool-cases s.is_unattributed) [
      | inl set ↦ rw (other, same, set) refl
      | inr unset ↦ rw (other, same, unset) refl
    ]

find_matching-finds :
    (acc : Access) (n : ℕ) (s : IncidentSubject) (d : Diagnosis) (store : List IncidentMemory)
    (i : IncidentMemory)
    → IsListing acc n store
    → Memᴰ i store
    → IsFor s d i
    → i.phase ≢ "Resolved"
    → (j : IncidentMemory) × (find_matching_incident acc n s d ≡ found (some j))
unfolding find_matching_incident
find_matching-finds acc n s d store i listing there h unresolved =
    let (items, answered, lists) = listing (incident_selector s d) (searched s) in
    let listed : Memᴰ i items =
      lists i there (h.kind_label, (h.name_label, (h.category_label, (h.signal_label, tt))))
        (searched_home s i h.home) in
    elim (Option-cases (find (may_continue s) items)) [
      | inr (j, first) ↦ (j, rw (answered, find_matching_incident) (ap found first))
      | inl nobody ↦
          let passed = find-eq-none (may_continue s) items nobody listed in
          let continues = may_continue-IsFor s i h.attribution unresolved in ground arith
    ]

pub signal_key-IsFor :
    (s : IncidentSubject) (d : Diagnosis) (i : IncidentMemory)
    → IsFor s d i
    → incident_signal_key i ≡ signal_key s d
unfolding incident_signal_key signal_key
signal_key-IsFor s d i h = rw (h.persona_ref, h.category, h.signal) refl

abbrev pub CreatesNone : Sent → Type 0
CreatesNone (created i) = ⊥
CreatesNone _ = Unit

-- An incident that was filed for a subject and a diagnosis, stands in the store and is not resolved
-- keeps the signal key of that diagnosis, and the next diagnosis of that kind creates no second
-- incident. The API server lists the incidents by labels and namespace, and the retries are as
-- documented.
pub find_matching-IsFor :
    (acc : Access) (s : IncidentSubject) (d : Diagnosis) (store : List IncidentMemory)
    (i : IncidentMemory)
    → IsRetrying acc
    → IsListing acc 0 store
    → Memᴰ i store
    → IsFor s d i
    → i.phase ≢ "Resolved"
    → (incident_signal_key i ≡ signal_key s d) × All CreatesNone (process_diagnosis acc s d).1
find_matching-IsFor acc s d store i retrying listing there h unresolved =
    let (j, again) = find_matching-finds acc 0 s d store i listing there h unresolved in
    (
      signal_key-IsFor s d i h,
      process_diagnosis-All CreatesNone acc s d
          (record {
            creates = λ unknown. ground (arith, unknown, again);
            begins = λ _. tt;
            begins_again = λ _ n ns name k _. tt;
            causes = λ n ns name k _. tt;
            counts = λ n ns name k _. tt;
            stores = λ _. tt;
            emits = λ _. tt;
            broadcasts = λ _. tt;
            proposes = λ k may. tt;
            announces = λ _. tt;
          })
          retrying,
    )
