-- ===== src/Incident/Controller/Laws.antt =====
-- That the controller of incidents settles: a pass over what a pass has left changes nothing.
use dorgu_operator.Common.{
  ℕ, String, Bool, true, false, ◌≡◌, refl, sym, ap, ◌∙◌, subst, arith, List, [], ◌∷◌, All, some,
  contains, NoRepeat, Bool-cases, inl, inr, eq_iff, eq_refl, ◌==◌, ltb, none,
}
use dorgu_operator.Common.Maps.{text_at, insert, keys, text_at-insert}
use dorgu_operator.Api.{ConditionStatus, Condition, Message}
use dorgu_operator.Conditions.{set_condition, find_condition}
use dorgu_operator.Conditions.Laws.{
  set_condition_idle, set_condition_sets, set_condition_others, status_eq_refl,
}
use dorgu_operator.Executor.{found}
use dorgu_operator.Incident.{IncidentMemory}
use dorgu_operator.Incident.Stamps.{
  expected_labels, set_labels, ensure_labels, set_detected, set_resolved, set_recurring,
  update_conditions,
}
use dorgu_operator.Incident.Controller.{
  with_conditions, with_labels, reconcile_answer, sync, reconcile_incident, reconcile_conditions,
  Surroundings, conditions_eq, condition_eq,
}

-- A condition of a type has a status and a reason.
abbrev Shows : List Condition → String → ConditionStatus → String → Type 0
Shows cs type status reason =
    (c : Condition) × (find_condition cs type ≡ some c) × (c.status ≡ status) × (c.reason ≡ reason)

set_condition-Shows :
    (now : ℕ) (cs : List Condition) (type : String) (status : ConditionStatus) (reason : String)
    (message : Message)
    → Shows (set_condition now cs type status reason message) type status reason
set_condition-Shows now cs type status reason message =
    let (c, f, _, s, r) = set_condition_sets now cs type status reason message in (c, f, s, r)

set_condition-keeps :
    (now : ℕ) (cs : List Condition) (type t : String) (status : ConditionStatus) (reason : String)
    (message : Message) {st : ConditionStatus} {re : String}
    → (type == t) ≡ false
    → Shows cs t st re
    → Shows (set_condition now cs type status reason message) t st re
set_condition-keeps now cs type t status reason message other (c, f, s, r) = (
  c,
  set_condition_others now cs type t status reason message
        (λ e. ground (arith, (eq_iff type t).1 e))
      ∙ f,
  s,
  r,
)

set_condition-same :
    (now : ℕ) (cs : List Condition) (type : String) (status : ConditionStatus) (reason : String)
    (message : Message)
    → Shows cs type status reason
    → set_condition now cs type status reason message ≡ cs
set_condition-same now cs type status reason message (c, f, s, r) =
    rw (← s, ← r) (set_condition_idle now cs type message f)

-- The conditions of an incident whose phase did not change, and whose occurrences are still one, or
-- still more than one, stay as they are: the message that says how often it occurred, too.
pub update_conditions_settles :
    (now later m : ℕ) (i : IncidentMemory)
    → ltb 1 m ≡ ltb 1 i.occurrence_count
    → update_conditions later (record (update_conditions now i) { occurrence_count = m })
      ≡ record (update_conditions now i) { occurrence_count = m }
unfolding update_conditions
update_conditions_settles now later m i same =
    let s1 = set_detected now i i.conditions in
    let s2 = set_resolved now i s1 in
    let s3 = set_recurring now i s2 in
    let j : IncidentMemory = record i { conditions = s3; occurrence_count = m } in
    let first : set_detected later j s3 ≡ s3 = set_condition-same later s3 "Detected" _ _ _ (
      set_condition-keeps now s2 "Recurring" "Detected" _ _ _ refl (
        set_condition-keeps now s1 "Resolved" "Detected" _ _ _ refl
          (set_condition-Shows now i.conditions "Detected" _ _ _))) in
    let second : set_resolved later j s3 ≡ s3 = set_condition-same later s3 "Resolved" _ _ _ (
      set_condition-keeps now s2 "Recurring" "Resolved" _ _ _ refl
        (set_condition-Shows now s1 "Resolved" _ _ _)) in
    let third : set_recurring later j s3 ≡ s3 =
      set_condition-same later s3 "Recurring" _ _ _
        (rw same (set_condition-Shows now s2 "Recurring" _ _ _)) in
    ap (λ (cs : List Condition). record j { conditions = cs })
      (ap (λ cs. set_recurring later j (set_resolved later j cs)) first
        ∙ ap (λ cs. set_recurring later j cs) second
        ∙ third)

set_labels-others :
    (at : String) (expected labels : List (String × String))
    → contains (keys expected) at ≡ false
    → text_at at (set_labels expected labels).0 ≡ text_at at labels
unfolding set_labels
set_labels-others at [] labels absent = refl
set_labels-others at ((key, value) ∷ expected) labels absent =
    let skipped = set_labels-others at expected labels in
    let written = set_labels-others at expected (insert key value labels) in
    ground (arith, text_at-insert key at value labels)

abbrev Agrees : List (String × String) → List (String × String) → Type 0
Agrees expected labels = All (λ (l : String × String). text_at l.0 labels ≡ l.1) expected

set_labels-Agrees :
    (expected labels : List (String × String))
    → NoRepeat (keys expected)
    → Agrees expected (set_labels expected labels).0
unfolding set_labels
set_labels-Agrees [] labels once = tt
set_labels-Agrees ((key, value) ∷ expected) labels once =
    elim (Bool-cases (text_at key labels == value)) [
      | inl there ↦
          let same : set_labels ((key, value) ∷ expected) labels ≡ set_labels expected labels =
            rw (there, set_labels) refl in
          let own =
            set_labels-others key expected labels once.0
            ∙ (eq_iff (text_at key labels) value).0 there in
          subst (λ (r : List (String × String) × Bool). Agrees ((key, value) ∷ expected) r.0)
            (sym same) (own, set_labels-Agrees expected labels once.1)
      | inr missing ↦
          let next = insert key value labels in
          let same : set_labels ((key, value) ∷ expected) labels
              ≡ ((set_labels expected next).0, true) =
            rw (missing, set_labels) refl in
          let written : text_at key next ≡ value =
            text_at-insert key key value labels ∙ rw (eq_refl key) refl in
          subst (λ (r : List (String × String) × Bool). Agrees ((key, value) ∷ expected) r.0)
            (sym same)
            (
              set_labels-others key expected next once.0 ∙ written,
              set_labels-Agrees expected next once.1,
            )
    ]

set_labels_idle :
    (expected labels : List (String × String))
    → Agrees expected labels
    → set_labels expected labels ≡ (labels, false)
unfolding set_labels
set_labels_idle [] labels h = refl
set_labels_idle ((key, value) ∷ expected) labels (here, rest) =
    rw (here, eq_refl value) (set_labels_idle expected labels rest)

expected-NoRepeat : (i : IncidentMemory) → NoRepeat (keys (expected_labels i))
unfolding expected_labels
expected-NoRepeat i = elim (Bool-cases (i.spec.attribution == "")) [
  | inl silent ↦ elim (Bool-cases (i.phase == "")) [
    | inl new ↦ rw (silent, new) (refl, (refl, (refl, (refl, (refl, (refl, tt))))))
    | inr old ↦ rw (silent, old) (refl, (refl, (refl, (refl, (refl, (refl, (refl, tt)))))))
  ]
  | inr stated ↦ elim (Bool-cases (i.phase == "")) [
    | inl new ↦ rw (stated, new) (refl, (refl, (refl, (refl, (refl, (refl, (refl, tt)))))))
    | inr old ↦ rw (stated, old) (refl, (refl, (refl, (refl, (refl, (refl, (refl, (refl, tt))))))))
  ]
]

ensure_labels_idle :
    (now : ℕ) (i : IncidentMemory)
    → ensure_labels (update_conditions now (ensure_labels i).0)
      ≡ (update_conditions now (ensure_labels i).0, false)
unfolding ensure_labels expected_labels update_conditions
ensure_labels_idle now i =
    let idle : set_labels (expected_labels i) (set_labels (expected_labels i) i.labels).0
        ≡ ((set_labels (expected_labels i) i.labels).0, false) =
      set_labels_idle (expected_labels i) (set_labels (expected_labels i) i.labels).0
        (set_labels-Agrees (expected_labels i) i.labels (expected-NoRepeat i)) in
    ap
      (λ (r : List (String × String) × Bool).
        (record (update_conditions now (ensure_labels i).0) { labels = r.0 }, r.1))
      idle

conditions_eq_refl :
    (text : Message → String) (cs : List Condition) → conditions_eq text cs cs ≡ true
unfolding conditions_eq condition_eq
conditions_eq_refl text [] = refl
conditions_eq_refl text (c ∷ cs) = ground (
  arith,
  eq_refl c.type,
  status_eq_refl c.status,
  eq_refl c.reason,
  eq_refl (text c.message),
  conditions_eq_refl text cs,
)

pass_conditions :
    (w : Surroundings) (j : IncidentMemory)
    → update_conditions w.now j ≡ j
    → reconcile_conditions w j ≡ (none, sync w j)
unfolding reconcile_conditions with_conditions
pass_conditions w j still =
    ap (with_conditions w j.conditions) still
    ∙ (rw (conditions_eq_refl w.message_text j.conditions, with_conditions) refl)

-- A pass over what a pass has left of an incident writes neither labels nor conditions again; only
-- the status of its persona may follow.
pub reconcile_incident_settles :
    (w : Surroundings) (now : ℕ) (i : IncidentMemory)
    → w.get_incident ≡ found (update_conditions now (ensure_labels i).0)
    → reconcile_incident w ≡ (none, sync w (update_conditions now (ensure_labels i).0))
unfolding reconcile_incident
reconcile_incident_settles w now i answered =
    let j = update_conditions now (ensure_labels i).0 in
    let still : update_conditions w.now j ≡ j =
      update_conditions_settles now w.now i.occurrence_count (ensure_labels i).0 refl in
    ap (reconcile_answer w) answered
    ∙ ap (with_labels w) (ensure_labels_idle now i)
    ∙ pass_conditions w j still
