-- ===== src/Incident/Stamps.antt =====
-- internal/controller/incident_controller.go: the labels and the conditions of an incident. A Go map
-- has no order; the labels are set in one.
use dorgu_operator.Common.{
  ℕ, String, Bool, true, false, ◌||◌, List, [], ◌∷◌, ◌++◌, ltb, ◌==◌, if◌then◌else◌,
}
use dorgu_operator.Common.Maps.{insert, text_at}
use dorgu_operator.Api.{word, num, sprintf, is_true, is_false, Condition}
use dorgu_operator.Conditions.{set_condition}
use dorgu_operator.Incident.{IncidentMemory}

-- Labels that are expected only where the text is there.
abbrev pub where_known : String → String → List (String × String)
where_known key value = if value == "" then [] else (key, value) ∷ []

unfoldable pub expected_labels : IncidentMemory → List (String × String)
expected_labels i =
    ("dorgu.io/persona-kind", i.spec.persona_ref.kind)
      ∷ ("dorgu.io/persona-name", i.spec.persona_ref.name)
      ∷ ("dorgu.io/persona-namespace", i.spec.persona_ref.namespace)
      ∷ ("dorgu.io/category", i.spec.category)
      ∷ ("dorgu.io/severity", i.spec.severity)
      ∷ ("dorgu.io/signal", i.spec.detection.signal)
      ∷ where_known "dorgu.io/attribution" i.spec.attribution
    ++ where_known "dorgu.io/phase" i.phase

-- The loop of ensureLabels: the labels, and whether one of them changed.
unfoldable pub set_labels :
    List (String × String) → List (String × String) → List (String × String) × Bool
unfolding text_at insert
set_labels [] labels = (labels, false)
set_labels ((key, value) ∷ expected) labels =
    if text_at key labels == value
    then set_labels expected labels
    else ((set_labels expected (insert key value labels)).0, true)

-- ensureLabels
unfoldable pub ensure_labels : IncidentMemory → IncidentMemory × Bool
unfolding expected_labels set_labels
ensure_labels i =
    let (labels, changed) = set_labels (expected_labels i) i.labels in
    (record i { labels = labels }, changed)

abbrev pub is_open : String → Bool
is_open phase = phase == "Detected" || phase == "Investigating"

abbrev pub set_detected : ℕ → IncidentMemory → List Condition → List Condition
set_detected now i cs =
    let up = is_open i.phase in
    set_condition now cs "Detected" (if up then is_true else is_false)
      (if up then "SignalActive" else "NotDetected")
      (if up
        then sprintf "Incident detected: %s" (word i.spec.detection.signal ∷ [])
        else sprintf "Incident is not in detected state" [])

abbrev pub set_resolved : ℕ → IncidentMemory → List Condition → List Condition
set_resolved now i cs =
    let over = i.phase == "Resolved" in
    set_condition now cs "Resolved" (if over then is_true else is_false)
      (if over then "SignalCleared" else "NotResolved")
      (if over
        then sprintf "Incident has been resolved" []
        else sprintf "Incident is not resolved" [])

abbrev pub set_recurring : ℕ → IncidentMemory → List Condition → List Condition
set_recurring now i cs =
    let again = ltb 1 i.occurrence_count in
    set_condition now cs "Recurring" (if again then is_true else is_false)
      (if again then "MultipleOccurrences" else "FirstOccurrence")
      (if again
        then sprintf "Incident has occurred %d times" (num i.occurrence_count ∷ [])
        else sprintf "This is the first occurrence" [])

-- updateConditions
unfoldable pub update_conditions : ℕ → IncidentMemory → IncidentMemory
unfolding set_condition
update_conditions now i = record i {
  conditions = set_recurring now i (set_resolved now i (set_detected now i i.conditions));
}
