-- ===== src/Tests/Filing.antt =====
-- The theorems on how a diagnosis is filed, at a sample API server.
use dorgu_operator.Common.{
  eq_iff, ap, sym, subst, String, true, false, ◌≡◌, refl, ◌≤◌, ◌<◌, arith, Option, none, some, List,
  [], ◌∷◌, All, Memᴰ, ◌⊎◌,
}
use Prim.Native.String.{len}
use dorgu_operator.Api.{errorf, Error}
use dorgu_operator.Detection.{Signal}
use dorgu_operator.Common.Sort.{sort}
use dorgu_operator.Common.Maps.{lookup, insert}
use dorgu_operator.Detection.Grouping.{group_for, persona_scope, ◌/◌, SignalGroup, group_signals}
use dorgu_operator.Diagnosis.{Diagnosis}
use dorgu_operator.Executor.{Fetched, found, get_error}
use dorgu_operator.Incident.{IncidentMemory}
use dorgu_operator.Incident.Recovery.{RecoveryEvidence}
use dorgu_operator.Incident.Subject.{
  IncidentSubject, signal_key, persona_subject, incident_subject_for,
}
use dorgu_operator.Incident.Names.{generate_incident_name, max_incident_name_length}
use dorgu_operator.Incident.Names.Laws.{generate_incident_name_bounds}
use dorgu_operator.Incident.Diagnosed.{Decimals, refreshed_cause}
use dorgu_operator.Incident.Diagnosed.Laws.{recorded_cause, refreshed_cause-tie}
use dorgu_operator.Incident.Access.{Access}
use dorgu_operator.Incident.Writes.Retrying.{IsRetrying}
use dorgu_operator.Incident.Filing.{new_incident, begun, find_matching_incident, process_diagnosis}
use dorgu_operator.Incident.Filing.Sending.{MayPropose}
use dorgu_operator.Incident.Filing.Laws.{
  ProposalIs, process_diagnosis-MayPropose, IsFor, new_incident-IsFor, WritesOnly,
  process_diagnosis-IsFor, status_IsFor,
}
use dorgu_operator.Incident.Filing.Recorded.{Surfaced}
use dorgu_operator.Incident.Filing.Recurrence.{
  StaysResolved, IsFolded, process_diagnosis-StaysResolved,
}
use dorgu_operator.Incident.Filing.Again.{CreatesNone, find_matching-IsFor}
use dorgu_operator.Incident.Filing.Outcome.{IsOutcome, process_diagnosis-IsOutcome}
use dorgu_operator.Incident.Clearing.{incident_signal_key}
use dorgu_operator.Incident.Stamps.{ensure_labels, update_conditions}
use dorgu_operator.Incident.Controller.{Surroundings, reconcile_incident, sync}
use dorgu_operator.Incident.Controller.Laws.{update_conditions_settles, reconcile_incident_settles}
use dorgu_operator.Incident.Cycle.{CycleInput, closed_by}
use dorgu_operator.Incident.Cycle.Laws.{IsDiagnosed, closed_by-not_diagnosed}
use dorgu_operator.Tests.{signal, incident}
use dorgu_operator.Tests.Incidents.{quiet, listed}
use dorgu_operator.Tests.Diagnosis.{diagnosis}

abbrev subject : IncidentSubject
subject = persona_subject (record { kind = "ApplicationPersona"; name = "web"; namespace = "shop" })

-- Six bytes of a hash that is always the same.
abbrev digits : String → String
digits s = "0123456789ab"

-- A format that rounds 7 to the text of 8.
abbrev rounding : Decimals
rounding = record { format = λ n. "0.85"; parse = λ s. some 8 }

-- An API server that knows one incident, refuses to create another, and accepts every other write.
abbrev access : List IncidentMemory → Option Error → IncidentMemory → Access
access listed refusal stored = record {
  now = 40;
  later = 41;
  decimals = rounding;
  hash = digits;
  message_text = λ m. "";
  nanos = λ n. "41";
  error_text = λ e. "conflict";
  is_conflict = λ e. false;
  is_not_found = λ e. false;
  is_already_exists = λ e. true;
  on_error = λ retriable f w. f 0 w;
  list_incidents = λ n selector ns. found listed;
  get_incident = λ stage n ns name. found stored;
  create_incident = λ i. refusal;
  update_incident = λ stage n i. none;
  update_incident_status = λ stage n i. none;
  list_actions = λ ns name. found [];
  propose = λ d i. found none;
  has_proposer = true;
  has_web_socket = true;
}

abbrev filed : IncidentMemory
filed = begun 30 (new_incident (access [] none incident) subject diagnosis)

abbrev current : Access
current = access (filed ∷ []) none filed

abbrev closed : IncidentMemory
closed = record incident { phase = "Resolved" }

abbrev recurring : Access
recurring = access [] (some (errorf "exists" [])) closed

once :
    (listed : List IncidentMemory) (refusal : Option Error) (stored : IncidentMemory)
    → IsRetrying (access listed refusal stored)
once listed refusal stored retriable f w = (0, refl)

stored_there : {i j : IncidentMemory} → found i ≡ found j → i ≡ j
stored_there {i} e = ap (λ (x : Fetched IncidentMemory). elim x [ found a ↦ a | get_error _ ↦ i ]) e

filed-IsFor : IsFor subject diagnosis filed
filed-IsFor =
    status_IsFor subject diagnosis (new_incident (access [] none incident) subject diagnosis)
      "Detected" 1 (some 30) (new_incident-IsFor (access [] none incident) subject diagnosis)

process_diagnosis-MayPropose_example :
    All
      (ProposalIs (MayPropose current subject diagnosis) diagnosis)
      (process_diagnosis current subject diagnosis).1
process_diagnosis-MayPropose_example =
    process_diagnosis-MayPropose current subject diagnosis (once (filed ∷ []) none filed)

process_diagnosis-IsFor_example :
    All (WritesOnly (IsFor subject diagnosis)) (process_diagnosis current subject diagnosis).1
process_diagnosis-IsFor_example =
    process_diagnosis-IsFor current subject diagnosis (once (filed ∷ []) none filed)
      (λ stage n ns name i read. subst (IsFor subject diagnosis) (stored_there read) filed-IsFor)

process_diagnosis-StaysResolved_example :
    All StaysResolved (process_diagnosis recurring subject diagnosis).1
    × (((process_diagnosis recurring subject diagnosis).0 ≡ none)
          × IsFolded recurring (process_diagnosis recurring subject diagnosis).1
        ⊎ ((cause : Error) × ((process_diagnosis recurring subject diagnosis).0 ≡ some cause)
            × Surfaced (process_diagnosis recurring subject diagnosis).1))
unfolding find_matching_incident
process_diagnosis-StaysResolved_example =
    process_diagnosis-StaysResolved recurring subject diagnosis (errorf "exists" [])
      (once [] (some (errorf "exists" [])) closed) (λ n. refl) refl refl
      (λ stage n ns name i read. sym (ap (λ (j : IncidentMemory). j.phase) (stored_there read)))

find_matching-IsFor_example :
    (incident_signal_key filed ≡ signal_key subject diagnosis)
    × All CreatesNone (process_diagnosis current subject diagnosis).1
find_matching-IsFor_example =
    find_matching-IsFor current subject diagnosis (filed ∷ []) filed (once (filed ∷ []) none filed)
      (λ selector ns. (filed ∷ [], refl, λ i m h k. m)) (Memᴰ.head refl) filed-IsFor
      (λ e. ground (arith, (eq_iff "Detected" "Resolved").1 e))

process_diagnosis-IsOutcome_example :
    IsOutcome current subject diagnosis (process_diagnosis current subject diagnosis)
process_diagnosis-IsOutcome_example =
    process_diagnosis-IsOutcome current subject diagnosis (once (filed ∷ []) none filed)
      (λ stage n ns name i read. subst (IsFor subject diagnosis) (stored_there read) filed-IsFor)

generate_incident_name_bounds_example :
    (len (generate_incident_name digits "shop" "web" "OOMKilled") ≤ max_incident_name_length)
    × (generate_incident_name digits "shop" "web" "OOMKilled"
          ≡ generate_incident_name digits "shop" "api" "OOMKilled"
        → digits ("shop" / "web" / "OOMKilled") ≡ digits ("shop" / "api" / "OOMKilled"))
generate_incident_name_bounds_example =
    generate_incident_name_bounds digits (λ s. refl) "shop" "web" "OOMKilled" "shop" "api"
      "OOMKilled"

abbrev enhanced : Diagnosis
enhanced = record diagnosis { summary = "web leaks memory"; provider = "ai-enhanced" }

refreshed_cause-tie_example :
    (8 ≤ 7
      → refreshed_cause rounding subject enhanced (recorded_cause rounding subject diagnosis)
        ≡ recorded_cause rounding subject enhanced)
    × (7 < 8
        → refreshed_cause rounding subject enhanced (recorded_cause rounding subject diagnosis)
          ≡ recorded_cause rounding subject diagnosis)
refreshed_cause-tie_example =
    refreshed_cause-tie rounding subject diagnosis enhanced 8 (omega arith) refl refl

abbrev out_of_memory : List Signal
out_of_memory = signal "OOMKilled" "web" ∷ []

abbrev cycle : CycleInput
cycle = record {
  now = 900;
  collect_all = found out_of_memory;
  analyze = λ signals. found (diagnosis ∷ []);
  filing = λ n. current;
  list_phase = listed;
  cluster = quiet;
  closing = λ n. current;
  list_phase_again = listed;
  list_actions = found [];
  has_web_socket = true;
}

abbrev web_group : SignalGroup
web_group = record {
  scope = persona_scope;
  key = "persona/ApplicationPersona/shop/web";
  namespace = "shop";
  persona_ref = some record { kind = "ApplicationPersona"; name = "web"; namespace = "shop" };
  workload = "";
  signals = out_of_memory;
}

web-IsDiagnosed : IsDiagnosed cycle.analyze (group_signals out_of_memory) subject diagnosis
unfolding group_signals incident_subject_for sort lookup insert group_for
web-IsDiagnosed = record {
  group = web_group;
  there = Memᴰ.head refl;
  diagnoses = diagnosis ∷ [];
  analyzed = refl;
  is_one = Memᴰ.head refl;
  subject = refl;
}

closed_by-not_diagnosed_example :
    All
      (λ (x : IncidentMemory × RecoveryEvidence). ¬ IsFor subject diagnosis x.0)
      (closed_by cycle out_of_memory)
closed_by-not_diagnosed_example =
    closed_by-not_diagnosed cycle out_of_memory subject diagnosis web-IsDiagnosed

-- A third occurrence, and a controller that reads it.
abbrev surroundings : IncidentMemory → Surroundings
surroundings i = record {
  now = 60;
  message_text = λ m. "";
  is_not_found = λ e. false;
  get_incident = found i;
  update_incident = λ j. none;
  reread_incident = λ n. found i;
  update_incident_status = λ n j. none;
  list_incidents = λ ns name. found [];
  get_persona_status = λ n. found (record { active_incidents = 0; last_incident_time = none });
  update_persona_status = λ n status. none;
  retry_on_conflict = λ f. f 0;
}

update_conditions_settles_example :
    update_conditions 60 (record (update_conditions 50 incident) { occurrence_count = 3 })
    ≡ record (update_conditions 50 incident) { occurrence_count = 3 }
update_conditions_settles_example = update_conditions_settles 50 60 3 incident refl

reconcile_incident_settles_example :
    reconcile_incident (surroundings (update_conditions 50 (ensure_labels incident).0)) ≡ (
      none,
      sync
          (surroundings (update_conditions 50 (ensure_labels incident).0))
          (update_conditions 50 (ensure_labels incident).0),
    )
reconcile_incident_settles_example =
    reconcile_incident_settles (surroundings (update_conditions 50 (ensure_labels incident).0)) 50
      incident refl
