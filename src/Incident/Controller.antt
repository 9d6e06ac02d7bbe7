-- ===== src/Incident/Controller.antt =====
-- internal/controller/incident_controller.go: one pass over an incident, and the count of its persona's
-- open incidents.
pub mod Laws
use dorgu_operator.Common.{
  ℕ, suc, ◌+◌, String, Bool, true, false, ◌&&◌, ◌||◌, not, Option, none, some, List, [], ◌∷◌, ◌++◌,
  eqb, ltb, ◌==◌, if◌then◌else◌,
}
use dorgu_operator.Common.Maps.{insert, text_at}
use dorgu_operator.Api.{
  word, num, Error, wrap, Message, sprintf, ConditionStatus, is_true, is_false, Condition,
}
use dorgu_operator.Conditions.{set_condition, status_eq}
use dorgu_operator.Executor.{Fetched, found, get_error}
use dorgu_operator.Incident.Stamps.{ensure_labels, update_conditions}
use dorgu_operator.Incident.{IncidentMemory}

-- What the controller writes of the status of an ApplicationPersona.
pub record PersonaStatus : Type 0 where
  pub active_incidents : ℕ
  pub last_incident_time : Option ℕ

pub data Write : Type 0 where
  labels_update : IncidentMemory → Write
  conditions_update : IncidentMemory → Write
  persona_status_update : String → String → PersonaStatus → Write

-- The answer of one attempt inside a retry loop, with the incident in memory and what was sent.
pub record Tried : Type 0 where
  pub incident : IncidentMemory
  pub error : Option Error
  pub writes : List Write

-- What the clock and the API server answer in one pass; inside a retry loop by the attempt.
pub record Surroundings : Type 0 where
  pub now : ℕ
  pub message_text : Message → String
  pub is_not_found : Error → Bool
  pub get_incident : Fetched IncidentMemory
  pub update_incident : IncidentMemory → Option Error
  pub reread_incident : ℕ → Fetched IncidentMemory
  pub update_incident_status : ℕ → IncidentMemory → Option Error
  pub list_incidents : String → String → Fetched (List IncidentMemory)
  pub get_persona_status : ℕ → Fetched PersonaStatus
  pub update_persona_status : ℕ → PersonaStatus → Option Error
  pub retry_on_conflict : (ℕ → Tried) → Tried

-- reflect.DeepEqual on conditions.
unfoldable pub condition_eq : (Message → String) → Condition → Condition → Bool
condition_eq text c d =
    c.type == d.type
    && status_eq c.status d.status
    && c.reason == d.reason
    && text c.message == text d.message
    && eqb c.last_transition_time d.last_transition_time

unfoldable pub conditions_eq : (Message → String) → List Condition → List Condition → Bool
unfolding condition_eq
conditions_eq text [] [] = true
conditions_eq text (c ∷ cs) (d ∷ ds) = condition_eq text c d && conditions_eq text cs ds
conditions_eq text _ _ = false

unfoldable pub rewrite_conditions : Surroundings → IncidentMemory → ℕ → Tried
unfolding update_conditions
rewrite_conditions w i n = elim (w.reread_incident n) [
  | get_error e ↦ record { incident = i; error = some e; writes = [] }
  | found fresh ↦
      (let j = update_conditions w.now fresh in
        record {
          incident = j;
          error = w.update_incident_status n j;
          writes = conditions_update j ∷ [];
        })
]

-- The count of the incidents that are not resolved, and the latest occurrence of all.
unfoldable pub count_open : List IncidentMemory → ℕ
count_open [] = 0
count_open (i ∷ is) = let rest = count_open is in if i.phase == "Resolved" then rest else suc rest

abbrev pub later_of : Option ℕ → Option ℕ → Option ℕ
later_of latest none = latest
later_of none (some t) = some t
later_of (some l) (some t) = if ltb l t then some t else some l

unfoldable pub latest_time : Option ℕ → List IncidentMemory → Option ℕ
latest_time latest [] = latest
latest_time latest (i ∷ is) = latest_time (later_of latest i.last_occurrence) is

-- timeEqual
abbrev pub time_equal : Option ℕ → Option ℕ → Bool
time_equal none none = true
time_equal (some a) (some b) = eqb a b
time_equal _ _ = false

-- One attempt of syncPersonaStatus: nothing is written where nothing changed.
unfoldable pub sync_attempt : Surroundings → IncidentMemory → PersonaStatus → ℕ → Tried
sync_attempt w i status n = elim (w.get_persona_status n) [
  | get_error e ↦ record { incident = i; error = some e; writes = [] }
  | found current ↦
      if eqb current.active_incidents status.active_incidents
        && time_equal current.last_incident_time status.last_incident_time
      then record { incident = i; error = none; writes = [] }
      else record {
        incident = i;
        error = w.update_persona_status n status;
        writes =
            persona_status_update i.spec.persona_ref.namespace i.spec.persona_ref.name status ∷ [];
      }
]

-- syncPersonaStatus
unfoldable pub sync_persona_status : Surroundings → IncidentMemory → Tried
unfolding count_open latest_time sync_attempt
sync_persona_status w i = elim (w.list_incidents i.namespace i.spec.persona_ref.name) [
  | get_error e ↦ record {
    incident = i;
    error = some (wrap "listing incidents: %w" [] e);
    writes = [];
  }
  | found items ↦ w.retry_on_conflict (
      sync_attempt w i (record {
        active_incidents = count_open items;
        last_incident_time = latest_time none items;
      }))
]

-- An error of syncPersonaStatus is only logged.
unfoldable pub sync : Surroundings → IncidentMemory → List Write
unfolding sync_persona_status
sync w i =
    if i.spec.persona_ref.kind == "ApplicationPersona" && not (i.spec.attribution == "unattributed")
    then (sync_persona_status w i).writes
    else []

-- The conditions are written where one of them changed; what follows is the persona.
unfoldable pub with_conditions :
    Surroundings → List Condition → IncidentMemory → Option Error × List Write
unfolding conditions_eq rewrite_conditions sync
with_conditions w before i =
    if conditions_eq w.message_text before i.conditions
    then (none, sync w i)
    else (let last = w.retry_on_conflict (rewrite_conditions w i) in
        elim last.error [
          | some e ↦ (some (wrap "updating conditions: %w" [] e), last.writes)
          | none ↦ (none, last.writes ++ sync w last.incident)
        ])

-- Reconcile, from its third step.
unfoldable pub reconcile_conditions : Surroundings → IncidentMemory → Option Error × List Write
unfolding update_conditions with_conditions
reconcile_conditions w i = with_conditions w i.conditions (update_conditions w.now i)

-- The labels are written first, where one of them changed.
abbrev pub with_labels : Surroundings → IncidentMemory × Bool → Option Error × List Write
with_labels w (j, false) = reconcile_conditions w j
with_labels w (j, true) = elim (w.update_incident j) [
  | some e ↦ (some (wrap "updating labels: %w" [] e), labels_update j ∷ [])
  | none ↦ (let (error, writes) = reconcile_conditions w j in (error, labels_update j ∷ writes))
]

abbrev pub reconcile_answer : Surroundings → Fetched IncidentMemory → Option Error × List Write
reconcile_answer w (get_error e) = if w.is_not_found e then (none, []) else (some e, [])
reconcile_answer w (found i) = with_labels w (ensure_labels i)

-- Reconcile: its error, and what it wrote.
unfoldable pub reconcile_incident : Surroundings → Option Error × List Write
unfolding ensure_labels reconcile_conditions
reconcile_incident w = reconcile_answer w w.get_incident
