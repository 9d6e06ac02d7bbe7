-- ===== src/Tests.antt =====
-- Sample clusters, actions and patches, at which the theorems are applied.
pub mod Lifecycle
pub mod Checks
pub mod Plans
pub mod Detection
pub mod Workload
pub mod Diagnosis
pub mod Events
pub mod Incidents
mod Filing
mod Refused
use dorgu_operator.Common.{
  ℕ, String, Bool, true, false, Option, none, some, List, [], ◌∷◌, ◌==◌, if◌then◌else◌, ltb, ◌*◌,
  leb,
}
use dorgu_operator.Common.Int.{pos, pos_part}
use dorgu_operator.Json.{Json, str, obj, Fields, end, field, Raw, document}
use dorgu_operator.Api.{errorf, sprintf, Phase, is_true, RemediationStep, RemediationAction}
use dorgu_operator.Detection.{Signal}
use dorgu_operator.Incident.{IncidentMemory}
use dorgu_operator.Executor.{ApplicationPersona, Fetched, found, get_error, Server}
use dorgu_operator.Lifecycle.Effects.{World}
use dorgu_operator.Safety.Readings.{Quantities, View, ClusterPersona, Quantity}

abbrev pub memory_patch : String → Raw
memory_patch amount = document (obj (field "spec" (obj (field "memory" (str amount) end)) end))

abbrev pub step : Bool → RemediationStep
step auto = record {
  order = 1;
  id = "raise";
  type = "persona-update";
  description = "raise the limit";
  rationale = "";
  risk = "low";
  auto_executable = auto;
  command = "";
  patch = some (memory_patch "2Gi");
  pre_patch_state = some (memory_patch "1Gi");
  safety = [];
}

-- A plan with one step that raises a memory limit, in a phase, with its time of application.
abbrev pub action_in : Phase → Option ℕ → RemediationAction
action_in phase applied_at = record {
  name = "fix";
  namespace = "shop";
  creation_timestamp = 10;
  spec = record {
    incident_ref = record { name = "oom"; namespace = "" };
    persona_ref = record { kind = "ApplicationPersona"; name = "web"; namespace = "shop" };
    action = record {
      type = "persona-update";
      patch = some (memory_patch "2Gi");
      pre_patch_state = some (memory_patch "1Gi");
    };
    steps = step true ∷ [];
    plan_summary = "";
    explanation = "";
    confidence = "high";
    rollback = some record { enabled = true; health_check_after = some 60; max_retries = 1 };
  };
  status = record {
    phase = phase;
    applied_at = applied_at;
    verification_result = "";
    conditions = [];
  };
}

abbrev pub web : ApplicationPersona
web = record {
  name = "web";
  namespace = "shop";
  deleting = false;
  spec = field "memory" (str "1Gi") end;
}

-- An API server with one persona, which accepts every update.
abbrev pub server : Server
server = record {
  get_persona = λ namespace name. found web;
  update_persona = λ p. none;
  recode = λ m. some m;
}

abbrev pub incident : IncidentMemory
incident = record {
  name = "oom";
  namespace = "shop";
  labels = [];
  spec = record {
    persona_ref = record { kind = "ApplicationPersona"; name = "web"; namespace = "shop" };
    attribution = "persona";
    category = "resource";
    severity = "warning";
    detection = record {
      signal = "OOMKilled";
      source = "rule-engine";
      first_seen = 5;
      last_seen = 7;
      affected_resources = record { kind = "Pod"; name = "web-1"; namespace = "shop" } ∷ [];
    };
    root_cause = none;
    resolution = none;
  };
  phase = "Detected";
  occurrence_count = 2;
  last_occurrence = some 7;
  conditions = [];
}

abbrev pub signal : String → String → Signal
signal type name = record {
  type = type;
  severity = "warning";
  category = "pod";
  source = "pods";
  message = "";
  resource = record { kind = "Pod"; name = "web-1"; namespace = "shop" };
  persona_ref = some record { kind = "ApplicationPersona"; name = name; namespace = "shop" };
  detected_at = 20;
  metadata = [];
}

-- A pass at a time, with the signals that are up and the answer of the incident's reading.
abbrev pub world : ℕ → List Signal → Fetched IncidentMemory → World
world now signals answer = record {
  now = now;
  server = server;
  update_status = λ a. none;
  signals = found signals;
  get_incident = λ namespace name. answer;
  update_incident = λ i. none;
  reread_incident = λ n. answer;
  update_incident_status = λ n i. none;
  reread_action = λ n. get_error (errorf "gone" []);
  reupdate_status = λ n a. none;
  inspect_rollback =
      λ a. record { status = is_true; reason = "Diverged"; message = sprintf "by hand" [] };
  retry_on_conflict = λ f. f 0;
  has_web_socket = true;
}

abbrev pub calm : ℕ → World
calm now = world now (signal "OOMKilled" "other" ∷ []) (found incident)

abbrev pub blind : ℕ → World
blind now = world now [] (get_error (errorf "timeout" []))

abbrev pub policy : ClusterPersona
policy = record {
  name = "cluster";
  policies = some record {
    self_healing =
        some record { mode = ""; max_remediations_per_hour = 2; exclude_namespaces = "bank" ∷ [] };
  };
}

abbrev pub view : ℕ → List RemediationAction → View
view now others = record {
  now = now;
  list_cluster_personas = found (policy ∷ []);
  list_actions = λ kind name namespace. found others;
}

-- A quantity parser that knows three texts.
abbrev pub parse : String → Option Quantity
parse s =
    if s == "1Gi"
    then some record { amount = pos 1; text = s }
    else if s == "2Gi"
    then some record { amount = pos 2; text = s }
    else if s == "8Gi"
    then some record { amount = pos 8; text = s }
    else none

-- Quantities and the ratios of them, by three of the texts of a float64.
abbrev pub quantities : Quantities
quantities = record {
  parse_quantity = parse;
  as_approximate_float64 = λ v. pos_part v.amount;
  quotient = λ m n.
      if ltb (2 * n) m
      then 0x4010000000000000
      else if ltb (2 * m) n
      then 0x3fd0000000000000
      else 0x3ff0000000000000;
  less = ltb;
  at_most = leb;
}
