-- ===== src/Tests/Checks.antt =====
-- The theorems on the safety checks, on rejections and on kubectl commands, at sample inputs.
use dorgu_operator.Proposer.{propose_guards, goes_on}
use dorgu_operator.Proposer.Laws.{MayPlan, propose_guards_iff}
use dorgu_operator.Common.{
  String, ◌≡◌, ◌≢◌, ◌↔◌, refl, true, none, some, List, [], ◌∷◌, All, Memᴰ, contains→Memᴰ, arith,
}
use dorgu_operator.Common.Int.{pos}
use dorgu_operator.Common.Maps.{keys, insert, lookup}
use dorgu_operator.Common.Sort.{sort, insert_sorted}
use dorgu_operator.Common.Text.{fields, fields_from, has_prefix, cut}
use dorgu_operator.Json.{unmarshal_object}
use dorgu_operator.Api.{approved, rejected, RemediationAction}
use dorgu_operator.Conditions.{has_condition}
use dorgu_operator.Detection.{severity_rank}
use dorgu_operator.Safety.{check, finish_check}
use dorgu_operator.Safety.Readings.{Quantity}
use dorgu_operator.Safety.RateLimit.{
  check_rate_limit, check_concurrent, check_failed_cooldown, list_recent_actions,
  list_persona_actions, get_max_remediations_per_hour, cooling_down,
}
use dorgu_operator.Safety.BlastRadius.{
  breach, check_blast_radius, parse_resource_patch, extract_resources, violations, field_breach,
}
use dorgu_operator.Safety.BlastRadius.Laws.{FieldFits, check_blast_radius_iff}
use dorgu_operator.Safety.DenyList.{check_deny_list, namespace_denied, get_excluded_namespaces}
use dorgu_operator.Lifecycle.Rejection.{stamped}
use dorgu_operator.Diagnosis.{Diagnosis, primary_signal_type}
use dorgu_operator.Rejection.{first_reason, target_unchanged, severity_escalated}
use dorgu_operator.Rejection.Laws.{stamped_suppresses}
use dorgu_operator.Kubectl.{
  find_verb, reads_only, writes_workload, flag_kind, kubectl_verb, verb_of_fields, verb_reads_only,
  verbs_with_subcommands, subcommand_reads_only,
}
use dorgu_operator.Kubectl.Tables.{mutating_kubectl_verbs}
use dorgu_operator.Kubectl.Laws.{
  Names, verb, valued_flag, Reads, reads_only-Reads, writes_workload_mutating,
}
use dorgu_operator.Tests.{
  signal, action_in, memory_patch, quantities, incident, calm, found, policy,
}

checker : Unit {0}
unfolding check finish_check check_rate_limit check_concurrent check_failed_cooldown
    list_recent_actions list_persona_actions get_max_remediations_per_hour cooling_down
    check_blast_radius parse_resource_patch extract_resources violations field_breach breach
    check_deny_list namespace_denied get_excluded_namespaces insert lookup sort insert_sorted
    unmarshal_object
checker = tt

abbrev fix : RemediationAction
fix = action_in approved none

abbrev doubled : List (String × Quantity)
doubled = ("spec.memory", record { amount = pos 2; text = "2Gi" }) ∷ []

abbrev before : List (String × Quantity)
before = ("spec.memory", record { amount = pos 1; text = "1Gi" }) ∷ []

check_blast_radius_iff_example :
    (check_blast_radius quantities fix ≡ [])
    ↔ All (FieldFits quantities doubled before) (keys doubled)
unfolding checker
check_blast_radius_iff_example =
    check_blast_radius_iff quantities fix (memory_patch "2Gi") (memory_patch "1Gi") doubled before
      refl refl refl refl refl

abbrev again : Diagnosis
again = record {
  persona_ref = some record { kind = "ApplicationPersona"; name = "web"; namespace = "shop" };
  summary = "web was out of memory";
  confidence = 7;
  provider = "rule-engine";
  category = "resource";
  severity = "warning";
  affected_resources = [];
  contributing = record { signal = signal "OOMKilled" "web"; detail = "" } ∷ [];
  suggested_action = "resource-adjustment";
}

abbrev declined : RemediationAction
declined = action_in rejected none

stamped_suppresses_example :
    first_reason 200 again incident (stamped (calm 100) declined ∷ []) ≢ none
unfolding has_condition primary_signal_type target_unchanged severity_escalated severity_rank
stamped_suppresses_example =
    stamped_suppresses (calm 100) declined again incident (stamped (calm 100) declined ∷ []) 200
      refl (ground arith) refl (omega arith) (Memᴰ.head refl)

grammar : Unit {0}
unfolding fields fields_from has_prefix cut flag_kind find_verb reads_only kubectl_verb
    verb_of_fields verb_reads_only verbs_with_subcommands subcommand_reads_only
grammar = tt

reads_only-Reads_example :
    (ts : List String) × (v : String) × (args : List String) × (fields
        "kubectl -n shop rollout status deploy/web"
      ≡ "kubectl" ∷ ts)
    × Names ts v args
    × Reads v args
unfolding grammar
reads_only-Reads_example = reads_only-Reads "kubectl -n shop rollout status deploy/web" refl

writes_workload_mutating_example : writes_workload "kubectl -n get delete pod" ≡ true
unfolding grammar
writes_workload_mutating_example =
    writes_workload_mutating "kubectl -n get delete pod" ("-n" ∷ "get" ∷ "delete" ∷ "pod" ∷ [])
      "delete" ("pod" ∷ []) refl (valued_flag refl refl (verb refl))
      (contains→Memᴰ mutating_kubectl_verbs "delete" refl)

propose_guards_iff_example :
    (propose_guards
        (found (policy ∷ []))
        (λ ns. none)
        (λ ns name. found (declined ∷ []))
        again
        (some incident)
      ≡ goes_on (record { kind = "ApplicationPersona"; name = "web"; namespace = "shop" }))
    ↔ MayPlan
        (found (policy ∷ []))
        (λ ns. none)
        (λ ns name. found (declined ∷ []))
        (record { kind = "ApplicationPersona"; name = "web"; namespace = "shop" })
        again
        incident
propose_guards_iff_example =
    propose_guards_iff (found (policy ∷ [])) (λ ns. none) (λ ns name. found (declined ∷ []))
      (record { kind = "ApplicationPersona"; name = "web"; namespace = "shop" }) again incident refl
