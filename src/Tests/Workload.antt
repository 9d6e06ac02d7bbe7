-- ===== src/Tests/Workload.antt =====
-- The theorems on the Deployment of a persona, on its owner and on recovery, at a sample cluster.
use dorgu_operator.Common.{◌≡◌, ◌↔◌, refl, true, false, none, some, [], ◌∷◌, ◌+◌}
use dorgu_operator.Common.Int.{pos}
use dorgu_operator.Api.{is_true}
use dorgu_operator.Executor.{found}
use dorgu_operator.Workload.{Deployment, ManagedFieldsEntry}
use dorgu_operator.Workload.Match.{metadata_name, chain, resolve, resolved}
use dorgu_operator.Workload.Match.Laws.{Chooses, resolve_iff}
use dorgu_operator.Workload.Ownership.{
  detect_owner, unmanaged, lower_has_prefix, is_known_benign_manager,
}
use dorgu_operator.Workload.Ownership.Laws.{HasNoOwner, detect_owner_unmanaged_iff}
use dorgu_operator.Workload.Ownership.Benign.{detect_owner-benign}
use dorgu_operator.Incident.Recovery.{Pod, recovered, recovery_stability_window, verify_recovery}
use dorgu_operator.Incident.Recovery.Laws.{HasRecovered, recovered_iff}
use dorgu_operator.Tests.{incident}

abbrev by_hand : ManagedFieldsEntry
by_hand = record { manager = "kubectl-edit"; operation = "Update"; fields_v1 = none }

abbrev pub deployment : Deployment
deployment = record {
  name = "web";
  namespace = "shop";
  labels = ("app", "shop") ∷ [];
  annotations = [];
  match_labels = none;
  replicas = some (pos 2);
  managed_fields = by_hand ∷ [];
}

abbrev other : Deployment
other = record deployment { name = "cart" }

resolve_iff_example :
    (resolve (other ∷ deployment ∷ []) "web" ≡ resolved deployment metadata_name)
    ↔ Chooses chain (other ∷ deployment ∷ []) "web" deployment metadata_name
resolve_iff_example = resolve_iff (other ∷ deployment ∷ []) "web" deployment metadata_name (λ e. cc)

detect_owner_unmanaged_iff_example :
    ((detect_owner (some deployment)).managed_by ≡ unmanaged) ↔ HasNoOwner deployment
detect_owner_unmanaged_iff_example = detect_owner_unmanaged_iff deployment

abbrev by_tool : ManagedFieldsEntry
by_tool = record { manager = "some-tool"; operation = "Apply"; fields_v1 = none }

detect_owner-benign_example :
    detect_owner (some (record deployment { managed_fields = by_hand ∷ by_tool ∷ [] }))
    ≡ detect_owner (some (record deployment { managed_fields = by_tool ∷ [] }))
unfolding is_known_benign_manager lower_has_prefix
detect_owner-benign_example = detect_owner-benign deployment [] (by_tool ∷ []) by_hand refl

abbrev pub pod : Pod
pod = record {
  name = "web-2";
  deleting = false;
  phase = "Running";
  reason = "";
  conditions = record { type = "Ready"; status = is_true; last_transition_time = 50 } ∷ [];
  container_statuses =
      record {
        name = "main";
        ready = true;
        waiting = none;
        terminated = false;
        last_termination = some (40, "OOMKilled");
      }
      ∷ [];
  init_container_statuses = [];
}

recovered_iff_example :
    (recovered (
        verify_recovery
          (λ ns. found (pod ∷ []))
          (λ ns. found (deployment ∷ []))
          incident
          (recovery_stability_window + 60))
      ≡ true)
    ↔ HasRecovered
        (λ ns. found (pod ∷ []))
        (λ ns. found (deployment ∷ []))
        incident
        (recovery_stability_window + 60)
recovered_iff_example =
    recovered_iff (λ ns. found (pod ∷ [])) (λ ns. found (deployment ∷ [])) incident
      (recovery_stability_window + 60)
