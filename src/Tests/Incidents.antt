-- ===== src/Tests/Incidents.antt =====
-- The theorem on the incidents that a cycle closes, at a sample cluster.
use dorgu_operator.Common.{ℕ, ◌+◌, String, List, [], ◌∷◌, All, ◌==◌, if◌then◌else◌}
use dorgu_operator.Executor.{Fetched, found}
use dorgu_operator.Incident.{IncidentMemory}
use dorgu_operator.Incident.Recovery.{RecoveryEvidence, recovery_stability_window}
use dorgu_operator.Incident.Clearing.{Cluster, resolve_cleared}
use dorgu_operator.Incident.Clearing.Laws.{IsListed, MayClose, resolve_cleared-MayClose}
use dorgu_operator.Tests.{incident}
use dorgu_operator.Tests.Workload.{pod, deployment}

abbrev pub listed : String → Fetched (List IncidentMemory)
listed phase = found (if phase == "Detected" then incident ∷ [] else [])

abbrev pub quiet : ℕ → Cluster
quiet n = record {
  list_pods = λ ns. found (pod ∷ []);
  list_deployments = λ ns. found (deployment ∷ []);
  list_attributed = λ ns name. found [];
}

resolve_cleared-MayClose_example :
    All
      (λ (x : IncidentMemory × RecoveryEvidence).
        IsListed listed x.0 × MayClose quiet [] (recovery_stability_window + 60) x.0)
      (resolve_cleared listed quiet [] (recovery_stability_window + 60)).1
resolve_cleared-MayClose_example =
    resolve_cleared-MayClose listed quiet [] (recovery_stability_window + 60)
