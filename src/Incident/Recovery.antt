-- ===== src/Incident/Recovery.antt =====
-- internal/controller/incident_recovery.go: what the cluster must show before an incident is closed.
-- An interval is compared by its end: now.Sub(t) < window is now < t + window. Durations in messages
-- stand as they are, without the source's rounding to seconds.
pub mod Pods
pub mod Laws
use Prim.Native.String
use dorgu_operator.Common.{
  ℕ, ◌+◌, ◌-◌, ◌*◌, String, Bool, true, false, ◌&&◌, ◌||◌, not, Option, none, some, List, [], ◌∷◌,
  ◌++◌, map, filter, find, any, length, ◌==◌, if◌then◌else◌, ltb, eqb, is_some,
}
use dorgu_operator.Common.Int.{ℤ, not_positive, pos, pos_part}
use dorgu_operator.Api.{
  Arg, word, num, Error, errorf, wrap, Message, sprintf, about, ConditionStatus, is_true,
}
use dorgu_operator.Conditions.{status_eq}
use dorgu_operator.Detection.{ResourceReference}
use dorgu_operator.Detection.Correlator.{name_claimed_by_persona}
use dorgu_operator.Executor.{Fetched, found, get_error}
use dorgu_operator.Incident.{IncidentMemory}
use dorgu_operator.Workload.{Deployment}
use dorgu_operator.Workload.Match.{Rung, rung_text, unfound, resolved, ambiguous, resolve}

abbrev pub recovery_stability_window : ℕ
recovery_stability_window = 360 * 1000000000

pub data RecoveryVerdict : Type 0 where
  verdict_healthy verdict_unknown verdict_broken : RecoveryVerdict

pub record RecoveryEvidence : Type 0 where
  pub verdict : RecoveryVerdict
  pub reason : Message

abbrev pub healthy : Message → RecoveryEvidence
healthy reason = record { verdict = verdict_healthy; reason = reason }

abbrev pub unknown : Message → RecoveryEvidence
unknown reason = record { verdict = verdict_unknown; reason = reason }

abbrev pub broken : Message → RecoveryEvidence
broken reason = record { verdict = verdict_broken; reason = reason }

-- (e recoveryEvidence) Recovered
abbrev pub recovered : RecoveryEvidence → Bool
recovered e = elim e.verdict [
  | verdict_healthy ↦ true
  | verdict_unknown ↦ false
  | verdict_broken ↦ false
]

abbrev pub is_broken : RecoveryEvidence → Bool
is_broken e = elim e.verdict [
  | verdict_healthy ↦ false
  | verdict_unknown ↦ false
  | verdict_broken ↦ true
]

-- What is read of the state of a container; `waiting` is the reason it waits for, where it does.
pub record ContainerStatus : Type 0 where
  pub name : String
  pub ready : Bool
  pub waiting : Option String
  pub terminated : Bool
  pub last_termination : Option (ℕ × String)

pub record PodCondition : Type 0 where
  pub type : String
  pub status : ConditionStatus
  pub last_transition_time : ℕ

pub record Pod : Type 0 where
  pub name : String
  pub deleting : Bool
  pub phase : String
  pub reason : String
  pub conditions : List PodCondition
  pub container_statuses : List ContainerStatus
  pub init_container_statuses : List ContainerStatus

unfoldable pub container_recovery_evidence : ℕ → String → ContainerStatus → RecoveryEvidence
container_recovery_evidence now pod cs = elim cs.waiting [
  | some reason ↦
      broken (
        sprintf "container %s in pod %s is waiting: %s"
          (word cs.name ∷ word pod ∷ word reason ∷ []))
  | none ↦
      if not cs.ready && not cs.terminated
      then broken (sprintf "container %s in pod %s is not ready" (word cs.name ∷ word pod ∷ []))
      else elim cs.last_termination [
        | none ↦ healthy (sprintf "container has not restarted" [])
        | some (finished_at, reason) ↦
            if eqb finished_at 0
            then healthy (sprintf "container has not restarted" [])
            else if ltb now (finished_at + recovery_stability_window)
            then broken (
                sprintf
                  "container %s in pod %s last restarted %s ago (%s), inside the %s stability window"
                  (word cs.name
                    ∷ word pod
                    ∷ num (now - finished_at)
                    ∷ word reason
                    ∷ num recovery_stability_window
                    ∷ []))
            else healthy (sprintf "container has been up for the stability window" [])
      ]
]

-- The loops over the two lists of statuses: the first evidence that is broken, or `next`.
unfoldable pub judge_containers :
    ℕ → String → List ContainerStatus → RecoveryEvidence → RecoveryEvidence
unfolding container_recovery_evidence
judge_containers now pod [] next = next
judge_containers now pod (cs ∷ rest) next =
    let later = judge_containers now pod rest next in
    if is_broken (container_recovery_evidence now pod cs)
    then container_recovery_evidence now pod cs
    else later

abbrev pub pod_ready_condition : Pod → Option PodCondition
pod_ready_condition p = find (λ (c : PodCondition). c.type == "Ready") p.conditions

unfoldable pub pod_recovery_evidence : ℕ → Pod → RecoveryEvidence
unfolding judge_containers
pod_recovery_evidence now p =
    if p.deleting
    then unknown (sprintf "pod %s is terminating" (word p.name ∷ []))
    else if p.phase == "Succeeded"
    then unknown (sprintf "pod %s completed" (word p.name ∷ []))
    else if p.phase == "Failed"
    then broken (sprintf "pod %s is in phase Failed (%s)" (word p.name ∷ word p.reason ∷ []))
    else elim (pod_ready_condition p) [
      | none ↦ broken (sprintf "pod %s is not Ready" (word p.name ∷ []))
      | some ready ↦
          if not (status_eq ready.status is_true)
          then broken (sprintf "pod %s is not Ready" (word p.name ∷ []))
          else if ltb now (ready.last_transition_time + recovery_stability_window)
          then broken (
              sprintf "pod %s has only been Ready for %s, and recovery needs %s" (
                word p.name
                ∷ num (now - ready.last_transition_time)
                ∷ num recovery_stability_window
                ∷ []))
          else judge_containers now p.name (p.container_statuses ++ p.init_container_statuses)
              (healthy (sprintf "pod %s is Ready and stable" (word p.name ∷ [])))
    ]

-- incidentNamespace and incidentWorkloadName
unfoldable pub incident_namespace : IncidentMemory → String
incident_namespace i =
    if i.spec.persona_ref.namespace == "" then i.namespace else i.spec.persona_ref.namespace

abbrev pub incident_workload_name : IncidentMemory → String
incident_workload_name i = i.spec.persona_ref.name

-- The resource is the pod that bears the name, in the namespace given or in none.
abbrev pub names_pod : String → String → ResourceReference → Bool
names_pod namespace name ref =
    ref.kind == "Pod" && (ref.namespace == "" || ref.namespace == namespace) && ref.name == name

-- The loop of workloadPods over the pods of the namespace.
unfoldable pub own_pods : IncidentMemory → String → List Pod → List Pod
unfolding name_claimed_by_persona
own_pods i namespace pods =
    filter
      (λ (p : Pod).
        any (names_pod namespace p.name) i.spec.detection.affected_resources
        || name_claimed_by_persona p.name (incident_workload_name i))
      pods

unfoldable pub workload_pods :
    IncidentMemory → String → (String → Fetched (List Pod)) → Fetched (List Pod)
unfolding own_pods
workload_pods i namespace list_pods = elim (list_pods namespace) [
  | get_error e ↦ get_error (wrap "listing pods in %s: %w" (word namespace ∷ []) e)
  | found pods ↦ found (own_pods i namespace pods)
]

-- (e *AmbiguousError) Error, with each candidate as an argument of its own.
abbrev ambiguous_error : String → Rung → List String → Error
ambiguous_error name r candidates =
    errorf "%d Deployments match persona %q by %s (%s); set %s=%s on exactly one" (
      num (length candidates)
      ∷ word name
      ∷ word (rung_text r)
      ∷ (map word candidates ++ word "app.kubernetes.io/name" ∷ word name ∷ []))

-- The number of replicas that a Deployment wants: one, where it names none.
abbrev pub desired_replicas : Deployment → ℤ
desired_replicas d = elim d.replicas [ none ↦ pos 1 | some n ↦ n ]

unfoldable pub verify_absent_workload :
    IncidentMemory → String → (String → Fetched (List Deployment)) → RecoveryEvidence
unfolding resolve
verify_absent_workload i namespace list_deployments = elim (list_deployments namespace) [
  | get_error e ↦ broken (about "no pods were found and the Deployments could not be listed: %v" e)
  | found ds ↦ elim (resolve ds (incident_workload_name i)) [
    | ambiguous r candidates ↦ broken (
        about "no pods were found and the workload is ambiguous: %v"
          (ambiguous_error (incident_workload_name i) r candidates))
    | unfound ↦
        healthy (sprintf "the workload has no pods and no Deployment: it is no longer running" [])
    | resolved d _ ↦
        if not_positive (desired_replicas d)
        then healthy (sprintf "Deployment %s is scaled to zero" (word d.name ∷ []))
        else broken (
            sprintf "Deployment %s wants %d running and none are"
              (word d.name ∷ num (pos_part (desired_replicas d)) ∷ []))
  ]
]

-- The loop of verifyRecovery: the first pod that is broken, or the number of those seen healthy.
pub data Judged : Type 0 where
  ruled_out : RecoveryEvidence → Judged
  confirmed : ℕ → Judged

unfoldable pub judge_pods : ℕ → ℕ → List Pod → Judged
unfolding pod_recovery_evidence
judge_pods now count [] = confirmed count
judge_pods now count (p ∷ ps) =
    let later =
      judge_pods now (if recovered (pod_recovery_evidence now p) then count + 1 else count) ps in
    if is_broken (pod_recovery_evidence now p)
    then ruled_out (pod_recovery_evidence now p)
    else later

unfoldable pub verify_recovery :
    (String → Fetched (List Pod))
    → (String → Fetched (List Deployment))
    → IncidentMemory
    → ℕ
    → RecoveryEvidence
unfolding incident_namespace workload_pods judge_pods verify_absent_workload
verify_recovery list_pods list_deployments i now =
    let namespace = incident_namespace i in
    if namespace == ""
    then broken (sprintf "the incident names no namespace, so its workload cannot be inspected" [])
    else elim (workload_pods i namespace list_pods) [
      | get_error e ↦ broken (about "the workload's pods could not be listed: %v" e)
      | found pods ↦ elim (judge_pods now 0 pods) [
        | ruled_out evidence ↦ evidence
        | confirmed n ↦
            if eqb n 0
            then verify_absent_workload i namespace list_deployments
            else healthy (
                sprintf "%d pod(s) Ready with no restarts for %s"
                  (num n ∷ num recovery_stability_window ∷ []))
      ]
    ]
