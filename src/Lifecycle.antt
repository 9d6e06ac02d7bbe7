-- ===== src/Lifecycle.antt =====
-- internal/controller/remediation_controller.go: the phases of a RemediationAction. A pass takes
-- the action as it was read and what the API server answers, and returns the action as it stands
-- in memory afterwards, the result, and every request sent, in order. Log lines are left out.
pub mod Effects
pub mod Resolution
pub mod Transitions
pub mod Handlers
pub mod Rejection
pub mod Graph
pub mod Requests
pub mod Writes
pub mod Retry
pub mod Statuses
pub mod Follows
use dorgu_operator.Common.{◌≡◌, arith, ℕ, String, Option, none, some, List, [], ◌∷◌, ◌++◌}
use dorgu_operator.Api.{
  Error, Phase, pending, approved, applying, verifying, completed, acknowledged, rolled_back,
  failed, rejected, expired, other, RemediationAction,
}
use dorgu_operator.Executor.{Fetched, found, get_error}
use Effects.{World, Request, recorded, Requeue, stop, Pass, pass, failing}
use Handlers.{handle_approved, handle_applying, handle_verifying}
use Rejection.{record_rejection}

abbrev idle : RemediationAction → Pass
idle a = pass a stop []

-- RemediationController.dispatch
unfoldable pub dispatch : World → Phase → RemediationAction → Pass
dispatch w pending a = idle a
dispatch w approved a = handle_approved w a
dispatch w applying a = handle_applying w a
dispatch w verifying a = handle_verifying w a
dispatch w rejected a = record_rejection w a
dispatch w completed a = idle a
dispatch w acknowledged a = idle a
dispatch w rolled_back a = idle a
dispatch w failed a = idle a
dispatch w expired a = idle a
dispatch w (other _) a = idle a

-- metrics.RecordTransition runs after a pass with no error.
abbrev record_transition : Phase → Pass → Pass
record_transition from p = elim p.error [
  | none ↦ record p { requests = p.requests ++ recorded from p.action.status.phase ∷ [] }
  | some _ ↦ p
]

-- RemediationController.Reconcile, for an action that could be read.
unfoldable pub reconcile : World → RemediationAction → Pass
reconcile w a = record_transition a.status.phase (dispatch w a.status.phase a)

-- The metric leaves the action as it is.
pub reconcile-action :
    (w : World) (a : RemediationAction)
    → (reconcile w a).action ≡ (dispatch w a.status.phase a).action
unfolding reconcile
reconcile-action w a = ground arith
