-- ===== src/Safety/Readings.antt =====
-- What the safety checker reads of the cluster, and what it reports.
use dorgu_operator.Common.{ℕ, String, Option, List, Bool}
use dorgu_operator.Common.Int.{ℤ}
use dorgu_operator.Api.{Error, Message, RemediationAction}
use dorgu_operator.Executor.{Fetched}

-- The policy's rate is an int32; a negative rate, which the source treats as an unset one, is 0.
pub record SelfHealingPolicy : Type 0 where
  pub mode : String
  pub max_remediations_per_hour : ℕ
  pub exclude_namespaces : List String

pub record ClusterPolicies : Type 0 where
  pub self_healing : Option SelfHealingPolicy

pub record ClusterPersona : Type 0 where
  pub name : String
  pub policies : Option ClusterPolicies

-- The clock and the API server. `list_actions` filters by the labels persona-kind and persona-name,
-- and by a namespace where one is given.
pub record View : Type 0 where
  pub now : ℕ
  pub list_cluster_personas : Fetched (List ClusterPersona)
  pub list_actions : String → String → Option String → Fetched (List RemediationAction)

-- A resource.Quantity: its amount in units of 10⁻⁹, the finest that it holds, and its text.
pub record Quantity : Type 0 where
  pub amount : ℤ
  pub text : String

-- What the program uses of resource.Quantity and of float64. A float64 is its 64 bits.
pub record Quantities : Type 0 where
  pub parse_quantity : String → Option Quantity
  pub as_approximate_float64 : Quantity → ℕ
  pub quotient : ℕ → ℕ → ℕ
  pub less : ℕ → ℕ → Bool
  pub at_most : ℕ → ℕ → Bool

pub record BlastRadiusViolation : Type 0 where
  pub field : String
  pub baseline : Quantity
  pub requested : Quantity
  pub ratio : ℕ
  pub max_ratio : ℕ

pub record SafetyViolation : Type 0 where
  pub rule : String
  pub message : Message
  pub blast_radius : Option BlastRadiusViolation

-- What a check that can fail returns.
pub data Verdict : Type 0 where
  clear : Verdict
  violated : SafetyViolation → Verdict
  check_error : Error → Verdict
