-- ===== src/Workload.antt =====
-- internal/workload: which Deployment a persona describes, and which system owns it.
pub mod Match
pub mod Fields
pub mod Ownership
use dorgu_operator.Common.{String, Option, List}
use dorgu_operator.Common.Int.{ℤ}
use dorgu_operator.Json.{Raw}

-- A metav1.ManagedFieldsEntry: the operation is "Apply" or "Update".
pub record ManagedFieldsEntry : Type 0 where
  pub manager : String
  pub operation : String
  pub fields_v1 : Option Raw

-- What is read of an appsv1.Deployment; `match_labels` is there where the selector is. A nil map of
-- labels is the empty one, as every reader treats it.
pub record Deployment : Type 0 where
  pub name : String
  pub namespace : String
  pub labels : List (String × String)
  pub annotations : List (String × String)
  pub match_labels : Option (List (String × String))
  pub replicas : Option ℤ
  pub managed_fields : List ManagedFieldsEntry
