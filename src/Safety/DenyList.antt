-- ===== src/Safety/DenyList.antt =====
-- The namespaces in which nothing may be proposed.
pub mod Laws
use dorgu_operator.Common.{
  String, Bool, true, false, ◌&&◌, not, Option, none, some, List, [], ◌∷◌, ◌++◌, map, contains,
  ◌==◌, if◌then◌else◌, is_some,
}
use dorgu_operator.Api.{word, Error, wrap, sprintf, RemediationAction}
use dorgu_operator.Executor.{Fetched, found, get_error}
use dorgu_operator.Safety.Readings.{View, ClusterPersona, ClusterPolicies, SafetyViolation}

-- WithProtectedNamespaces, on the list that NewSafetyChecker starts.
unfoldable pub with_protected_namespaces : List String → List String → List String
with_protected_namespaces [] protected = protected
with_protected_namespaces (ns ∷ nss) protected =
    with_protected_namespaces nss
      (if not (ns == "") && not (contains protected ns) then protected ++ ns ∷ [] else protected)

-- NewSafetyChecker: the checker's protected namespaces, from the lists that its options add, one
-- after the other.
unfoldable pub with_options : List (List String) → List String → List String
unfolding with_protected_namespaces
with_options [] protected = protected
with_options (names ∷ opts) protected =
    with_options opts (with_protected_namespaces names protected)

unfoldable pub new_safety_checker : List (List String) → List String
unfolding with_options
new_safety_checker opts = with_options opts ("kube-system" ∷ [])

abbrev pub excluded_of : Option ClusterPolicies → List String
excluded_of none = []
excluded_of (some p) = elim p.self_healing [ none ↦ [] | some h ↦ h.exclude_namespaces ]

abbrev pub all_excluded : List ClusterPersona → List String
all_excluded [] = []
all_excluded (cp ∷ cps) = excluded_of cp.policies ++ all_excluded cps

unfoldable pub get_excluded_namespaces : View → Fetched (List String)
get_excluded_namespaces v = elim v.list_cluster_personas [
  | get_error e ↦ get_error (wrap "listing ClusterPersonas: %w" [] e)
  | found cps ↦ found (all_excluded cps)
]

abbrev deny : String → List String → SafetyViolation
deny message args = record {
  rule = "deny-list";
  message = sprintf message (map word args);
  blast_radius = none;
}

-- NamespaceDenied; `none` for the checker is a nil one.
unfoldable pub namespace_denied : Option (List String) → View → String → Option SafetyViolation
unfolding get_excluded_namespaces
namespace_denied none v ns =
    some (deny "no deny list is configured, so the namespace cannot be cleared" [])
namespace_denied (some protected) v ns =
    if ns == ""
    then some (deny "namespace could not be determined, so the deny list cannot clear it" [])
    else if contains protected ns
    then some (deny "namespace %s is in the protected deny list" (ns ∷ []))
    else elim (get_excluded_namespaces v) [
      | get_error _ ↦ some (
          deny "namespace %s: deny-list could not be read, treating namespace as protected"
            (ns ∷ []))
      | found excluded ↦
          if contains excluded ns
          then some (deny "namespace %s is excluded by ClusterPersona policy" (ns ∷ []))
          else none
    ]

unfoldable pub namespace_protected : Option (List String) → View → String → Bool
unfolding namespace_denied
namespace_protected s v ns = is_some (namespace_denied s v ns)

unfoldable pub check_deny_list :
    Option (List String) → View → RemediationAction → Option SafetyViolation
check_deny_list s v a =
    namespace_denied s v
      (if a.spec.persona_ref.namespace == "" then a.namespace else a.spec.persona_ref.namespace)
