-- ===== src/Diagnosis/Gate.antt =====
-- internal/diagnosis/namespace_gate.go: whether a diagnosis may be sent to a model.
pub mod Laws
use dorgu_operator.Common.{
  ℕ, ◌+◌, String, Bool, true, false, ◌&&◌, ◌||◌, Option, none, some, List, [], ◌∷◌, ◌++◌, map,
  contains, ◌==◌, if◌then◌else◌,
}
use dorgu_operator.Api.{PersonaReference}
use dorgu_operator.Detection.{ResourceReference}
use dorgu_operator.Diagnosis.{ContributingSignal, Diagnosis}

-- The map clusterScopedKinds.
abbrev pub cluster_scoped : String → Bool
cluster_scoped kind = kind == "Node" || kind == "ComponentStatus"

-- The affected resources and the one behind every contributing signal.
abbrev pub related : Diagnosis → List ResourceReference
related d =
    d.affected_resources ++ map (λ (c : ContributingSignal). c.signal.resource) d.contributing

-- The loop over the resources.
unfoldable pub resource_namespaces : List ResourceReference → List String
resource_namespaces [] = []
resource_namespaces (ref ∷ refs) =
    let rest = resource_namespaces refs in
    if ref.namespace == "" && cluster_scoped ref.kind then rest else ref.namespace ∷ rest

abbrev pub persona_namespaces : Option PersonaReference → List String
persona_namespaces none = []
persona_namespaces (some r) = r.namespace ∷ []

-- The loop over the namespaces. The gate reads the cluster each time that it is asked, so it is
-- given the number of the questions before.
unfoldable pub check_namespaces :
    (ℕ → String → Bool) → ℕ → List String → List String → String × Bool
check_namespaces gate asked checked [] = ("", false)
check_namespaces gate asked checked (ns ∷ rest) =
    let skip = check_namespaces gate asked checked rest in
    let next = check_namespaces gate (asked + 1) (ns ∷ checked) rest in
    if contains checked ns then skip else if ns == "" || gate asked ns then (ns, true) else next

-- ProtectedNamespace; `none` is a nil gate.
unfoldable pub protected_namespace : Option (ℕ → String → Bool) → Diagnosis → String × Bool
unfolding resource_namespaces check_namespaces
protected_namespace none d = ("", true)
protected_namespace (some gate) d =
    check_namespaces gate 0 [] (persona_namespaces d.persona_ref ++ resource_namespaces (related d))
