-- ===== src/Tests/Diagnosis.antt =====
-- The theorems on what a model may be told of, at a sample diagnosis.
use dorgu_operator.Common.{ℕ, refl, some, inl, [], ◌∷◌}
use dorgu_operator.Diagnosis.Engine.{RankedDiagnosis, deduplicate_diagnoses}
use dorgu_operator.Diagnosis.Engine.Best.{IsBest, deduplicate_diagnoses-IsBest}
use dorgu_operator.Diagnosis.{Diagnosis}
use dorgu_operator.Diagnosis.Gate.{protected_namespace, resource_namespaces, check_namespaces}
use dorgu_operator.Diagnosis.Gate.Laws.{protected_namespace-IsCleared}
use dorgu_operator.Safety.DenyList.{namespace_denied, namespace_protected, get_excluded_namespaces}
use dorgu_operator.Safety.DenyList.Laws.{IsCleared}
use dorgu_operator.Tests.{signal, view}

-- A node and a pod are affected, and the pod's signal contributes.
abbrev pub diagnosis : Diagnosis
diagnosis = record {
  summary = "web was out of memory";
  confidence = 7;
  provider = "rule-engine";
  category = "resource";
  severity = "warning";
  persona_ref = some record { kind = "ApplicationPersona"; name = "web"; namespace = "shop" };
  affected_resources =
      record { kind = "Node"; name = "n1"; namespace = "" }
      ∷ record { kind = "Pod"; name = "web-1"; namespace = "shop" }
      ∷ [];
  contributing = record { signal = signal "OOMKilled" "web"; detail = "" } ∷ [];
  suggested_action = "resource-adjustment";
}

protected_namespace-IsCleared_example :
    (n : ℕ) × IsCleared ("kube-system" ∷ []) (view 100 []) "shop"
unfolding protected_namespace resource_namespaces check_namespaces namespace_protected
    namespace_denied get_excluded_namespaces
protected_namespace-IsCleared_example =
    protected_namespace-IsCleared ("kube-system" ∷ []) (λ n. view 100 []) diagnosis refl "shop"
      (inl (record { kind = "ApplicationPersona"; name = "web"; namespace = "shop" }, refl, refl))

abbrev by_rules : RankedDiagnosis
by_rules = record { diagnosis = diagnosis; stage = 0 }

abbrev by_model : RankedDiagnosis
by_model = record { diagnosis = record diagnosis { provider = "ai-enhanced" }; stage = 1 }

deduplicate_diagnoses-IsBest_example :
    IsBest (by_rules ∷ by_model ∷ []) (deduplicate_diagnoses (by_rules ∷ by_model ∷ []))
deduplicate_diagnoses-IsBest_example = deduplicate_diagnoses-IsBest (by_rules ∷ by_model ∷ [])
