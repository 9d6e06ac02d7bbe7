-- ===== src/Diagnosis/Engine.antt =====
-- internal/diagnosis/engine.go: the diagnoses of all providers, without duplicates. The providers are
-- parameters, and so is sort.Slice, which is not stable.
pub mod Laws
pub mod Best
use Prim.Native.String
use dorgu_operator.Common.{
  ◌++◌, ℕ, ◌+◌, String, Bool, not, Option, none, some, List, [], ◌∷◌, map, eqb, ltb, if◌then◌else◌,
}
use dorgu_operator.Common.Maps.{lookup, insert}
use dorgu_operator.Common.Sort.{sort}
use dorgu_operator.Api.{word, Error, wrap}
use dorgu_operator.Detection.{ResourceReference, Signal}
use dorgu_operator.Detection.Grouping.{◌/◌}
use dorgu_operator.Diagnosis.{Diagnosis}
use dorgu_operator.Executor.{Fetched, found, get_error}

pub record DiagnosisProvider : Type 0 where
  pub name : String
  pub diagnose : List Signal → Fetched (List Diagnosis)

-- strings.Join with a comma.
unfoldable pub join : List String → String
join [] = ""
join (s ∷ []) = s
join (s ∷ ss) = String.◌++◌ s (String.◌++◌ "," (join ss))

abbrev pub with_colon : String → String → String
with_colon s t = String.◌++◌ s (String.◌++◌ ":" t)

-- deduplicationKey of internal/diagnosis/rules.go
unfoldable pub deduplication_key : Diagnosis → String
unfolding join sort
deduplication_key d = with_colon d.category (
    with_colon d.suggested_action (
      join (
        sort
          (map (λ (r : ResourceReference). r.kind / r.namespace / r.name) d.affected_resources))))

pub record RankedDiagnosis : Type 0 where
  pub diagnosis : Diagnosis
  pub stage : ℕ

abbrev pub key_of : RankedDiagnosis → String
key_of r = deduplication_key r.diagnosis

unfoldable pub supersedes : RankedDiagnosis → RankedDiagnosis → Bool
supersedes candidate current =
    if not (eqb candidate.diagnosis.confidence current.diagnosis.confidence)
    then ltb current.diagnosis.confidence candidate.diagnosis.confidence
    else ltb current.stage candidate.stage

-- The loop of deduplicateDiagnoses: the best by their keys, and the keys in the order of their first
-- candidates.
unfoldable pub pick :
    List RankedDiagnosis
    → List (String × RankedDiagnosis)
    → List String
    → List (String × RankedDiagnosis) × List String
unfolding lookup insert supersedes deduplication_key
pick [] best order = (best, order)
pick (c ∷ cs) best order = elim (lookup (key_of c) best) [
  | none ↦ pick cs (insert (key_of c) c best) (order ++ key_of c ∷ [])
  | some current ↦
      (let better = pick cs (insert (key_of c) c best) order in
        let same = pick cs best order in if supersedes c current then better else same)
]

-- best[key], over the keys.
unfoldable pub picked : List String → List (String × RankedDiagnosis) → List RankedDiagnosis
unfolding lookup
picked [] best = []
picked (k ∷ ks) best = elim (lookup k best) [ none ↦ picked ks best | some r ↦ r ∷ picked ks best ]

-- deduplicateDiagnoses
unfoldable pub deduplicate_diagnoses : List RankedDiagnosis → List RankedDiagnosis
unfolding pick picked
deduplicate_diagnoses produced = let (best, order) = pick produced [] [] in picked order best

-- The diagnoses of one provider, before those of the later ones.
abbrev pub ranked : ℕ → List Diagnosis → List RankedDiagnosis → List RankedDiagnosis
ranked stage [] rest = rest
ranked stage (d ∷ ds) rest = record { diagnosis = d; stage = stage } ∷ ranked stage ds rest

-- What the providers produced, each diagnosis with its provider's position; or the first failure.
unfoldable pub produce : ℕ → List DiagnosisProvider → List Signal → Fetched (List RankedDiagnosis)
produce stage [] signals = found []
produce stage (p ∷ ps) signals = elim (p.diagnose signals) [
  | get_error e ↦ get_error (wrap "provider %s failed: %w" (word p.name ∷ []) e)
  | found ds ↦ elim (produce (stage + 1) ps signals) [
    | get_error e ↦ get_error e
    | found rest ↦ found (ranked stage ds rest)
  ]
]

-- Analyze
unfoldable pub analyze :
    ((Diagnosis → Diagnosis → Bool) → List Diagnosis → List Diagnosis)
    → List DiagnosisProvider
    → List Signal
    → Fetched (List Diagnosis)
unfolding produce deduplicate_diagnoses
analyze sort_slice providers [] = found []
analyze sort_slice providers (s ∷ ss) = elim (produce 0 providers (s ∷ ss)) [
  | get_error e ↦ get_error e
  | found produced ↦ found (
      sort_slice (λ d e. ltb e.confidence d.confidence)
        (map (λ (r : RankedDiagnosis). r.diagnosis) (deduplicate_diagnoses produced)))
]
