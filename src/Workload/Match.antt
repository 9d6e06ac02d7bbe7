-- ===== src/Workload/Match.antt =====
-- internal/workload/match.go: the chain of rungs by which a persona finds its Deployment.
pub mod Laws
use dorgu_operator.Common.{
  String, Bool, true, false, ◌||◌, Option, none, some, List, [], ◌∷◌, map, filter, any, ◌==◌,
  if◌then◌else◌,
}
use dorgu_operator.Common.Maps.{text_at}
use dorgu_operator.Common.Sort.{sort}
use dorgu_operator.Workload.{Deployment}

-- The rungs, by what they look at.
pub data Rung : Type 0 where
  label_app_name label_app metadata_name selector : Rung

abbrev pub app_name_label : String
app_name_label = "app.kubernetes.io/name"

abbrev pub rung_text : Rung → String
rung_text label_app_name = "label app.kubernetes.io/name"
rung_text label_app = "label app"
rung_text metadata_name = "metadata.name"
rung_text selector = "spec.selector.matchLabels"

-- The predicate of a rung.
unfoldable pub rung_matches : Rung → String → Deployment → Bool
unfolding text_at
rung_matches label_app_name name d = text_at app_name_label d.labels == name
rung_matches label_app name d = text_at "app" d.labels == name
rung_matches metadata_name name d = d.name == name
rung_matches selector name d = elim d.match_labels [
  | none ↦ false
  | some ml ↦ text_at app_name_label ml == name || text_at "app" ml == name
]

abbrev pub chain : List Rung
chain = label_app_name ∷ label_app ∷ metadata_name ∷ selector ∷ []

-- Matches; `none` is a nil Deployment.
unfoldable pub matches : Option Deployment → String → Bool
matches none name = false
matches (some d) name =
    if name == "" then false else any (λ (r : Rung). rung_matches r name d) chain

-- What Resolve returns: no Deployment, one with its rung, or an *AmbiguousError.
pub data Resolved : Type 0 where
  unfound : Resolved
  resolved : Deployment → Rung → Resolved
  ambiguous : Rung → List String → Resolved

-- The switch on the Deployments that a rung matches; `next` is what the later rungs give.
abbrev pub on_rung : Rung → Resolved → List Deployment → Resolved
on_rung r next [] = next
on_rung r next (d ∷ []) = resolved d r
on_rung r next ds = ambiguous r (sort (map (λ (d : Deployment). d.name) ds))

-- The loop over the chain.
unfoldable pub resolve_by : List Rung → List Deployment → String → Resolved
resolve_by [] ds name = unfound
resolve_by (r ∷ rs) ds name =
    let next = resolve_by rs ds name in on_rung r next (filter (rung_matches r name) ds)

unfoldable pub resolve : List Deployment → String → Resolved
unfolding resolve_by
resolve ds name = if name == "" then unfound else resolve_by chain ds name
