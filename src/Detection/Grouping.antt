-- ===== src/Detection/Grouping.antt =====
-- internal/detection/grouping.go: the signals of one cycle, by what they are about.
pub mod Keys
pub mod Laws
use Prim.Native.String
use dorgu_operator.Common.{
  String, Bool, Option, none, some, List, [], ◌∷◌, ◌++◌, ◌==◌, if◌then◌else◌,
}
use dorgu_operator.Common.Maps.{lookup, insert, text_at}
use dorgu_operator.Common.Sort.{sort}
use dorgu_operator.Api.{PersonaReference}
use dorgu_operator.Detection.{Signal}

pub data SignalScope : Type 0 where
  persona_scope unattributed cluster : SignalScope

pub record SignalGroup : Type 0 where
  pub scope : SignalScope
  pub key : String
  pub namespace : String
  pub persona_ref : Option PersonaReference
  pub workload : String
  pub signals : List Signal

-- Two texts with a slash in between, as the formats of the keys have them.
infixr 60 ◌/◌
abbrev pub ◌/◌ : String → String → String
s / t = String.◌++◌ s (String.◌++◌ "/" t)

unfoldable pub workload_name : Signal → String
unfolding text_at
workload_name s =
    if text_at "deployment" s.metadata == ""
    then s.resource.name
    else text_at "deployment" s.metadata

abbrev pub persona_group : PersonaReference → SignalGroup
persona_group ref = record {
  scope = persona_scope;
  key = "persona" / ref.kind / ref.namespace / ref.name;
  namespace = ref.namespace;
  persona_ref = some ref;
  workload = "";
  signals = [];
}

abbrev pub cluster_group : SignalGroup
cluster_group = record {
  scope = cluster;
  key = "cluster";
  namespace = "";
  persona_ref = none;
  workload = "";
  signals = [];
}

abbrev pub workload_group : String → String → SignalGroup
workload_group namespace workload = record {
  scope = unattributed;
  key = "unattributed" / namespace / workload;
  namespace = namespace;
  persona_ref = none;
  workload = workload;
  signals = [];
}

-- groupFor
unfoldable pub group_for : Signal → SignalGroup
unfolding workload_name
group_for s = elim s.persona_ref [
  | some ref ↦ persona_group ref
  | none ↦
      if s.resource.namespace == ""
      then cluster_group
      else workload_group s.resource.namespace (workload_name s)
]

abbrev pub with_signal : SignalGroup → Signal → SignalGroup
with_signal g s = record g { signals = g.signals ++ s ∷ [] }

-- The loop of GroupSignals: the groups by their keys, and the keys in the order of their groups'
-- first signals.
unfoldable pub collect :
    List Signal
    → List (String × SignalGroup)
    → List String
    → List (String × SignalGroup) × List String
collect [] groups keys = (groups, keys)
collect (s ∷ ss) groups keys = elim (lookup (group_for s).key groups) [
  | none ↦
      collect ss (insert (group_for s).key (with_signal (group_for s) s) groups)
        (keys ++ (group_for s).key ∷ [])
  | some existing ↦ collect ss (insert (group_for s).key (with_signal existing s) groups) keys
]

-- The groups of the keys, in order; every key has one.
unfoldable pub groups_at : List String → List (String × SignalGroup) → List SignalGroup
groups_at [] groups = []
groups_at (k ∷ ks) groups =
    let rest = groups_at ks groups in elim (lookup k groups) [ none ↦ rest | some g ↦ g ∷ rest ]

unfoldable pub group_signals : List Signal → List SignalGroup
unfolding collect groups_at
group_signals ss = let (groups, keys) = collect ss [] [] in groups_at (sort keys) groups
