-- ===== src/Detection/Grouping/Keys.antt =====
-- What the key of a group says: two signals of one key are about the same thing, where no part of a
-- key but its last holds a slash. Kubernetes allows no slash in a namespace or a kind.
use Prim.Native.Char.{Char}
use Prim.Native.String.{[]}
use dorgu_operator.Common.{List, [], String, ◌≡◌, false, some, ◌==◌, if◌then◌else◌, List}
use dorgu_operator.Common.Text.{contains_any}
use dorgu_operator.Api.{PersonaReference}
use dorgu_operator.Detection.{Signal}
use dorgu_operator.Detection.Grouping.{SignalGroup, group_for, workload_group, cluster_group}

abbrev pub HasNoSlash : String → Type 0
HasNoSlash s = contains_any s "/" ≡ false

-- The parts of a signal's key that stand before its last one.
pub record HasPlainNames (s : Signal) : Type 0 where
  pub kind : (r : PersonaReference) → s.persona_ref ≡ some r → HasNoSlash r.kind
  pub owner : (r : PersonaReference) → s.persona_ref ≡ some r → HasNoSlash r.namespace
  pub namespace : HasNoSlash s.resource.namespace

-- What a signal without a persona is about.
abbrev unowned : String → String → SignalGroup
unowned namespace workload =
    if namespace == "" then cluster_group else workload_group namespace workload

-- A group without its signals.
abbrev pub bare : SignalGroup → SignalGroup
bare g = record g { signals = [] }

-- The signal is about what the group says it is about: its persona, or its workload and namespace,
-- or the cluster.
abbrev pub IsAbout : SignalGroup → Signal → Type 0
IsAbout g s = group_for s ≡ bare g
