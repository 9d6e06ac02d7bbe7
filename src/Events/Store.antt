-- ===== src/Events/Store.antt =====
-- internal/events/store.go: the record of events, which keeps the times at which keys were seen. The
-- clock does not change within a call.
pub mod Memory
pub mod Laws
use dorgu_operator.Common.{
  ℕ, ◌+◌, ◌*◌, String, Bool, true, false, not, Option, none, some, List, [], ◌∷◌, filter, length,
  ltb, ◌==◌, if◌then◌else◌,
}
use dorgu_operator.Common.Maps.{lookup, insert}
use dorgu_operator.Api.{word, Error, wrap}
use dorgu_operator.Events.{InternalEvent, DorguEvent}
use dorgu_operator.Events.Names.{dedup_key, generate_crd_name}

abbrev pub max_dedup_entries : ℕ
max_dedup_entries = 1000

abbrev pub second : ℕ
second = 1000000000

abbrev pub default_dedup_window : ℕ
default_dedup_window = 300 * second

abbrev pub default_ttl : ℕ
default_ttl = 86400 * second

-- HybridEventStore
pub record HybridEventStore : Type 0 where
  pub dedup_window : ℕ
  pub ttl : ℕ
  pub dedup_map : List (String × ℕ)

pub data StoreOption : Type 0 where
  with_dedup_window with_ttl : ℕ → StoreOption

unfoldable pub apply_options : List StoreOption → HybridEventStore → HybridEventStore
apply_options [] s = s
apply_options (with_dedup_window d ∷ opts) s = apply_options opts (record s { dedup_window = d })
apply_options (with_ttl d ∷ opts) s = apply_options opts (record s { ttl = d })

unfoldable pub new_event_store : List StoreOption → HybridEventStore
unfolding apply_options
new_event_store opts =
    apply_options opts
      (record { dedup_window = default_dedup_window; ttl = default_ttl; dedup_map = [] })

-- The clean-up: what was last seen longer ago than the window goes.
abbrev pub still_held : ℕ → ℕ → String × ℕ → Bool
still_held now window entry = not (ltb (entry.1 + window) now)

abbrev pub clean_up : ℕ → ℕ → List (String × ℕ) → List (String × ℕ)
clean_up now window entries =
    if ltb max_dedup_entries (length entries)
    then filter (still_held now window) entries
    else entries

-- The key was seen less than the window ago.
unfoldable pub recently_seen : ℕ → ℕ → String → List (String × ℕ) → Bool
recently_seen now window key entries = elim (lookup key entries) [
  | none ↦ false
  | some last_seen ↦ ltb now (last_seen + window)
]

-- checkAndMarkSeen: whether the key is a duplicate, and the map that is left.
unfoldable pub check_and_mark_seen : ℕ → ℕ → String → List (String × ℕ) → Bool × List (String × ℕ)
unfolding recently_seen
check_and_mark_seen now window key entries =
    if recently_seen now window key entries
    then (true, entries)
    else (false, clean_up now window (insert key now entries))

-- What the API server says to a Create.
pub data CreateAnswer : Type 0 where
  created already_exists : CreateAnswer
  refused : Error → CreateAnswer

abbrev pub dorgu_event : (String → String) → (ℕ → String) → ℕ → InternalEvent → DorguEvent
dorgu_event hash format_time ttl e = record {
  name = generate_crd_name hash format_time e;
  namespace = if e.involved_object.namespace == "" then "default" else e.involved_object.namespace;
  severity = e.severity;
  category = e.category;
  source = e.source;
  message = e.message;
  involved_object = e.involved_object;
  persona_ref = e.persona_ref;
  event_time = e.event_time;
  k8s_event_ref = e.k8s_event_uid;
  ttl = some ttl;
}

-- persistCRD: its error.
unfoldable pub persist_crd : (DorguEvent → CreateAnswer) → DorguEvent → Option Error
persist_crd create de = elim (create de) [
  | created ↦ none
  | already_exists ↦ none
  | refused e ↦
      some (wrap "creating DorguEvent %s/%s: %w" (word de.namespace ∷ word de.name ∷ []) e)
]

-- What a call of Store returns, leaves and sends.
pub record Stored : Type 0 where
  pub error : Option Error
  pub state : HybridEventStore
  pub sent : List DorguEvent

-- Store; `none` is a nil event.
unfoldable pub store :
    (String → String)
    → (ℕ → String)
    → ℕ
    → (DorguEvent → CreateAnswer)
    → HybridEventStore
    → Option InternalEvent
    → Stored
unfolding check_and_mark_seen persist_crd
store hash format_time now create s none = record { error = none; state = s; sent = [] }
store hash format_time now create s (some e) =
    let (seen, entries) = check_and_mark_seen now s.dedup_window (dedup_key e) s.dedup_map in
    let marked = record s { dedup_map = entries } in
    let de = dorgu_event hash format_time s.ttl e in
    if seen
    then record { error = none; state = marked; sent = [] }
    else elim (persist_crd create de) [
      | none ↦ record { error = none; state = marked; sent = de ∷ [] }
      | some err ↦ record {
        error = some (wrap "persisting DorguEvent CRD: %w" [] err);
        state = marked;
        sent = de ∷ [];
      }
    ]
