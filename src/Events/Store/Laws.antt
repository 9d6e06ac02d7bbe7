-- ===== src/Events/Store/Laws.antt =====
-- The store against its contract: an event is recorded unless one of its key was, less than the
-- window ago.
use dorgu_operator.Common.{
  Option-cases, ℕ, ◌+◌, ◌≤◌, String, true, false, ◌≡◌, refl, ap, sym, ◌∙◌, none, some, List, [],
  ◌∷◌, ◌++◌, if◌then◌else◌, NoRepeat, eq_iff, arith, Bool-cases, inl, inr, ◌<◌, ◌≢◌,
}
use dorgu_operator.Common.Maps.{insert, keys, lookup-insert}
use dorgu_operator.Events.{InternalEvent, DorguEvent}
use dorgu_operator.Events.Names.{dedup_key}
use dorgu_operator.Events.Store.{
  StoreOption, with_dedup_window, with_ttl, refused, new_event_store, apply_options,
  HybridEventStore, clean_up, recently_seen, check_and_mark_seen, CreateAnswer, dorgu_event,
  persist_crd, store, Error,
}
use dorgu_operator.Events.Store.Memory.{
  recorded_since, Remembers, NoRepeat-insert, clean_up-Remembers, insert-Remembers, later-Remembers,
  nothing-Remembers, clean_up-recently_seen,
}

-- An event as it reaches the store: when, and what the API server would say to its record.
pub record Delivery : Type 0 where
  pub now : ℕ
  pub event : InternalEvent
  pub create : DorguEvent → CreateAnswer

-- The deliveries come one after the other, none before the time given.
abbrev pub IsOrdered : ℕ → List Delivery → Type 0
IsOrdered start [] = Unit
IsOrdered start (x ∷ xs) = (start ≤ x.now) × IsOrdered x.now xs

module _ (hash : String → String) (format_time : ℕ → String) where
  -- The records that the store sends over a run of deliveries.
  unfoldable pub run_store : HybridEventStore → List Delivery → List DorguEvent
  unfolding store
  run_store s [] = []
  run_store s (x ∷ xs) =
      let done = store hash format_time x.now x.create s (some x.event) in
      done.sent ++ run_store done.state xs

  -- The contract: a record for each event unless one of its key is less than the window old.
  unfoldable pub run_contract : ℕ → ℕ → List (String × ℕ) → List Delivery → List DorguEvent
  run_contract window ttl history [] = []
  run_contract window ttl history (x ∷ xs) =
      let skip = run_contract window ttl history xs in
      let next = run_contract window ttl ((dedup_key x.event, x.now) ∷ history) xs in
      if recorded_since x.now window (dedup_key x.event) history
      then skip
      else dorgu_event hash format_time ttl x.event ∷ next

  module _ (now : ℕ) (create : DorguEvent → CreateAnswer) (s : HybridEventStore)
      (e : InternalEvent) where
    store_seen :
        recently_seen now s.dedup_window (dedup_key e) s.dedup_map ≡ true
        → store hash format_time now create s (some e)
          ≡ record { error = none; state = s; sent = [] }
    unfolding store
    store_seen h = rw h refl

    mark_new :
        recently_seen now s.dedup_window (dedup_key e) s.dedup_map ≡ false
        → check_and_mark_seen now s.dedup_window (dedup_key e) s.dedup_map
          ≡ (false, clean_up now s.dedup_window (insert (dedup_key e) now s.dedup_map))
    unfolding check_and_mark_seen
    mark_new h = rw h refl

    store_new :
        recently_seen now s.dedup_window (dedup_key e) s.dedup_map ≡ false
        → ((store hash format_time now create s (some e)).sent
            ≡ dorgu_event hash format_time s.ttl e ∷ [])
          × ((store hash format_time now create s (some e)).state ≡ record s {
            dedup_map = clean_up now s.dedup_window (insert (dedup_key e) now s.dedup_map);
          })
    unfolding store
    store_new h =
        let marked = mark_new h in
        elim (Option-cases (persist_crd create (dorgu_event hash format_time s.ttl e))) [
          | inl fine ↦ (ground (arith, marked, fine), ground (arith, marked, fine))
          | inr (err, failed) ↦ (ground (arith, marked, failed), ground (arith, marked, failed))
        ]

    store-refused :
        (err : Error)
        → recently_seen now s.dedup_window (dedup_key e) s.dedup_map ≡ false
        → create (dorgu_event hash format_time s.ttl e) ≡ refused err
        → (store hash format_time now create s (some e)).error ≢ none
    unfolding store persist_crd
    store-refused err h refusal x = let marked = mark_new h in ground arith

  run_store-Remembers :
      (start : ℕ) (s : HybridEventStore) (history : List (String × ℕ)) (xs : List Delivery)
      → Remembers start s.dedup_window s.dedup_map history
      → IsOrdered start xs
      → run_store s xs ≡ run_contract s.dedup_window s.ttl history xs
  unfolding run_store run_contract
  run_store-Remembers start s history [] r o = refl
  run_store-Remembers start s history (x ∷ xs) r o =
      let now = x.now in
      let key = dedup_key x.event in
      let r' = later-Remembers start now s.dedup_window s.dedup_map history o.0 r in
      let same = r'.agree now key (omega arith) in
      elim (Bool-cases (recently_seen now s.dedup_window key s.dedup_map)) [
        | inl seen ↦
            let rest = run_store-Remembers now s history xs r' o.1 in
            rw (store_seen now x.create s x.event seen, sym same ∙ seen) rest
        | inr new ↦
            let (sent, state) = store_new now x.create s x.event new in
            let entries = clean_up now s.dedup_window (insert key now s.dedup_map) in
            let held =
              clean_up-Remembers now s.dedup_window (insert key now s.dedup_map)
                ((key, now) ∷ history)
                (insert-Remembers now s.dedup_window key s.dedup_map history r' new) in
            let rest =
              run_store-Remembers now (record s { dedup_map = entries }) ((key, now) ∷ history) xs
                held o.1 in
            rw (sent, state, sym same ∙ new)
              (ap (λ l. dorgu_event hash format_time s.ttl x.event ∷ l) rest)
      ]

options-dedup_map :
    (opts : List StoreOption) (s : HybridEventStore)
    → (apply_options opts s).dedup_map ≡ s.dedup_map
unfolding apply_options
options-dedup_map [] s = refl
options-dedup_map (with_dedup_window d ∷ opts) s =
    options-dedup_map opts (record s { dedup_window = d })
options-dedup_map (with_ttl d ∷ opts) s = options-dedup_map opts (record s { ttl = d })

new_event_store-dedup_map : (opts : List StoreOption) → (new_event_store opts).dedup_map ≡ []
unfolding new_event_store
new_event_store-dedup_map opts = options-dedup_map opts _

-- Over a run of deliveries the store sends exactly the records that its contract asks for: one for
-- each event of whose key none was recorded less than the window before. Neither the clean-up nor
-- what the API server answers changes that. The deliveries are in the order of time.
pub run_store-contract :
    (hash : String → String) (format_time : ℕ → String) (opts : List StoreOption)
    (xs : List Delivery)
    → IsOrdered 0 xs
    → run_store hash format_time (new_event_store opts) xs
      ≡ run_contract hash format_time
          (new_event_store opts).dedup_window
          (new_event_store opts).ttl
          []
          xs
run_store-contract hash format_time opts xs o =
    run_store-Remembers hash format_time 0 (new_event_store opts) [] xs
      (rw (new_event_store-dedup_map opts) (nothing-Remembers (new_event_store opts).dedup_window))
      o

-- An event that is no duplicate and whose record the API server refused counts as seen: a second
-- delivery within the window sends nothing and reports no error. The store holds each key once.
pub store-refused-dropped :
    (hash : String → String) (format_time : ℕ → String) (now later : ℕ)
    (create again : DorguEvent → CreateAnswer) (s : HybridEventStore) (e : InternalEvent)
    (err : Error)
    → NoRepeat (keys s.dedup_map)
    → recently_seen now s.dedup_window (dedup_key e) s.dedup_map ≡ false
    → create (dorgu_event hash format_time s.ttl e) ≡ refused err
    → now ≤ later
    → later < now + s.dedup_window
    → ((store hash format_time now create s (some e)).error ≢ none)
      × ((store hash format_time later again
            (store hash format_time now create s (some e)).state
            (some e)).error
          ≡ none)
      × ((store hash format_time later again
            (store hash format_time now create s (some e)).state
            (some e)).sent
          ≡ [])
unfolding recently_seen
store-refused-dropped hash format_time now later create again s e err u new refusal le early =
    let key = dedup_key e in
    let (sent, state) = store_new hash format_time now create s e new in
    let entries = insert key now s.dedup_map in
    let marked = record s { dedup_map = clean_up now s.dedup_window entries } in
    let seen : recently_seen later s.dedup_window key marked.dedup_map ≡ true =
      clean_up-recently_seen now later s.dedup_window key entries le
        (NoRepeat-insert key now s.dedup_map u)
      ∙ ground (arith, lookup-insert key key now s.dedup_map, eq_iff key key) in
    let dropped = store_seen hash format_time later again marked e seen in
    (
      store-refused hash format_time now create s e err new refusal,
      rw (state, dropped) refl,
      rw (state, dropped) refl,
    )
