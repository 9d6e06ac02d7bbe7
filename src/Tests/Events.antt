-- ===== src/Tests/Events.antt =====
-- The theorems on the record of events, at sample deliveries.
use Prim.Native.String.{◌++◌}
use dorgu_operator.Events.Names.{generate_crd_name, sanitize_k8s_name}
use dorgu_operator.Events.Names.Laws.{generate_crd_name_collides}
use dorgu_operator.Common.{ℕ, ◌≡◌, ◌≢◌, refl, none, some, [], ◌∷◌, arith, String}
use dorgu_operator.Common.Maps.{lookup}
use dorgu_operator.Api.{errorf}
use dorgu_operator.Events.{InternalEvent}
use dorgu_operator.Events.Store.{
  HybridEventStore, created, new_event_store, recently_seen, refused, store, with_dedup_window,
}
use dorgu_operator.Events.Store.Laws.{
  Delivery, run_store, run_contract, run_store-contract, store-refused-dropped,
}

abbrev event : InternalEvent
event = record {
  id = "1";
  severity = "warning";
  category = "resource";
  source = "pods";
  reason = "";
  message = "";
  involved_object = record { kind = "Pod"; name = "web-1"; namespace = "shop" };
  persona_ref = none;
  event_time = 3;
  k8s_event_uid = "";
}

abbrev delivered_at : ℕ → Delivery
delivered_at now = record { now = now; event = event; create = λ de. created }

abbrev ten : HybridEventStore
ten = record { dedup_window = 10; ttl = 100; dedup_map = [] }

run_store-contract_example :
    run_store
      (λ s. s)
      (λ t. "t")
      (new_event_store (with_dedup_window 10 ∷ []))
      (delivered_at 5 ∷ delivered_at 9 ∷ delivered_at 20 ∷ [])
    ≡ run_contract
        (λ s. s)
        (λ t. "t")
        (new_event_store (with_dedup_window 10 ∷ [])).dedup_window
        (new_event_store (with_dedup_window 10 ∷ [])).ttl
        []
        (delivered_at 5 ∷ delivered_at 9 ∷ delivered_at 20 ∷ [])
run_store-contract_example =
    run_store-contract (λ s. s) (λ t. "t") (with_dedup_window 10 ∷ [])
      (delivered_at 5 ∷ delivered_at 9 ∷ delivered_at 20 ∷ [])
      (omega arith, (omega arith, (omega arith, tt)))

store-refused-dropped_example :
    ((store (λ s. s) (λ t. "t") 5 (λ de. refused (errorf "down" [])) ten (some event)).error ≢ none)
    × ((store
          (λ s. s)
          (λ t. "t")
          9
          (λ de. created)
          (store (λ s. s) (λ t. "t") 5 (λ de. refused (errorf "down" [])) ten (some event)).state
          (some event)).error
        ≡ none)
    × ((store
          (λ s. s)
          (λ t. "t")
          9
          (λ de. created)
          (store (λ s. s) (λ t. "t") 5 (λ de. refused (errorf "down" [])) ten (some event)).state
          (some event)).sent
        ≡ [])
unfolding recently_seen lookup
store-refused-dropped_example =
    store-refused-dropped (λ s. s) (λ t. "t") 5 9 (λ de. refused (errorf "down" [])) (λ de. created)
      ten event (errorf "down" []) tt refl refl (omega arith) (omega arith)

abbrev eighty : String
eighty = "aaaaaaaaaaaaaaaaaaaaaaaaaaaaaaaaaaaaaaaaaaaaaaaaaaaaaaaaaaaaaaaaaaaaaaaaaaaaaaaa"

-- An event on an object whose name is as long as a name may be.
abbrev long_named : InternalEvent
long_named = record event {
  involved_object = record {
    kind = "Pod";
    name = eighty ++ eighty ++ eighty ++ "aaaaaaaaaaaaa";
    namespace = "shop";
  };
}

generate_crd_name_collides_example :
    generate_crd_name (λ s. "0123456789ab") (λ t. "t") long_named
    ≡ generate_crd_name (λ s. "0123456789ab") (λ t. "t") (record long_named { reason = "Failed" })
unfolding sanitize_k8s_name
generate_crd_name_collides_example =
    generate_crd_name_collides (λ s. "0123456789ab") (λ t. "t") long_named
      (record long_named { reason = "Failed" }) (λ s. refl) refl (omega arith)
