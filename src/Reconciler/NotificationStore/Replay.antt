-- ===== src/Reconciler/NotificationStore/Replay.antt =====
-- pkg/reconciler/notification_store.go: a store beside a plain function from keys and pods to values.
use control_protocol.Prelude.{
  ℕ, ◌≡◌, refl, ap, ◌∙◌, inl, inr, false, Bool, not, ◌&&◌, Option, none, some, List, [], ◌∷◌, ◌++◌,
  if◌then◌else◌, arith,
}
use control_protocol.Prelude.Equality.{Comparable, ◌==◌}
use control_protocol.Prelude.Maps.{empty, lookup, lookup-empty}
use control_protocol.Errors.{Result, Result-cases, ok, err}
use control_protocol.Message.{Message}
use control_protocol.Message.Format.{bytes_of}
use control_protocol.Reconciler.Nested.{inner_or_new, lookup-inner_or_new}
use control_protocol.Reconciler.NotificationStore.{
  deep_equal, ValueMerger, Pods, Notifications, NotificationStore, value_or_nil, value_to_store,
  get_pod_notification, store_value, store_new_value, clean_pod_notification,
  clean_pods_notifications, message_handler,
}
use control_protocol.Reconciler.NotificationStore.Laws.{stored, get-store_new_value, get-clean}

-- What happens to a store: a message arrives for a pod, or a pod or a key is cleaned.
pub data StoreEvent (K P V : Type 0) : Type 0 where
  received : K → P → ValueMerger V → Message → StoreEvent K P V
  pod_cleaned : K → P → StoreEvent K P V
  key_cleaned : K → StoreEvent K P V

-- The values as a reader sees them, and the keys to reconcile, in order.
pub record Readings (K P V : Type 0) : Type 0 where
  pub value_of : K → P → Option (Option V)
  pub enqueued : List K

-- A value that is not stored anew asks for no reconciliation.
abbrev is_known : {V : Type 0} ⦃v : Comparable V⦄ → Option V → Option V → Bool
is_known old none = false
is_known old (some value) = deep_equal old (some value)

module _ {K P V : Type 0} ⦃k : Comparable K⦄ ⦃p : Comparable P⦄ ⦃v : Comparable V⦄ where
  seen_payload : Readings K P V → K → P → ValueMerger V → Result (Option V) → Readings K P V
  seen_payload r src pod merger (err e) = r
  seen_payload r src pod merger (ok new) =
      let old = r.value_of src pod in
      let next = value_to_store merger old new in
      record {
        value_of =
            λ src' pod'. if src == src' && pod == pod' then stored next else r.value_of src' pod';
        enqueued = if is_known (value_or_nil old) next then r.enqueued else r.enqueued ++ src ∷ [];
      }

  -- The store's contract, with no map of maps.
  seen : (List ℕ → Result (Option V)) → Readings K P V → StoreEvent K P V → Readings K P V
  unfolding seen_payload
  seen parser r (received src pod merger m) =
      seen_payload r src pod merger (parser (bytes_of m.payload))
  seen parser r (pod_cleaned src pod) = record r {
    value_of = λ src' pod'. if src == src' && pod == pod' then none else r.value_of src' pod';
  }
  seen parser r (key_cleaned src) = record r {
    value_of = λ src' pod'. if src == src' then none else r.value_of src' pod';
  }

  unfoldable pub seen_all :
      (List ℕ → Result (Option V)) → Readings K P V → List (StoreEvent K P V) → Readings K P V
  unfolding seen
  seen_all parser r [] = r
  seen_all parser r (e ∷ events) = seen_all parser (seen parser r e) events

  abbrev pub nothing_seen : Readings K P V
  nothing_seen = record { value_of = λ src pod. none; enqueued = [] }

  -- `NewNotificationStore`
  abbrev pub new_notification_store : NotificationStore K P V
  new_notification_store = record { notification_store = empty; enqueued = [] }

  -- An operation of the store itself.
  happen :
      (List ℕ → Result (Option V))
      → NotificationStore K P V
      → StoreEvent K P V
      → NotificationStore K P V
  happen parser n (received src pod merger m) = (message_handler parser src pod merger n m).0
  happen parser n (pod_cleaned src pod) = record n {
    notification_store = clean_pod_notification n.notification_store src pod;
  }
  happen parser n (key_cleaned src) = record n {
    notification_store = clean_pods_notifications n.notification_store src;
  }

  unfoldable pub happen_all :
      (List ℕ → Result (Option V))
      → NotificationStore K P V
      → List (StoreEvent K P V)
      → NotificationStore K P V
  unfolding happen
  happen_all parser n [] = n
  happen_all parser n (e ∷ events) = happen_all parser (happen parser n e) events

  -- The store reads as the readings.
  pub record ReadsAs (n : NotificationStore K P V) (r : Readings K P V) : Type 0 where
    pub values :
        (src : K) (pod : P) → get_pod_notification n.notification_store src pod ≡ r.value_of src pod
    pub reconciled : n.enqueued ≡ r.enqueued

  store_value-is_known :
      (n : Notifications K P V) (src : K) (pod : P) (pods : Pods P V) (old next : Option V)
      → (store_value n src pod pods old next).1 ≡ not (is_known old next)
  unfolding store_value
  store_value-is_known n src pod pods old none = refl
  store_value-is_known n src pod pods old (some value) = refl

  store_new_value-is_known :
      (n : Notifications K P V) (src : K) (pod : P) (merger : ValueMerger V) (new : Option V)
      → let old = get_pod_notification n src pod in
        (store_new_value n src pod merger new).1
        ≡ not (is_known (value_or_nil old) (value_to_store merger old new))
  unfolding store_new_value get_pod_notification
  store_new_value-is_known n src pod merger new =
      let pods = inner_or_new (lookup src n) in
      let old = lookup pod pods in
      store_value-is_known n src pod pods (value_or_nil old) (value_to_store merger old new)
      ∙ ap (λ o. not (is_known (value_or_nil o) (value_to_store merger o new)))
          (lookup-inner_or_new n src pod)

  received-ReadsAs :
      (parser : List ℕ → Result (Option V)) (n : NotificationStore K P V) (r : Readings K P V)
      (src : K) (pod : P) (merger : ValueMerger V) (m : Message)
      → ReadsAs n r
      → ReadsAs
          (message_handler parser src pod merger n m).0
          (seen_payload r src pod merger (parser (bytes_of m.payload)))
  unfolding message_handler seen_payload
  received-ReadsAs parser n r src pod merger m h =
      elim (Result-cases (parser (bytes_of m.payload))) [
        | inl (new, p) ↦
            let same = h.values src pod in
            rw (p, message_handler)
              (record {
                values = λ src' pod'.
                    get-store_new_value n.notification_store src src' pod pod' merger new
                    ∙ ground (arith, same, h.values src' pod');
                reconciled = ground (
                  arith,
                  store_new_value-is_known n.notification_store src pod merger new,
                  same,
                  h.reconciled,
                );
              })
        | inr (e, p) ↦ rw (p, message_handler) h
      ]

  happen-ReadsAs :
      (parser : List ℕ → Result (Option V)) (n : NotificationStore K P V) (r : Readings K P V)
      (e : StoreEvent K P V)
      → ReadsAs n r
      → ReadsAs (happen parser n e) (seen parser r e)
  unfolding happen seen
  happen-ReadsAs parser n r (received src pod merger m) h =
      received-ReadsAs parser n r src pod merger m h
  happen-ReadsAs parser n r (pod_cleaned src pod) h = record {
    values = λ src' pod'.
        (get-clean n.notification_store src src' pod pod').0
        ∙ ap (λ o. if src == src' && pod == pod' then none else o) (h.values src' pod');
    reconciled = h.reconciled;
  }
  happen-ReadsAs parser n r (key_cleaned src) h = record {
    values = λ src' pod'.
        (get-clean n.notification_store src src' pod' pod').1
        ∙ ap (λ o. if src == src' then none else o) (h.values src' pod');
    reconciled = h.reconciled;
  }

  happen_all_from :
      (parser : List ℕ → Result (Option V)) (n : NotificationStore K P V) (r : Readings K P V)
      (events : List (StoreEvent K P V))
      → ReadsAs n r
      → ReadsAs (happen_all parser n events) (seen_all parser r events)
  unfolding happen_all seen_all
  happen_all_from parser n r [] h = h
  happen_all_from parser n r (e ∷ events) h =
      happen_all_from parser (happen parser n e) (seen parser r e) events
        (happen-ReadsAs parser n r e h)

  new-ReadsAs : ReadsAs new_notification_store nothing_seen
  unfolding get_pod_notification
  new-ReadsAs = record {
    values = λ src pod. ground (arith, lookup-empty {V = Pods P V} src);
    reconciled = refl;
  }

  -- Whatever messages arrive at a new store, whatever its parser and the mergers do, and whatever is
  -- cleaned between them: the store reads, for each key and pod, as a function that the messages that
  -- parse and the cleanings update, and it has asked to reconcile the key of each message that parsed,
  -- in order, but for those that left a value that is not nil deeply equal to the old one.
  pub happen_all-ReadsAs :
      (parser : List ℕ → Result (Option V)) (events : List (StoreEvent K P V))
      → ReadsAs
          (happen_all parser new_notification_store events)
          (seen_all parser nothing_seen events)
  happen_all-ReadsAs parser events =
      happen_all_from parser new_notification_store nothing_seen events new-ReadsAs
