-- ===== src/Reconciler/NotificationStore.antt =====
-- pkg/reconciler/notification_store.go. `K` stands for `types.NamespacedName`, `P` for the names of
-- pods, and an `interface{}` is an `Option V`, where `==` on `V` is `reflect.DeepEqual`. The
-- look-ups, the cleanings and `store_new_value` run under the store's lock, `enqueueKey` after it.
pub mod Laws
pub mod Invariant
pub mod Replay
use control_protocol.Prelude.{
  ℕ, Bool, true, false, not, Option, none, some, List, [], ◌∷◌, ◌++◌, if◌then◌else◌,
}
use control_protocol.Prelude.Equality.{Comparable, ◌==◌}
use control_protocol.Prelude.Maps.{Map, empty, lookup, insert, erase, is_empty}
use control_protocol.Errors.{Result, ok, err}
use control_protocol.Message.{Message}
use control_protocol.Message.Format.{bytes_of}
use control_protocol.Reconciler.Nested.{inner_or_new, put_or_delete}
use control_protocol.Service.{Effect, Handler, ack}

-- `reflect.DeepEqual` of two `interface{}`.
abbrev pub deep_equal {ℓ} : {V : Type ℓ} ⦃e : Comparable V⦄ → Option V → Option V → Bool
deep_equal none none = true
deep_equal none (some y) = false
deep_equal (some x) none = false
deep_equal (some x) (some y) = x == y

abbrev pub ValueMerger {ℓ} : Type ℓ → Type ℓ
ValueMerger V = Option V → Option V → Option V

abbrev pub pass_new_value {ℓ} : {V : Type ℓ} → ValueMerger V
pass_new_value old new = new

abbrev pub Pods : Type 0 → Type 0 → Type 0
Pods P V = Map P (Option V)

abbrev pub Notifications : Type 0 → Type 0 → Type 0 → Type 0
Notifications K P V = Map K (Pods P V)

-- The value of a missing key is nil.
abbrev pub value_or_nil : {V : Type 0} → Option (Option V) → Option V
value_or_nil none = none
value_or_nil (some value) = value

-- `valueToStore`
abbrev pub value_to_store : {V : Type 0} → ValueMerger V → Option (Option V) → Option V → Option V
value_to_store merger none new = new
value_to_store merger (some old) new = merger old new

-- The store, and the keys given to `enqueueKey`.
pub record NotificationStore (K P V : Type 0) : Type 0 where
  pub notification_store : Notifications K P V
  pub enqueued : List K

module _ {K P V : Type 0} ⦃k : Comparable K⦄ ⦃p : Comparable P⦄ ⦃v : Comparable V⦄ where
  unfoldable pub get_pods_notifications : Notifications K P V → K → Option (Pods P V)
  get_pods_notifications n src = lookup src n

  -- The value and `ok`.
  unfoldable pub get_pod_notification : Notifications K P V → K → P → Option (Option V)
  get_pod_notification n src pod = elim (lookup src n) [ none ↦ none | some pods ↦ lookup pod pods ]

  unfoldable pub clean_pods_notifications : Notifications K P V → K → Notifications K P V
  clean_pods_notifications n src = erase src n

  unfoldable pub clean_pod_notification : Notifications K P V → K → P → Notifications K P V
  clean_pod_notification n src pod = elim (lookup src n) [
    | none ↦ n
    | some pods ↦ put_or_delete n src (erase pod pods)
  ]

  -- What is stored for the pod, and whether to reconcile.
  unfoldable pub store_value :
      Notifications K P V → K → P → Pods P V → Option V → Option V → Notifications K P V × Bool
  store_value n src pod pods old (some value) =
      (insert src (insert pod (some value) pods) n, not (deep_equal old (some value)))
  store_value n src pod pods old none = (put_or_delete n src (erase pod pods), true)

  unfoldable pub store_new_value :
      Notifications K P V → K → P → ValueMerger V → Option V → Notifications K P V × Bool
  store_new_value n src pod merger new =
      let pods = inner_or_new (lookup src n) in
      let old = lookup pod pods in
      store_value n src pod pods (value_or_nil old) (value_to_store merger old new)

  -- `MessageHandler`. A payload that does not parse is only logged.
  unfoldable pub message_handler :
      (List ℕ → Result (Option V)) → K → P → ValueMerger V → Handler (NotificationStore K P V)
  message_handler payload_parser src pod merger n m = elim (payload_parser (bytes_of m.payload)) [
    | err e ↦ (n, [])
    | ok payload ↦
        let (notifications, should_run) =
          store_new_value n.notification_store src pod merger payload in
        (
          record {
            notification_store = notifications;
            enqueued = if should_run then n.enqueued ++ src ∷ [] else n.enqueued;
          },
          ack ∷ [],
        )
  ]
