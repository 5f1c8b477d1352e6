-- ===== src/Reconciler/NotificationStore/Laws.antt =====
-- What the operations on the notification store do to the value of each pod.
use control_protocol.Prelude.{
  ◌≡◌, refl, ap, ◌∙◌, inl, inr, true, false, ◌&&◌, Option-cases, Option, none, some, if◌then◌else◌,
  arith,
}
use control_protocol.Prelude.Equality.{Comparable, ◌==◌}
use control_protocol.Prelude.Maps.{lookup, lookup-erase}
use control_protocol.Reconciler.Nested.{
  inner_or_new, changed_in, lookup-inner_or_new, get_in-insert_in, get_in-erase_in, get_in-absent,
  get_in-erase_found,
}
use control_protocol.Reconciler.NotificationStore.{
  deep_equal, ValueMerger, Pods, Notifications, value_or_nil, value_to_store, get_pod_notification,
  store_value, store_new_value, clean_pod_notification, clean_pods_notifications,
}

-- An interface is stored unless it is nil.
abbrev pub stored : {V : Type 0} → Option V → Option (Option V)
stored none = none
stored (some value) = some (some value)

deep_equal_eq : {V : Type 0} ⦃v : Comparable V⦄ (x y : Option V) → deep_equal x y ≡ true → x ≡ y
deep_equal_eq none none h = refl
deep_equal_eq none (some y) h = ground arith
deep_equal_eq (some x) none h = ground arith
deep_equal_eq ⦃v⦄ (some x) (some y) h = ap some ((v.equal_iff x y).0 h)

value-stored : {V : Type 0} (value : Option V) → value_or_nil (stored value) ≡ value
value-stored none = refl
value-stored (some value) = refl

module _ {K P V : Type 0} ⦃k : Comparable K⦄ ⦃p : Comparable P⦄ ⦃v : Comparable V⦄ where
  get-store_value :
      (n : Notifications K P V) (src src' : K) (pod pod' : P) (old value : Option V)
      → get_pod_notification
          (store_value n src pod (inner_or_new (lookup src n)) old value).0
          src'
          pod'
        ≡ changed_in n src pod (stored value) src' pod'
  unfolding store_value get_pod_notification
  get-store_value n src src' pod pod' old none = get_in-erase_in n src src' pod pod'
  get-store_value n src src' pod pod' old (some value) =
      get_in-insert_in n src src' pod pod' (some value)

  -- A new value for one pod: that pod then has the merged value, or no entry if that is nil, and
  -- every other pod has what it had.
  pub get-store_new_value :
      (n : Notifications K P V) (src src' : K) (pod pod' : P) (merger : ValueMerger V)
      (new : Option V)
      → get_pod_notification (store_new_value n src pod merger new).0 src' pod' ≡ (
          if src == src' && pod == pod'
          then stored (value_to_store merger (get_pod_notification n src pod) new)
          else get_pod_notification n src' pod')
  unfolding store_new_value get_pod_notification
  get-store_new_value n src src' pod pod' merger new =
      let old = lookup pod (inner_or_new (lookup src n)) in
      get-store_value n src src' pod pod' (value_or_nil old) (value_to_store merger old new)
      ∙ ground (arith, lookup-inner_or_new n src pod)

  get-clean_pod :
      (n : Notifications K P V) (src src' : K) (pod pod' : P)
      → get_pod_notification (clean_pod_notification n src pod) src' pod'
        ≡ changed_in n src pod none src' pod'
  unfolding clean_pod_notification get_pod_notification
  get-clean_pod n src src' pod pod' = elim (Option-cases (lookup src n)) [
    | inl e ↦ rw (e, clean_pod_notification) (get_in-absent n src src' pod pod' e)
    | inr (pods, e) ↦ rw (e, clean_pod_notification) (get_in-erase_found n src src' pod pod' pods e)
  ]

  -- `CleanPodNotification` removes the entry of its pod and no other, and `CleanPodsNotifications`
  -- those of all pods of its key and no other.
  pub get-clean :
      (n : Notifications K P V) (src src' : K) (pod pod' : P)
      → (get_pod_notification (clean_pod_notification n src pod) src' pod'
          ≡ (if src == src' && pod == pod' then none else get_pod_notification n src' pod'))
        × (get_pod_notification (clean_pods_notifications n src) src' pod'
            ≡ (if src == src' then none else get_pod_notification n src' pod'))
  unfolding clean_pods_notifications get_pod_notification
  get-clean n src src' pod pod' = (
    get-clean_pod n src src' pod pod',
    unfold get_pod_notification in ground (arith, lookup-erase src src' n),
  )

  quiet_value :
      (n : Notifications K P V) (src : K) (pod : P) (pods : Pods P V) (old value : Option V)
      → (store_value n src pod pods old value).1 ≡ false
      → old ≡ value
  unfolding store_value
  quiet_value n src pod pods old none h = ground arith
  quiet_value n src pod pods old (some value) h = deep_equal_eq old (some value) (ground arith)

  same_entry :
      (n : Notifications K P V) (src src' : K) (pod pod' : P)
      → (src == src') ≡ true
      → (pod == pod') ≡ true
      → get_pod_notification n src pod ≡ get_pod_notification n src' pod'
  same_entry n src src' pod pod' s q =
      ap (λ a. get_pod_notification n a pod) ((k.equal_iff src src').0 s)
      ∙ ap (get_pod_notification n src') ((p.equal_iff pod pod').0 q)

  -- A store that asks for no reconciliation has changed the value of no pod.
  pub store_new_value_quiet :
      (n : Notifications K P V) (src src' : K) (pod pod' : P) (merger : ValueMerger V)
      (new : Option V)
      → (store_new_value n src pod merger new).1 ≡ false
      → value_or_nil (get_pod_notification (store_new_value n src pod merger new).0 src' pod')
        ≡ value_or_nil (get_pod_notification n src' pod')
  unfolding store_new_value get_pod_notification
  store_new_value_quiet n src src' pod pod' merger new h =
      let old = lookup pod (inner_or_new (lookup src n)) in
      let now = value_to_store merger old new in
      let same = quiet_value n src pod (inner_or_new (lookup src n)) (value_or_nil old) now h in
      ground (
        arith,
        get-store_value n src src' pod pod' (value_or_nil old) now,
        same,
        value-stored now,
        lookup-inner_or_new n src pod,
        same_entry n src src' pod pod',
      )
