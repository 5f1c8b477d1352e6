-- ===== src/Reconciler/NotificationStore/Invariant.antt =====
-- pkg/reconciler/notification_store.go: nil values, and keys without pods.
use control_protocol.Prelude.{
  ◌≡◌, ◌≢◌, subst, false, Bool-cases, Option-cases, Option, none, some, inl, inr, arith, List, [],
  ◌∷◌,
}
use control_protocol.Prelude.Equality.{Comparable, ◌==◌, ==_refl}
use control_protocol.Prelude.Maps.{
  empty, lookup, insert, erase, is_empty, lookup-empty, lookup-insert, lookup-erase, is_empty_iff,
}
use control_protocol.Reconciler.Nested.{inner_or_new, put_or_delete}
use control_protocol.Reconciler.NotificationStore.{
  ValueMerger, Pods, Notifications, value_or_nil, value_to_store, store_value, store_new_value,
  clean_pod_notification, clean_pods_notifications,
}

module _ {P V : Type 0} ⦃p : Comparable P⦄ where
  -- No pod has a nil value.
  pub NilFree : Pods P V → Type 0
  NilFree pods = (pod : P) → lookup pod pods ≢ some none

  NilFree-erase : (pods : Pods P V) (pod : P) → NilFree pods → NilFree (erase pod pods)
  unfolding NilFree
  NilFree-erase pods pod f = λ j. ground (arith, f j, lookup-erase pod j pods)

  NilFree-insert :
      (pods : Pods P V) (pod : P) (value : V)
      → NilFree pods
      → NilFree (insert pod (some value) pods)
  unfolding NilFree
  NilFree-insert pods pod value f = λ j. ground (arith, f j, lookup-insert pod j (some value) pods)

  inserted-is_empty :
      (pods : Pods P V) (pod : P) (value : Option V) → is_empty (insert pod value pods) ≡ false
  inserted-is_empty pods pod value = elim (Bool-cases (is_empty (insert pod value pods))) [
    | inl e ↦ ground (
      arith,
      (is_empty_iff (insert pod value pods)).0 e pod,
      lookup-insert pod pod value pods,
      ==_refl pod,
    )
    | inr e ↦ e
  ]

-- A change of the store: a value that arrives, or the cleaning of a pod or of a key.
pub data Change (K P V : Type 0) : Type 0 where
  arrives : K → P → ValueMerger V → Option V → Change K P V
  clean_pod : K → P → Change K P V
  clean_pods : K → Change K P V

NilFree-empty : (P V : Type 0) ⦃p : Comparable P⦄ → NilFree {P = P} {V = V} empty
unfolding NilFree
NilFree-empty P V = λ j. ground (arith, lookup-empty {V = Option V} j)

module _ {K P V : Type 0} ⦃k : Comparable K⦄ ⦃p : Comparable P⦄ ⦃v : Comparable V⦄ where
  pub record IsClean (n : Notifications K P V) : Type 0 where
    pub not_empty : (src : K) (pods : Pods P V) → lookup src n ≡ some pods → is_empty pods ≡ false
    pub nil_free : (src : K) (pods : Pods P V) → lookup src n ≡ some pods → NilFree pods

  pub empty-IsClean : IsClean empty
  empty-IsClean = record {
    not_empty = λ src pods h. ground (arith, h, lookup-empty {V = Pods P V} src);
    nil_free = λ src pods h. ground (arith, h, lookup-empty {V = Pods P V} src);
  }

  insert-IsClean :
      (n : Notifications K P V) (src : K) (pods : Pods P V)
      → is_empty pods ≡ false
      → NilFree pods
      → IsClean n
      → IsClean (insert src pods n)
  insert-IsClean n src pods e f c = record {
    not_empty = λ s l h. ground (arith, h, e, c.not_empty s l, lookup-insert src s pods n);
    nil_free = λ s l h. elim (Bool-cases (src == s)) [
      | inl same ↦ subst NilFree (ground (arith, h, same, lookup-insert src s pods n)) f
      | inr other ↦ c.nil_free s l (ground (arith, h, other, lookup-insert src s pods n))
    ];
  }

  erase-IsClean : (n : Notifications K P V) (src : K) → IsClean n → IsClean (erase src n)
  erase-IsClean n src c = record {
    not_empty = λ s l h. ground (arith, h, c.not_empty s l, lookup-erase src s n);
    nil_free = λ s l h. c.nil_free s l (ground (arith, h, lookup-erase src s n));
  }

  put_or_delete-IsClean :
      (n : Notifications K P V) (src : K) (pods : Pods P V)
      → NilFree pods
      → IsClean n
      → IsClean (put_or_delete n src pods)
  unfolding put_or_delete
  put_or_delete-IsClean n src pods f c = elim (Bool-cases (is_empty pods)) [
    | inl e ↦ rw e (erase-IsClean n src c)
    | inr e ↦ rw e (insert-IsClean n src pods e f c)
  ]

  pods-NilFree :
      (n : Notifications K P V) (src : K) → IsClean n → NilFree (inner_or_new (lookup src n))
  pods-NilFree n src c = elim (Option-cases (lookup src n)) [
    | inl e ↦ rw e (NilFree-empty P V)
    | inr (pods, e) ↦ rw e (c.nil_free src pods e)
  ]

  pub store_new_value-IsClean :
      (n : Notifications K P V) (src : K) (pod : P) (merger : ValueMerger V) (new : Option V)
      → IsClean n
      → IsClean (store_new_value n src pod merger new).0
  unfolding store_new_value store_value
  store_new_value-IsClean n src pod merger new c =
      let pods = inner_or_new (lookup src n) in
      go pods (value_or_nil (lookup pod pods)) (value_to_store merger (lookup pod pods) new)
        (pods-NilFree n src c)
    where
      go :
          (pods : Pods P V) (old value : Option V)
          → NilFree pods
          → IsClean (store_value n src pod pods old value).0
      go pods old none f = put_or_delete-IsClean n src (erase pod pods) (NilFree-erase pods pod f) c
      go pods old (some value) f =
          insert-IsClean n src (insert pod (some value) pods)
            (inserted-is_empty pods pod (some value)) (NilFree-insert pods pod value f) c

  pub clean_pod_notification-IsClean :
      (n : Notifications K P V) (src : K) (pod : P)
      → IsClean n
      → IsClean (clean_pod_notification n src pod)
  unfolding clean_pod_notification
  clean_pod_notification-IsClean n src pod c = elim (Option-cases (lookup src n)) [
    | inl e ↦ rw (e, clean_pod_notification) c
    | inr (pods, e) ↦
        rw (e, clean_pod_notification)
          (put_or_delete-IsClean n src (erase pod pods)
            (NilFree-erase pods pod (c.nil_free src pods e)) c)
  ]

  abbrev pub apply : Notifications K P V → Change K P V → Notifications K P V
  apply n (arrives src pod merger new) = (store_new_value n src pod merger new).0
  apply n (clean_pod src pod) = clean_pod_notification n src pod
  apply n (clean_pods src) = clean_pods_notifications n src

  abbrev pub apply_all : Notifications K P V → List (Change K P V) → Notifications K P V
  apply_all n [] = n
  apply_all n (c ∷ changes) = apply_all (apply n c) changes

  apply-IsClean : (n : Notifications K P V) (c : Change K P V) → IsClean n → IsClean (apply n c)
  unfolding clean_pods_notifications
  apply-IsClean n (arrives src pod merger new) h = store_new_value-IsClean n src pod merger new h
  apply-IsClean n (clean_pod src pod) h = clean_pod_notification-IsClean n src pod h
  apply-IsClean n (clean_pods src) h = erase-IsClean n src h

  apply_all_from :
      (n : Notifications K P V) (changes : List (Change K P V))
      → IsClean n
      → IsClean (apply_all n changes)
  apply_all_from n [] h = h
  apply_all_from n (c ∷ changes) h = apply_all_from (apply n c) changes (apply-IsClean n c h)

  -- Whatever arrives and is cleaned, and whatever the mergers return, a store that began empty keeps
  -- no key without pods and no pod with a nil value.
  pub apply_all-IsClean : (changes : List (Change K P V)) → IsClean (apply_all empty changes)
  apply_all-IsClean changes = apply_all_from empty changes empty-IsClean
