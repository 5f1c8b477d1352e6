-- ===== src/Certificates/Controller/Wiring.antt =====
-- pkg/certificates/reconciler: how reconciler.go's `NewReconciler` sets a reconciler up, and which keys it
-- and controller.go's event handlers enqueue. The work queue is a state of type `W`.
use mathlib.Core.List.{Memᴰ}
use control_protocol.Prelude.{
  ◌≡◌, refl, sym, ap₂, subst, ◌∙◌, Bool, true, ◌&&◌, Option, none, some, List, [], ◌∷◌, codes,
  length, ltb, if◌then◌else◌, arith,
}
use control_protocol.Prelude.Equality.{◌==◌, bytes_eq, ==_refl}
use control_protocol.Prelude.Maps.{lookup, is_some}
use control_protocol.Errors.{Text, Error, Result, ok, err}
use control_protocol.Certificates.Reconciler.{Secret, Reconciler, should_reconcile}

abbrev pub default_finalizer_name : Text
default_finalizer_name = codes "secrets.core"

-- `controller.Options`, over the types of config stores and of demoting functions; the same fields
-- of `reconcilerImpl` have this type, too.
pub record Options (C D : Type 0) : Type 0 where
  pub config_store : Option C
  pub finalizer_name : Text
  pub demote_func : Option D

abbrev pub or_else : {A : Type 0} → Option A → Option A → Option A
or_else none old = old
or_else (some new) old = some new

-- One round of the loop over the options.
abbrev pub with_option : {C D : Type 0} → Options C D → Options C D → Options C D
with_option rec opts = record {
  config_store = or_else opts.config_store rec.config_store;
  finalizer_name = if opts.finalizer_name == [] then rec.finalizer_name else opts.finalizer_name;
  demote_func = or_else opts.demote_func rec.demote_func;
}

abbrev pub with_options : {C D : Type 0} → Options C D → List (Options C D) → Options C D
with_options rec [] = rec
with_options rec (opts ∷ options) = with_options (with_option rec opts) options

-- `NewReconciler`, with the test for the wrong `LeaderAware`; `none` says that it ends the process.
unfoldable pub new_controller_reconciler :
    {C D : Type 0} → Bool → List (Options C D) → Option (Options C D)
new_controller_reconciler is_leader_aware options =
    if ltb 1 (length options)
    then none
    else if is_leader_aware
    then none
    else some (
        with_options
          (record {
            config_store = none;
            finalizer_name = default_finalizer_name;
            demote_func = none;
          })
          options)

-- What the code has of the libraries: the two filters, `FilteredGlobalResync` and the two ways to enqueue.
-- `B` stands for the buckets of the leader election.
pub record WorkQueue (W B : Type 0) : Type 0 where
  pub filter_with_name_and_namespace : Text → Text → Secret → Bool
  pub label_exists_filter : Text → Secret → Bool
  pub filtered_global_resync : (Secret → Bool) → W → W
  pub enqueue : Secret → W → W
  pub enq : B → Text → Text → W → W

module _ {W B : Type 0} (q : WorkQueue W B) where
  enqueue_all : B → List Secret → W → W
  enqueue_all bkt [] w = w
  enqueue_all bkt (elt ∷ all) w = enqueue_all bkt all (q.enq bkt elt.namespace elt.name w)

  -- `PromoteFunc`, with what the lister returns.
  unfoldable pub promote_func : B → Result (List Secret) → W → W × Option Error
  unfolding enqueue_all
  promote_func bkt (err e) w = (w, some e)
  promote_func bkt (ok all) w = (enqueue_all bkt all w, none)

  -- The two event handlers, on a secret that was added, changed or removed.
  unfoldable pub ca_handler : Reconciler → Secret → W → W
  ca_handler r secret w =
      if q.filter_with_name_and_namespace r.system_namespace r.ca_secret_name secret
      then q.filtered_global_resync (q.label_exists_filter r.secret_type_label_name) w
      else w

  unfoldable pub label_handler : Reconciler → Secret → W → W
  label_handler r secret w =
      if q.label_exists_filter r.secret_type_label_name secret then q.enqueue secret w else w

-- What the libraries promise of a work queue that is not shutting down and that no worker takes a key
-- from meanwhile: `queued w namespace name` tells
-- whether a key is in the work queue, `listed` are the secrets of the informer, and `has` tells which keys
-- a bucket has: a promoted replica is given the keys of its bucket, and no others.
pub record IsWorkQueue {W B : Type 0} (q : WorkQueue W B) (queued : W → Text → Text → Type 0)
    (is_open : W → Bool) (has : B → Text → Text → Bool) (listed : List Secret) : Type 0 where
  pub filter_by_name :
      (namespace name : Text) (s : Secret)
      → q.filter_with_name_and_namespace namespace name s
        ≡ (s.namespace == namespace && s.name == name)
  pub filter_by_label :
      (label : Text) (s : Secret) → q.label_exists_filter label s ≡ is_some (lookup label s.labels)
  pub resync_queues :
      (f : Secret → Bool) (w : W) (s : Secret)
      → is_open w ≡ true
      → Memᴰ s listed
      → f s ≡ true
      → queued (q.filtered_global_resync f w) s.namespace s.name
  pub enqueue_queues :
      (s : Secret) (w : W) → is_open w ≡ true → queued (q.enqueue s w) s.namespace s.name
  pub enq_queues :
      (bkt : B) (namespace name : Text) (w : W)
      → is_open w ≡ true
      → has bkt namespace name ≡ true
      → queued (q.enq bkt namespace name w) namespace name
  pub enq_keeps :
      (bkt : B) (namespace name namespace' name' : Text) (w : W)
      → queued w namespace' name'
      → queued (q.enq bkt namespace name w) namespace' name'
  pub enq_open :
      (bkt : B) (namespace name : Text) (w : W)
      → is_open w ≡ true
      → is_open (q.enq bkt namespace name w) ≡ true

label_exists :
    (r : Reconciler) (s : Secret)
    → should_reconcile r s ≡ true
    → is_some (lookup r.secret_type_label_name s.labels) ≡ true
unfolding should_reconcile
label_exists r s h = ground (arith, h)

module _ {W B : Type 0} (q : WorkQueue W B) (queued : W → Text → Text → Type 0) (is_open : W → Bool)
    (has : B → Text → Text → Bool) (listed : List Secret)
    (l : IsWorkQueue q queued is_open has listed) where
  enqueue_all_keeps :
      (bkt : B) (all : List Secret) (namespace name : Text) (w : W)
      → queued w namespace name
      → queued (enqueue_all q bkt all w) namespace name
  unfolding enqueue_all
  enqueue_all_keeps bkt [] namespace name w h = h
  enqueue_all_keeps bkt (elt ∷ all) namespace name w h =
      enqueue_all_keeps bkt all namespace name (q.enq bkt elt.namespace elt.name w)
        (l.enq_keeps bkt elt.namespace elt.name namespace name w h)

  enqueue_all_queues :
      (bkt : B) (all : List Secret) (s : Secret) (w : W)
      → is_open w ≡ true
      → has bkt s.namespace s.name ≡ true
      → Memᴰ s all
      → queued (enqueue_all q bkt all w) s.namespace s.name
  unfolding enqueue_all
  enqueue_all_queues bkt [] s w accepting own mem = elim mem [ ]
  enqueue_all_queues bkt (elt ∷ all) s w accepting own (Memᴰ.head e) =
      enqueue_all_keeps bkt all s.namespace s.name (q.enq bkt elt.namespace elt.name w) (
        subst (λ x. queued (q.enq bkt x.namespace x.name w) s.namespace s.name) e
          (l.enq_queues bkt s.namespace s.name w accepting own))
  enqueue_all_queues bkt (elt ∷ all) s w accepting own (Memᴰ.tail mem) =
      enqueue_all_queues bkt all s (q.enq bkt elt.namespace elt.name w)
        (l.enq_open bkt elt.namespace elt.name w accepting) own mem

  -- A secret that `ReconcileKind` acts on is in the work queue when it has changed, when the CA's secret
  -- has changed, and when the replica was promoted for a bucket that has the secret's key, if the lister
  -- and the informer have the secret, the work queue is not shutting down, no worker takes a key from it
  -- meanwhile, and the filters and the queue do what their libraries promise.
  pub should_reconcile-queued :
      (r : Reconciler) (bkt : B) (s ca : Secret) (w : W)
      → is_open w ≡ true
      → has bkt s.namespace s.name ≡ true
      → Memᴰ s listed
      → should_reconcile r s ≡ true
      → ca.namespace ≡ r.system_namespace
      → ca.name ≡ r.ca_secret_name
      → queued (label_handler q r s w) s.namespace s.name
        × queued (ca_handler q r ca w) s.namespace s.name
        × queued (promote_func q bkt (ok listed) w).0 s.namespace s.name
        × ((promote_func q bkt (ok listed) w).1 ≡ none)
  unfolding label_handler ca_handler promote_func
  should_reconcile-queued r bkt s ca w accepting own mem should n m =
      let labelled = l.filter_by_label r.secret_type_label_name s ∙ label_exists r s should in
      let is_ca : q.filter_with_name_and_namespace r.system_namespace r.ca_secret_name ca ≡ true =
        l.filter_by_name r.system_namespace r.ca_secret_name ca
        ∙ ap₂ (λ a b. a == r.system_namespace && b == r.ca_secret_name) n m
        ∙ ground (arith, ==_refl r.system_namespace, ==_refl r.ca_secret_name) in
      (
        subst (λ b. queued (if b then q.enqueue s w else w) s.namespace s.name) (sym labelled)
            (l.enqueue_queues s w accepting),
        subst
            (λ b.
              queued
                (if b
                  then q.filtered_global_resync (q.label_exists_filter r.secret_type_label_name) w
                  else w)
                s.namespace s.name)
            (sym is_ca)
            (l.resync_queues (q.label_exists_filter r.secret_type_label_name) w s accepting mem
              labelled),
        enqueue_all_queues bkt listed s w accepting own mem,
        refl,
      )
