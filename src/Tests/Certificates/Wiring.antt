-- ===== src/Tests/Certificates/Wiring.antt =====
-- pkg/certificates/reconciler: a work queue that is a list of keys.
use mathlib.Core.List.{Memᴰ}
use control_protocol.Prelude.{
  ℕ, ◌≡◌, refl, sym, ap, ◌∙◌, Bool, true, false, ◌&&◌, none, some, List, [], ◌∷◌, codes,
  if◌then◌else◌, arith, if_each, if_both,
}
use control_protocol.Prelude.Equality.{◌==◌, bytes_eq}
use control_protocol.Prelude.Maps.{lookup, is_some}
use control_protocol.Errors.{Text, ok}
use control_protocol.Certificates.Reconciler.{Secret, new_reconciler}
use control_protocol.Certificates.Controller.Wiring.{
  new_controller_reconciler, default_finalizer_name, WorkQueue, IsWorkQueue, promote_func,
  ca_handler, label_handler, should_reconcile-queued,
}
use control_protocol.Tests.Certificates.Rotation.{r, ca_secret, secret, secret_should}

default_options_run :
    (new_controller_reconciler {C = ℕ} {D = ℕ} false []
      ≡ some (record {
        config_store = none;
        finalizer_name = default_finalizer_name;
        demote_func = none;
      }))
    × (new_controller_reconciler {C = ℕ} {D = ℕ} false
          (record { config_store = some 1; finalizer_name = []; demote_func = none } ∷ [])
        ≡ some (record {
          config_store = some 1;
          finalizer_name = default_finalizer_name;
          demote_func = none;
        }))
unfolding new_controller_reconciler
default_options_run = (refl, refl)

abbrev Keys : Type 0
Keys = List (Text × Text)

abbrev Queued : Keys → Text → Text → Type 0
Queued w namespace name = Memᴰ (namespace, name) w

abbrev queue_all : (Secret → Bool) → List Secret → Keys → Keys
queue_all f [] w = w
queue_all f (s ∷ all) w =
    let rest = queue_all f all w in if f s then (s.namespace, s.name) ∷ rest else rest

-- A bucket has the keys of one namespace, and the queue is open to new keys.
abbrev has_key : Text → Text → Text → Bool
has_key bkt namespace name = bkt == namespace

abbrev never_closed : Keys → Bool
never_closed w = true

abbrev key_list : WorkQueue Keys Text
key_list = record {
  filter_with_name_and_namespace = λ namespace name s. s.namespace == namespace && s.name == name;
  label_exists_filter = λ label s. is_some (lookup label s.labels);
  filtered_global_resync = λ f w. queue_all f (secret ∷ ca_secret ∷ []) w;
  enqueue = λ s w. (s.namespace, s.name) ∷ w;
  enq = λ bkt namespace name w. if bkt == namespace then (namespace, name) ∷ w else w;
}

queue_all-Queued :
    (f : Secret → Bool) (all : List Secret) (w : Keys) (s : Secret)
    → Memᴰ s all
    → f s ≡ true
    → Queued (queue_all f all w) s.namespace s.name
queue_all-Queued f [] w s mem h = elim mem [ ]
queue_all-Queued f (x ∷ all) w s (Memᴰ.head e) h =
    if_each (λ keys. Queued keys s.namespace s.name) (f x)
      (λ yes. Memᴰ.head (ap (λ y. (y.namespace, y.name)) e))
      (λ no. absurd (ground (arith, sym (ap f e) ∙ h, no)))
queue_all-Queued f (x ∷ all) w s (Memᴰ.tail mem) h =
    let rest = queue_all-Queued f all w s mem h in
    if_both (λ keys. Queued keys s.namespace s.name) (f x) (Memᴰ.tail rest) rest

key_list-IsWorkQueue : IsWorkQueue key_list Queued never_closed has_key (secret ∷ ca_secret ∷ [])
key_list-IsWorkQueue = record {
  filter_by_name = λ namespace name s. refl;
  filter_by_label = λ label s. refl;
  resync_queues = λ f w s accepting mem h. queue_all-Queued f (secret ∷ ca_secret ∷ []) w s mem h;
  enqueue_queues = λ s w accepting. Memᴰ.head refl;
  enq_queues = λ bkt namespace name w accepting own.
      if_each (λ keys. Queued keys namespace name) (bkt == namespace) (λ yes. Memᴰ.head refl)
        (λ no. absurd (ground (arith, own, no)));
  enq_keeps = λ bkt namespace name namespace' name' w h.
      if_both (λ keys. Queued keys namespace' name') (bkt == namespace) (Memᴰ.tail h) h;
  enq_open = λ bkt namespace name w accepting. refl;
}

should_reconcile-queued_example :
    Queued (label_handler key_list r secret []) (codes "ns") (codes "s")
    × Queued (ca_handler key_list r ca_secret []) (codes "ns") (codes "s")
    × Queued
        (promote_func key_list (codes "ns") (ok (secret ∷ ca_secret ∷ [])) []).0
        (codes "ns")
        (codes "s")
    × ((promote_func key_list (codes "ns") (ok (secret ∷ ca_secret ∷ [])) []).1 ≡ none)
unfolding new_reconciler
should_reconcile-queued_example =
    should_reconcile-queued key_list Queued never_closed has_key (secret ∷ ca_secret ∷ [])
      key_list-IsWorkQueue r (codes "ns") secret ca_secret [] refl refl (Memᴰ.head refl)
      secret_should refl refl
