-- ===== src/Tests/Certificates/Controller.antt =====
-- pkg/certificates/reconciler/reconciler.go, over an API server with one secret.
use control_protocol.Prelude.{
  ℕ, ◌≡◌, ◌⊎◌, refl, sym, ap, true, false, Option, none, some, List, [], ◌∷◌, codes, if◌then◌else◌,
  arith,
}
use control_protocol.Prelude.Equality.{◌==◌, bytes_eq}
use control_protocol.Prelude.Maps.{empty, map_option}
use control_protocol.Errors.{Text, eof, Result, ok, err, ok_inj}
use control_protocol.Certificates.Reconciler.{Secret, Found, found, not_found}
use control_protocol.Certificates.Controller.{Patch, Method, ReconcilerImpl}
use control_protocol.Certificates.Controller.Reconcile.{reconcile}
use control_protocol.Certificates.Controller.Finalizers.{IsFaithful}
use control_protocol.Certificates.Controller.Dispatch.{not_leader-reconcile, reconcile_exclusive}

some_inj : {A : Type 0} {a b : A} → some a ≡ some b → a ≡ b
some_inj h = ground (arith, h)

-- The finalizers and the deletion timestamp of the secret, if it is there.
abbrev Server : Type 0
Server = Option (List Text × Option ℕ)

abbrev ctrl : Text
ctrl = codes "ctrl"

abbrev own : Text
own = codes "certs"

abbrev other : Text
other = codes "other"

abbrev secret : List Text × Option ℕ → Secret
secret (finalizers, deleted) = record {
  namespace = codes "ns";
  name = ctrl;
  labels = empty;
  data_of = empty;
  finalizers = finalizers;
  deletion_timestamp = deleted;
  resource_version = [];
}

-- A secret that is being deleted goes with its last finalizer.
abbrev stored : List Text → Option ℕ → Server
stored finalizers none = some (finalizers, none)
stored [] (some t) = none
stored (f ∷ finalizers) (some t) = some (f ∷ finalizers, some t)

abbrev patch_server : Patch → Server → Server × Result Secret
patch_server p none = (none, err eof)
patch_server p (some (finalizers, deleted)) =
    (stored p.finalizers deleted, ok (secret (p.finalizers, deleted)))

abbrev shown : Option Secret → Found
shown none = not_found
shown (some s) = found s

abbrev object : Server → Option Secret
object w = map_option secret w

abbrev impl : ReconcilerImpl Server
impl = record {
  split_key = λ key. if key == codes "ns/ctrl" then ok (codes "ns", ctrl) else err eof;
  is_leader_for = λ namespace name. true;
  new_skip_key = λ key. record {
    as_event = none;
    is_event = false;
    is_skip_key = true;
    is_requeue_key = false;
    text = key;
  };
  get = λ w namespace name. shown (object w);
  patch = λ namespace name p w. patch_server p w;
  record_event = λ s type reason text w. w;
  set_list = λ l. l;
  marshal_error = λ p. none;
  reconcile_kind = λ s w. (w, s, none);
  finalize_kind = some (λ s w. (w, s, none));
  observe_kind = none;
  observe_deletion = none;
  finalizer_name = own;
}

patched_server :
    (p : Patch) (w : Server) (updated : Secret)
    → (patch_server p w).1 ≡ ok updated
    → updated.finalizers ≡ p.finalizers
patched_server p none updated h = absurd (ground (arith, h))
patched_server p (some (finalizers, deleted)) updated h =
    sym (ap (λ s. s.finalizers) (ok_inj (secret (p.finalizers, deleted)) updated h))

impl-IsFaithful : IsFaithful impl
impl-IsFaithful = record {
  same_members = λ x l. refl;
  returns_patched = λ namespace name p w updated h. patched_server p w updated h;
}

abbrev finalize : Method Server
finalize s w = (w, s, none)

abbrev follower : ReconcilerImpl Server
follower = record impl { is_leader_for = λ namespace name. false }

not_leader-reconcile_example :
    reconcile
      (record follower {
        patch = λ namespace name p w. (none, err eof);
        reconcile_kind = finalize;
        finalize_kind = none;
      })
      (codes "ns/ctrl")
      (some ([], none))
    ≡ reconcile follower (codes "ns/ctrl") (some ([], none))
not_leader-reconcile_example =
    not_leader-reconcile follower (λ namespace name p w. (none, err eof)) finalize none
      (codes "ns/ctrl") (codes "ns") ctrl (some ([], none)) refl refl

-- A method that empties the cluster.
abbrev wipe : Method Server
wipe s w = (none, s, none)

reconcile_exclusive_example :
    (((secret ([], none)).deletion_timestamp ≡ none)
      × (reconcile (record impl { finalize_kind = some wipe }) (codes "ns/ctrl") (some ([], none))
          ≡ reconcile impl (codes "ns/ctrl") (some ([], none))))
    ⊎ ((t : ℕ) × ((secret ([], none)).deletion_timestamp ≡ some t)
        × (reconcile (record impl { reconcile_kind = wipe }) (codes "ns/ctrl") (some ([], none))
            ≡ reconcile impl (codes "ns/ctrl") (some ([], none))))
reconcile_exclusive_example =
    reconcile_exclusive impl wipe (codes "ns/ctrl") (codes "ns") ctrl (some ([], none))
      (secret ([], none)) refl refl
