-- ===== src/Certificates/Controller/Settling.antt =====
-- pkg/certificates/reconciler: the controller's reconciler around that of the certificates, which is
-- no `Finalizer`, observes nothing and leaves the secret that it is given as it is.
use control_protocol.Prelude.{
  ℕ, ◌≡◌, refl, sym, ap, subst, ◌∙◌, true, Option, none, some, List, [], ◌∷◌, ◌++◌, arith, inl, inr,
  Option-cases,
}
use control_protocol.Prelude.Equality.{bytes_eq}
use control_protocol.Prelude.Maps.{lookup, map_option}
use control_protocol.Errors.{Text, ok}
use control_protocol.Reconciler.TlsDialer.{secret_cert_key}
use control_protocol.Certificates.{Crypto, Certificate}
use control_protocol.Certificates.Created.{HasInverses}
use control_protocol.Certificates.Reconciler.{
  Secret, Reconciler, Reconciliation, should_reconcile, sans_of,
}
use control_protocol.Certificates.Reconciler.Kind.{parse_and_validate_secret}
use control_protocol.Certificates.Reconciler.Renewal.{SignsTemplates}
use control_protocol.Certificates.Reconciler.Rotation.{stored, IsSettled, reconcile_kind-IsSettled}
use control_protocol.Certificates.Reconciler.Cluster.{
  Cluster, secret_at, lister, written, reconcile, reconciled, reconcile_twice, lister-found,
}
use control_protocol.Certificates.Controller.{
  error_event, ReconcilerEvent, Method, ReconcilerImpl, set_finalizer_if_finalizer, set_finalizer,
}
use control_protocol.Certificates.Controller.Reconcile
use control_protocol.Certificates.Controller.Reconcile.{
  State, reconcile_state, reconcile_found, run_method, reconcile_method_for, method_for, new_state,
  reconcile_resource, report, reported,
}

-- The cluster, what `EnqueueKeyAfter` was given, as instants, and the events that were recorded.
pub record World : Type 0 where
  pub cluster : Cluster
  pub enqueued : List (Text × Text × ℕ)
  pub events : List ReconcilerEvent

abbrev pub enqueue : Secret → Option ℕ → World → World
enqueue s none w = w
enqueue s (some due) w = record w { enqueued = w.enqueued ++ (s.namespace, s.name, due) ∷ [] }

enqueue-cluster : (s : Secret) (due : Option ℕ) (w : World) → (enqueue s due w).cluster ≡ w.cluster
enqueue-cluster s none w = refl
enqueue-cluster s (some due) w = refl

enqueue-events : (s : Secret) (due : Option ℕ) (w : World) → (enqueue s due w).events ≡ w.events
enqueue-events s none w = refl
enqueue-events s (some due) w = refl

module _ {Key : Type 0} (crypto : Crypto Key) (r : Reconciler) where
  abbrev pub after : Secret → Reconciliation → World → World
  after s o w = enqueue s o.due (record w { cluster = written w.cluster o.updated })

  -- `ReconcileKind` of the certificates.
  abbrev pub certificates_kind : Method World
  certificates_kind s w =
      let o = reconcile crypto r w.cluster s in (after s o w, s, map_option error_event o.event)

  -- `NewFilteredImpl` with the reconciler of the certificates, over the rest of a reconciler.
  abbrev pub around : ReconcilerImpl World → ReconcilerImpl World
  around impl = record impl {
    get = λ w namespace name. lister w.cluster namespace name;
    record_event = λ s type reason text w. record w {
      events = w.events ++ record { event_type = type; reason = reason; text = text } ∷ [];
    };
    reconcile_kind = certificates_kind;
    finalize_kind = none;
    observe_kind = none;
    observe_deletion = none;
  }

  module _ (impl : ReconcilerImpl World) where
    leader_reconcile :
        (key : Text) (w : World) (secret : Secret)
        → impl.split_key key ≡ ok (secret.namespace, secret.name)
        → impl.is_leader_for secret.namespace secret.name ≡ true
        → secret_at w.cluster secret.namespace secret.name ≡ some secret
        → secret.deletion_timestamp ≡ none
        → Reconcile.reconcile (around impl) key w
          ≡ report (around impl) (certificates_kind secret w)
    unfolding reconcile_state reconcile_found run_method reconcile_method_for method_for new_state
        reconcile_resource set_finalizer_if_finalizer set_finalizer Reconcile.reconcile
    leader_reconcile key w secret k l at alive = ground (arith, k, l, at, alive)

    quiet :
        (secret : Secret) (o : Reconciliation) (w : World)
        → (report (around impl) (after secret o w, secret, map_option error_event o.event)).1 ≡ none
        → (o.event ≡ none)
          × (report (around impl) (after secret o w, secret, map_option error_event o.event)
              ≡ (after secret o w, none))
    unfolding report reported
    quiet secret o w h = elim (Option-cases o.event) [
      | inl none_left ↦ ground (arith, none_left)
      | inr (e, failed) ↦ absurd (ground (arith, h, failed))
    ]

    -- The second `Reconcile`, on a cluster `c` where the reconciler of the certificates has nothing to write.
    leader_again :
        (key : Text) (w : World) (c : Cluster) (secret : Secret) (due : Option ℕ)
        → w.cluster ≡ c
        → impl.split_key key ≡ ok (secret.namespace, secret.name)
        → impl.is_leader_for secret.namespace secret.name ≡ true
        → secret_at c secret.namespace secret.name ≡ some secret
        → secret.deletion_timestamp ≡ none
        → reconcile crypto r c secret ≡ record { updated = none; due = due; event = none }
        → Reconcile.reconcile (around impl) key w ≡ (enqueue secret due w, none)
    unfolding report
    leader_again key w c secret due same k l at alive nothing =
        leader_reconcile key w secret k l
          (ap (λ c. secret_at c secret.namespace secret.name) same ∙ at) alive
        ∙ ap (λ o. report (around impl) (after secret o w, secret, map_option error_event o.event))
            (ap (λ c. reconcile crypto r c secret) same ∙ nothing)

    -- Where the lister reads the cluster: a `Reconcile` by the leader that returns no error, for a live
    -- secret of a known type and with a valid CA, leaves the secret settled in the cluster. The next one at the same time changes nothing there,
    -- records no event, returns no error, and has the key enqueued for the same instant.
    pub reconcile-settles :
        (key : Text) (w : World) (secret ca_secret : Secret) (ca : Certificate × Key)
        (sans : List Text)
        → HasInverses crypto
        → SignsTemplates crypto
        → impl.split_key key ≡ ok (secret.namespace, secret.name)
        → impl.is_leader_for secret.namespace secret.name ≡ true
        → secret_at w.cluster secret.namespace secret.name ≡ some secret
        → secret.deletion_timestamp ≡ none
        → should_reconcile r secret ≡ true
        → secret_at w.cluster r.system_namespace r.ca_secret_name ≡ some ca_secret
        → parse_and_validate_secret crypto ca_secret none [] ≡ ok ca
        → sans_of secret (lookup r.secret_type_label_name secret.labels) ≡ some sans
        → (Reconcile.reconcile (around impl) key w).1 ≡ none
        → let o = reconcile crypto r w.cluster secret in
          let w' = (Reconcile.reconcile (around impl) key w).0 in
          IsSettled crypto secret (lookup secret_cert_key ca_secret.data_of) sans o
          × (secret_at w'.cluster secret.namespace secret.name ≡ some (stored secret o))
          × (w'.events ≡ w.events)
          × (Reconcile.reconcile (around impl) key w' ≡ (enqueue (stored secret o) o.due w', none))
    reconcile-settles key w secret ca_secret ca sans inv signs k l at alive should ca_at ca_valid
          known done =
        let o = reconcile crypto r w.cluster secret in
        let run = leader_reconcile key w secret k l at alive in
        let (no_error, end) = quiet secret o w (ap (λ x. x.1) (sym run) ∙ done) in
        let now : (Reconcile.reconcile (around impl) key w).0 ≡ after secret o w =
          ap (λ x. x.0) (run ∙ end) in
        let settled : IsSettled crypto secret (lookup secret_cert_key ca_secret.data_of) sans o =
          reconcile_kind-IsSettled crypto r (lister w.cluster) (λ s. none) inv signs secret
            ca_secret ca sans should
            (lister-found crypto r w.cluster r.system_namespace r.ca_secret_name ca_secret ca_at)
            ca_valid known no_error in
        let (kept, again) =
          reconcile_twice crypto r w.cluster secret ca_secret ca sans inv signs at should ca_at
            ca_valid known no_error in
        let w1 = after secret o w in
        let s = stored secret o in
        let cluster : w1.cluster ≡ reconciled crypto r w.cluster secret =
          enqueue-cluster secret o.due (record w { cluster = written w.cluster o.updated }) in
        let place : ◌≡◌ {A = Text × Text} (secret.namespace, secret.name) (s.namespace, s.name) =
          sym (λ i. (settled.same_namespace i, settled.same_name i)) in
        let second : Reconcile.reconcile (around impl) key w1 ≡ (enqueue s o.due w1, none) =
          leader_again key w1 (reconciled crypto r w.cluster secret) s o.due cluster
            (k ∙ ap ok place) (subst (λ p. impl.is_leader_for p.0 p.1 ≡ true) place l)
            (subst (λ p. secret_at (reconciled crypto r w.cluster secret) p.0 p.1 ≡ some s) place
              kept)
            (settled.same_deletion ∙ alive) again in
        (
          settled,
          ap (λ w. secret_at w.cluster secret.namespace secret.name) now
              ∙ ap (λ c. secret_at c secret.namespace secret.name) cluster
              ∙ kept,
          ap (λ w. w.events) now
              ∙ enqueue-events secret o.due (record w { cluster = written w.cluster o.updated }),
          subst (λ w'. Reconcile.reconcile (around impl) key w' ≡ (enqueue s o.due w', none))
              (sym now) second,
        )
