-- ===== src/Certificates/Reconciler/Cluster.antt =====
-- Calls of `ReconcileKind` one behind the other, on a cluster whose updates all succeed. The lister
-- reads what was written before.
use control_protocol.Prelude.{
  ◌≡◌, sym, ap, ap₂, ◌∙◌, true, false, ◌&&◌, Option, none, some, List, [], arith, if◌then◌else◌,
}
use control_protocol.Prelude.Equality.{◌==◌, ==_refl, bytes_eq, bytes_equal_iff}
use control_protocol.Prelude.Maps.{lookup, insert}
use control_protocol.Errors.{Text, ok}
use control_protocol.Reconciler.Nested.{Nested, inner_or_new, get_in, get_in-insert_in}
use control_protocol.Reconciler.TlsDialer.{secret_cert_key}
use control_protocol.Certificates.{Crypto, Certificate}
use control_protocol.Certificates.Created.{HasInverses}
use control_protocol.Certificates.Reconciler.{
  Secret, Reconciler, Found, found, not_found, Reconciliation, should_reconcile, sans_of,
}
use control_protocol.Certificates.Reconciler.Kind.{
  parse_and_validate_secret, reconcile_signed, reconcile_kind,
}
use control_protocol.Certificates.Reconciler.Renewal.{SignsTemplates}
use control_protocol.Certificates.Reconciler.Rotation.{
  latest, stored, reconcile_kind-signed, reconcile_kind-IsSettled,
}

abbrev pub Cluster : Type 0
Cluster = Nested Text Text Secret

abbrev pub secret_at : Cluster → Text → Text → Option Secret
secret_at c namespace name = get_in c namespace name

abbrev pub lister : Cluster → Text → Text → Found
lister c namespace name = elim (secret_at c namespace name) [ none ↦ not_found | some s ↦ found s ]

abbrev pub written : Cluster → Option Secret → Cluster
written c none = c
written c (some s) = insert s.namespace (insert s.name s (inner_or_new (lookup s.namespace c))) c

module _ {Key : Type 0} (crypto : Crypto Key) (r : Reconciler) where
  -- `ReconcileKind` for a secret of the cluster.
  abbrev pub reconcile : Cluster → Secret → Reconciliation
  reconcile c secret = reconcile_kind crypto r (lister c) (λ s. none) secret

  -- The cluster behind it.
  abbrev pub reconciled : Cluster → Secret → Cluster
  reconciled c secret = written c (reconcile c secret).updated

  sans_of-same :
      (s t : Secret) (kind : Option Text)
      → s.namespace ≡ t.namespace
      → s.labels ≡ t.labels
      → sans_of s kind ≡ sans_of t kind
  unfolding sans_of
  sans_of-same s t kind n l =
      ap₂ (λ namespace labels. sans_of (record s { namespace = namespace; labels = labels }) kind) n
        l

  should_reconcile-same :
      (s t : Secret)
      → s.namespace ≡ t.namespace
      → s.name ≡ t.name
      → s.labels ≡ t.labels
      → should_reconcile r s ≡ should_reconcile r t
  unfolding should_reconcile
  should_reconcile-same s t n m l =
      ap₂
        (λ (p : Text × Text) labels.
          should_reconcile r (record s { namespace = p.0; name = p.1; labels = labels }))
        (ap₂ (λ a b. (a, b)) n m) l

  -- The CA's secret is not one that is reconciled.
  should_reconcile-other :
      (s : Secret)
      → should_reconcile r s ≡ true
      → (s.namespace == r.system_namespace && s.name == r.ca_secret_name) ≡ false
  unfolding should_reconcile
  should_reconcile-other s h = ground (arith, h)

  pub lister-found :
      (c : Cluster) (namespace name : Text) (s : Secret)
      → secret_at c namespace name ≡ some s
      → lister c namespace name ≡ found s
  lister-found c namespace name s h = ground (arith, h)

  -- What `Update` leaves in the cluster.
  latest-written :
      (c : Cluster) (secret : Secret) (u : Option Secret) (namespace name : Text)
      → secret_at c secret.namespace secret.name ≡ some secret
      → (latest secret u).namespace ≡ secret.namespace
      → (latest secret u).name ≡ secret.name
      → secret_at (written c u) namespace name ≡ (
          if secret.namespace == namespace && secret.name == name
          then some (latest secret u)
          else secret_at c namespace name)
  latest-written c secret none namespace name there n m = ground (
    arith,
    there,
    ap (secret_at c namespace) ((bytes_equal_iff secret.name name).0 _),
    bytes_equal_iff secret.namespace namespace,
    bytes_equal_iff secret.name name,
  )
  latest-written c secret (some s) namespace name there n m =
      get_in-insert_in c s.namespace namespace s.name name s
      ∙ ground (arith, ap (λ a. a == namespace) n, ap (λ a. a == name) m)

  -- Behind a call that succeeds, with a valid CA and a secret of a known type: a second call that is
  -- given the secret that the first one left, at the same time and with a lister that reads the
  -- cluster, writes nothing and enqueues the key for the same instant.
  pub reconcile_twice :
      (c : Cluster) (secret ca_secret : Secret) (ca : Certificate × Key) (sans : List Text)
      → HasInverses crypto
      → SignsTemplates crypto
      → secret_at c secret.namespace secret.name ≡ some secret
      → should_reconcile r secret ≡ true
      → secret_at c r.system_namespace r.ca_secret_name ≡ some ca_secret
      → parse_and_validate_secret crypto ca_secret none [] ≡ ok ca
      → sans_of secret (lookup r.secret_type_label_name secret.labels) ≡ some sans
      → (reconcile c secret).event ≡ none
      → let s = stored secret (reconcile c secret) in
        (secret_at (reconciled c secret) secret.namespace secret.name ≡ some s)
        × (reconcile (reconciled c secret) s
            ≡ record { updated = none; due = (reconcile c secret).due; event = none })
  unfolding reconcile_signed
  reconcile_twice c secret ca_secret ca sans inv signs there should ca_there ca_valid known done =
      let o = reconcile c secret in
      let settled =
        reconcile_kind-IsSettled crypto r (lister c) (λ s. none) inv signs secret ca_secret ca sans
          should (lister-found c r.system_namespace r.ca_secret_name ca_secret ca_there) ca_valid
          known done in
      let s = stored secret o in
      let at = λ (ns : Text) (n : Text).
        latest-written c secret o.updated ns n there settled.same_namespace settled.same_name in
      let ca_there' : secret_at (reconciled c secret) r.system_namespace r.ca_secret_name
          ≡ some ca_secret =
        at r.system_namespace r.ca_secret_name
        ∙ ground (arith, should_reconcile-other secret should, ca_there) in
      (
        at secret.namespace secret.name
            ∙ ground (arith, ==_refl secret.namespace, ==_refl secret.name),
        reconcile_kind-signed crypto r (lister (reconciled c secret)) (λ s. none) inv signs s
              ca_secret ca sans
              (should_reconcile-same s secret settled.same_namespace settled.same_name
                  settled.same_labels
                ∙ should)
              (lister-found (reconciled c secret) r.system_namespace r.ca_secret_name ca_secret
                ca_there')
              ca_valid
              (ap (λ labels. sans_of s (lookup r.secret_type_label_name labels)) settled.same_labels
                ∙ sans_of-same s secret _ settled.same_namespace settled.same_labels
                ∙ known)
            ∙ ap
                (reconcile_signed crypto r (lister (reconciled c secret)) (λ s. none) s
                  (lookup secret_cert_key ca_secret.data_of) ca sans)
                settled.valid
            ∙ ap (λ due. record { updated = none; due = due; event = none })
                (sym settled.due_before_end),
      )
