-- ===== src/Certificates/Reconciler/Rotation.antt =====
-- pkg/certificates/reconciler/certificates.go: what a call of `ReconcileKind` leaves behind, and when
-- it has itself called again.
use control_protocol.Prelude.{
  ℕ, ◌+◌, ◌<◌, ◌≡◌, ◌↔◌, refl, sym, ap, subst, ◌∙◌, true, Option, none, some, List, [], arith,
}
use control_protocol.Prelude.Equality.{bytes_eq}
use control_protocol.Prelude.Maps.{lookup}
use control_protocol.Errors.{Text, Error, Result, ok, err}
use control_protocol.Reconciler.TlsDialer.{secret_cert_key}
use control_protocol.Certificates.{
  Crypto, Certificate, KeyPair, create_ca_certs, create_signed_cert, parse, validate_cert,
}
use control_protocol.Certificates.Created.{HasInverses}
use control_protocol.Certificates.Reconciler.{
  second, rotation_threshold, expiration_interval, ca_expiration_interval, Secret, Reconciler,
  Found, found, Reconciliation, updated_secret, enqueue_before_expiration, should_reconcile,
  sans_of,
}
use control_protocol.Certificates.Reconciler.Kind.{
  parse_and_validate_secret, commit, renew_ca, enqueue_new, renewed, renew, reconcile_signed,
  reconcile_typed, reconcile_ca, reconcile_found, reconcile_kind,
}
use control_protocol.Certificates.Reconciler.Renewal.{
  SignsTemplates, IsSigned, create_signed_cert-IsSigned, create_ca_certs-IsSigned,
  parse-updated_secret,
}

-- The secret in the cluster behind a call for `secret` itself.
abbrev pub latest : Secret → Option Secret → Secret
latest secret none = secret
latest secret (some s) = s

abbrev pub stored : Secret → Reconciliation → Secret
stored secret o = latest secret o.updated

module _ {Key : Type 0} (crypto : Crypto Key) where
  -- The instant for which a certificate is enqueued is exactly the one that is a second past its last
  -- valid one: `ValidateCert` accepts the certificate as long as the clock is more than a second
  -- short of it.
  pub validate_cert-enqueue_before_expiration :
      (cert : Certificate)
      → (validate_cert crypto cert rotation_threshold ≡ none)
        ↔ (crypto.now + second < enqueue_before_expiration cert)
  unfolding validate_cert enqueue_before_expiration
  validate_cert-enqueue_before_expiration cert = (λ h. ground (arith, h), λ h. ground (arith, h))

  -- What a call leaves for a secret with some names and the CA's certificate.
  pub record IsSettled (secret : Secret) (ca_cert : Option (List ℕ)) (sans : List Text)
      (o : Reconciliation) : Type 0 where
    pub cert : Certificate
    pub key : Key
    pub valid : parse_and_validate_secret crypto (stored secret o) ca_cert sans ≡ ok (cert, key)
    pub due_before_end : o.due ≡ some (enqueue_before_expiration cert)
    pub same_namespace : (stored secret o).namespace ≡ secret.namespace
    pub same_name : (stored secret o).name ≡ secret.name
    pub same_labels : (stored secret o).labels ≡ secret.labels
    pub same_deletion : (stored secret o).deletion_timestamp ≡ secret.deletion_timestamp

  -- What a call leaves of an invalid CA secret.
  pub record HasRenewed (ca_secret : Secret) (o : Reconciliation) : Type 0 where
    pub ca_now : Secret
    pub ca : Certificate × Key
    pub written : o.updated ≡ some ca_now
    pub valid : parse_and_validate_secret crypto ca_now none [] ≡ ok ca
    pub not_enqueued : o.due ≡ none
    pub same_ca_namespace : ca_now.namespace ≡ ca_secret.namespace
    pub same_ca_name : ca_now.name ≡ ca_secret.name

  module _ (r : Reconciler) (get : Text → Text → Found) (update : Secret → Option Error)
      (inv : HasInverses crypto) (signs : SignsTemplates crypto) where
    renewed-IsSettled :
        (secret : Secret) (ca_cert : Option (List ℕ)) (sans : List Text) (kp : KeyPair)
        (u : Option Error)
        → IsSigned crypto expiration_interval sans kp
        → (renewed crypto r get update (updated_secret secret kp ca_cert) kp u).event ≡ none
        → IsSettled secret ca_cert sans
            (renewed crypto r get update (updated_secret secret kp ca_cert) kp u)
    unfolding renewed enqueue_new updated_secret parse
    renewed-IsSettled secret ca_cert sans kp (some e) s h = absurd (ground (arith, h))
    renewed-IsSettled secret ca_cert sans kp none s h =
        subst
          (λ p.
            IsSettled secret ca_cert sans
              (enqueue_new crypto r get update (updated_secret secret kp ca_cert) p))
          (sym s.parse_back)
          (record {
            cert = s.cert;
            key = s.key;
            valid =
                parse-updated_secret crypto expiration_interval sans kp s secret ca_cert
                  (omega arith);
            due_before_end = refl;
            same_namespace = refl;
            same_name = refl;
            same_labels = refl;
            same_deletion = refl;
          })

    signed-IsSettled :
        (secret : Secret) (ca_cert : Option (List ℕ)) (ca : Certificate × Key) (sans : List Text)
        (v : Result (Certificate × Key))
        → parse_and_validate_secret crypto secret ca_cert sans ≡ v
        → (reconcile_signed crypto r get update secret ca_cert ca sans v).event ≡ none
        → IsSettled secret ca_cert sans
            (reconcile_signed crypto r get update secret ca_cert ca sans v)
    unfolding reconcile_signed renew
    signed-IsSettled secret ca_cert (ca, pk) sans (ok (cert, key)) e h = record {
      cert = cert;
      key = key;
      valid = e;
      due_before_end = refl;
      same_namespace = refl;
      same_name = refl;
      same_labels = refl;
      same_deletion = refl;
    }
    signed-IsSettled secret ca_cert (ca, pk) sans (err f) e h =
        made (create_signed_cert crypto pk ca expiration_interval sans) refl h
      where
        made :
            (k : Result KeyPair)
            → create_signed_cert crypto pk ca expiration_interval sans ≡ k
            → (renew crypto r get update secret ca_cert k).event ≡ none
            → IsSettled secret ca_cert sans (renew crypto r get update secret ca_cert k)
        made (err f) e h = absurd (ground (arith, h))
        made (ok kp) e h =
            renewed-IsSettled secret ca_cert sans kp (update (updated_secret secret kp ca_cert))
              (create_signed_cert-IsSigned crypto pk ca expiration_interval sans kp inv signs e) h

    pub reconcile_kind-signed :
        (secret ca_secret : Secret) (ca : Certificate × Key) (sans : List Text)
        → should_reconcile r secret ≡ true
        → get r.system_namespace r.ca_secret_name ≡ found ca_secret
        → parse_and_validate_secret crypto ca_secret none [] ≡ ok ca
        → sans_of secret (lookup r.secret_type_label_name secret.labels) ≡ some sans
        → reconcile_kind crypto r get update secret
          ≡ reconcile_signed crypto r get update secret
              (lookup secret_cert_key ca_secret.data_of)
              ca
              sans
              (parse_and_validate_secret crypto secret
                (lookup secret_cert_key ca_secret.data_of)
                sans)
    unfolding reconcile_kind reconcile_found reconcile_ca reconcile_typed
    reconcile_kind-signed secret ca_secret ca sans should there ca_valid known =
        rw (should, there, reconcile_found, ca_valid, reconcile_ca, known, reconcile_typed) refl

    -- With a valid CA, a call of `ReconcileKind` that returns no error for a secret of a known type
    -- leaves that secret valid under the CA and for the names of its type, under its old name, and
    -- has the key enqueued for the instant one second behind the one that is a day before the end of
    -- the certificate then in the secret.
    pub reconcile_kind-IsSettled :
        (secret ca_secret : Secret) (ca : Certificate × Key) (sans : List Text)
        → should_reconcile r secret ≡ true
        → get r.system_namespace r.ca_secret_name ≡ found ca_secret
        → parse_and_validate_secret crypto ca_secret none [] ≡ ok ca
        → sans_of secret (lookup r.secret_type_label_name secret.labels) ≡ some sans
        → (reconcile_kind crypto r get update secret).event ≡ none
        → IsSettled secret
            (lookup secret_cert_key ca_secret.data_of)
            sans
            (reconcile_kind crypto r get update secret)
    reconcile_kind-IsSettled secret ca_secret ca sans should there ca_valid known h =
        let ca_cert = lookup secret_cert_key ca_secret.data_of in
        let v = parse_and_validate_secret crypto secret ca_cert sans in
        let run = reconcile_kind-signed secret ca_secret ca sans should there ca_valid known in
        subst (IsSettled secret ca_cert sans) (sym run)
          (signed-IsSettled secret ca_cert ca sans v refl (ap (λ o. o.event) (sym run) ∙ h))

    renew_ca-HasRenewed :
        (ca_secret : Secret) (k : Result KeyPair)
        → create_ca_certs crypto ca_expiration_interval ≡ k
        → (renew_ca crypto r get update ca_secret k).event ≡ none
        → HasRenewed ca_secret (renew_ca crypto r get update ca_secret k)
    unfolding renew_ca commit updated_secret
    renew_ca-HasRenewed ca_secret (err f) e h = absurd (ground (arith, h))
    renew_ca-HasRenewed ca_secret (ok kp) e h =
        let s = create_ca_certs-IsSigned crypto ca_expiration_interval kp inv signs e in
        record {
          ca_now = updated_secret ca_secret kp none;
          ca = (s.cert, s.key);
          written = refl;
          valid =
              parse-updated_secret crypto ca_expiration_interval [] kp s ca_secret none
                (omega arith);
          not_enqueued = refl;
          same_ca_namespace = refl;
          same_ca_name = refl;
        }

    reconcile_kind-renew_ca :
        (secret ca_secret : Secret) (e : Error)
        → should_reconcile r secret ≡ true
        → get r.system_namespace r.ca_secret_name ≡ found ca_secret
        → parse_and_validate_secret crypto ca_secret none [] ≡ err e
        → reconcile_kind crypto r get update secret
          ≡ renew_ca crypto r get update ca_secret (create_ca_certs crypto ca_expiration_interval)
    unfolding reconcile_kind reconcile_found reconcile_ca
    reconcile_kind-renew_ca secret ca_secret e should there invalid =
        rw (should, there, reconcile_found, invalid, reconcile_ca) refl

    -- With an invalid CA secret, a call of `ReconcileKind` that returns no error writes that secret
    -- and no other, and leaves it valid.
    pub reconcile_kind-HasRenewed :
        (secret ca_secret : Secret) (e : Error)
        → should_reconcile r secret ≡ true
        → get r.system_namespace r.ca_secret_name ≡ found ca_secret
        → parse_and_validate_secret crypto ca_secret none [] ≡ err e
        → (reconcile_kind crypto r get update secret).event ≡ none
        → HasRenewed ca_secret (reconcile_kind crypto r get update secret)
    reconcile_kind-HasRenewed secret ca_secret e should there invalid h =
        let k = create_ca_certs crypto ca_expiration_interval in
        let run = reconcile_kind-renew_ca secret ca_secret e should there invalid in
        subst (HasRenewed ca_secret) (sym run)
          (renew_ca-HasRenewed ca_secret k refl (ap (λ o. o.event) (sym run) ∙ h))
