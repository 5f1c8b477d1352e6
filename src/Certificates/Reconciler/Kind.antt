-- ===== src/Certificates/Reconciler/Kind.antt =====
-- pkg/certificates/reconciler/certificates.go: `parseAndValidateSecret` and `ReconcileKind`.
use control_protocol.Prelude.{ℕ, Option, none, some, List, [], ◌++◌, if◌then◌else◌}
use control_protocol.Prelude.Equality.{bytes_eq}
use control_protocol.Prelude.Maps.{lookup}
use control_protocol.Errors.{Text, Error, plain, error_text, Result, ok, err, ◌>>=◌}
use control_protocol.Reconciler.TlsDialer.{secret_ca_cert_key, secret_cert_key, secret_pk_key}
use control_protocol.Certificates.{
  Crypto, Certificate, KeyPair, Parsed, complete, failed, create_ca_certs, create_signed_cert,
  parse_cert, validate_cert,
}
use control_protocol.Certificates.Reconciler.{
  ca_expiration_interval, expiration_interval, rotation_threshold, Secret, Reconciler, Found,
  Reconciliation, missing_cert_bytes, missing_pk_bytes, unexpected_sans, same_set, required,
  check_ca, unless, should_reconcile, sans_of, updated_secret, enqueue_before_expiration, no_change,
  cannot_generate_ca, cannot_generate_cert, unknown_cert_type, found, not_found, lister_failed,
}

module _ {Key : Type 0} (crypto : Crypto Key) where
  unfoldable pub validated : List Text → Parsed Key → Result (Certificate × Key)
  unfolding unless
  validated sans (failed cert e) = err e
  validated sans (complete cert pk) =
      unless (validate_cert crypto cert rotation_threshold)
        (if same_set sans cert.dns_names then ok (cert, pk) else err unexpected_sans)

  unfoldable pub parse_and_validate_secret :
      Secret → Option (List ℕ) → List Text → Result (Certificate × Key)
  unfolding check_ca unless
  parse_and_validate_secret secret ca_cert sans = do
    cert_bytes ← required missing_cert_bytes (lookup secret_cert_key secret.data_of)
    pk_bytes ← required missing_pk_bytes (lookup secret_pk_key secret.data_of)
    unless (check_ca ca_cert (lookup secret_ca_cert_key secret.data_of))
        (validated sans (parse_cert crypto cert_bytes pk_bytes))

  module _ (r : Reconciler) (get : Text → Text → Found) (update : Secret → Option Error) where
    -- `commitUpdatedSecret`, and the return of its error.
    unfoldable pub commit : Secret → KeyPair → Option (List ℕ) → Reconciliation
    commit secret key_pair ca_cert =
        let s = updated_secret secret key_pair ca_cert in
        record { updated = some s; due = none; event = update s }

    unfoldable pub renew_ca : Secret → Result KeyPair → Reconciliation
    unfolding commit
    renew_ca ca_secret (err e) = no_change (some (plain (cannot_generate_ca ++ error_text e)))
    renew_ca ca_secret (ok key_pair) = commit ca_secret key_pair none

    -- Behind a commit without an error: the new certificate is parsed, and its end enqueued.
    unfoldable pub enqueue_new : Secret → Parsed Key → Reconciliation
    enqueue_new s (failed cert e) = record { updated = some s; due = none; event = some e }
    enqueue_new s (complete cert pk) = record {
      updated = some s;
      due = some (enqueue_before_expiration cert);
      event = none;
    }

    unfoldable pub renewed : Secret → KeyPair → Option Error → Reconciliation
    unfolding enqueue_new
    renewed s key_pair (some e) = record { updated = some s; due = none; event = some e }
    renewed s key_pair none =
        enqueue_new s (parse_cert crypto key_pair.cert_pem_bytes key_pair.private_key_pem_bytes)

    unfoldable pub renew : Secret → Option (List ℕ) → Result KeyPair → Reconciliation
    unfolding renewed
    renew secret ca_cert (err e) = no_change (some (plain (cannot_generate_cert ++ error_text e)))
    renew secret ca_cert (ok key_pair) =
        let s = updated_secret secret key_pair ca_cert in renewed s key_pair (update s)

    -- The secret, once the CA's certificate and key are at hand.
    unfoldable pub reconcile_signed :
        Secret
        → Option (List ℕ)
        → Certificate × Key
        → List Text
        → Result (Certificate × Key)
        → Reconciliation
    unfolding renew
    reconcile_signed secret ca_cert (cert, pk) sans (ok valid) = record {
      updated = none;
      due = some (enqueue_before_expiration valid.0);
      event = none;
    }
    reconcile_signed secret ca_cert (cert, pk) sans (err e) =
        renew secret ca_cert (create_signed_cert crypto pk cert expiration_interval sans)

    unfoldable pub reconcile_typed :
        Secret → Option (List ℕ) → Certificate × Key → Option (List Text) → Reconciliation
    unfolding reconcile_signed
    reconcile_typed secret ca_cert ca none =
        no_change (some (unknown_cert_type r.secret_type_label_name))
    reconcile_typed secret ca_cert ca (some sans) =
        reconcile_signed secret ca_cert ca sans (parse_and_validate_secret secret ca_cert sans)

    unfoldable pub reconcile_ca : Secret → Secret → Result (Certificate × Key) → Reconciliation
    unfolding renew_ca reconcile_typed
    reconcile_ca secret ca_secret (err e) =
        renew_ca ca_secret (create_ca_certs crypto ca_expiration_interval)
    reconcile_ca secret ca_secret (ok ca) =
        reconcile_typed secret (lookup secret_cert_key ca_secret.data_of) ca
          (sans_of secret (lookup r.secret_type_label_name secret.labels))

    unfoldable pub reconcile_found : Secret → Found → Reconciliation
    unfolding reconcile_ca
    reconcile_found secret not_found = no_change none
    reconcile_found secret (lister_failed e) = no_change (some e)
    reconcile_found secret (found ca_secret) =
        reconcile_ca secret ca_secret (parse_and_validate_secret ca_secret none [])

    unfoldable pub reconcile_kind : Secret → Reconciliation
    unfolding reconcile_found
    reconcile_kind secret =
        if should_reconcile r secret
        then reconcile_found secret (get r.system_namespace r.ca_secret_name)
        else no_change none
