-- ===== src/Certificates/Reconciler.antt =====
-- pkg/certificates/reconciler/certificates.go and the names of controller.go: the reconciler that
-- keeps the CA's secret and the secrets that it signs valid. The lister, the API client and the
-- crypto libraries are parameters; the clock is read once for a call, and times are nanoseconds.
pub mod Kind
pub mod Renewal
pub mod Rotation
pub mod Cluster
use control_protocol.Prelude.{
  ℕ, ◌+◌, ◌-◌, ◌*◌, Bool, true, false, ◌&&◌, not, Option, none, some, List, [], ◌∷◌, ◌++◌,
  if◌then◌else◌, codes,
}
use control_protocol.Prelude.Equality.{◌==◌, bytes_eq}
use control_protocol.Prelude.Maps.{Map, empty, lookup, insert, contains, is_some}
use control_protocol.Errors.{Text, Error, plain, error_text, Result, ok, err, ◌>>=◌}
use control_protocol.Reconciler.TlsDialer.{secret_ca_cert_key, secret_cert_key, secret_pk_key}
use control_protocol.Certificates.{
  Crypto, Certificate, KeyPair, Parsed, complete, failed, legacy_fake_dns_name,
  data_plane_routing_name, data_plane_user_name, create_ca_certs, create_signed_cert, parse_cert,
  validate_cert,
}

abbrev pub second : ℕ
second = 1_000_000_000

abbrev pub hour : ℕ
hour = 3600 * second

abbrev pub ca_expiration_interval : ℕ
ca_expiration_interval = hour * 24 * 365 * 10

abbrev pub expiration_interval : ℕ
expiration_interval = hour * 24 * 30

abbrev pub rotation_threshold : ℕ
rotation_threshold = 24 * hour

abbrev pub control_plane_secret_type : Text
control_plane_secret_type = codes "control-plane"

abbrev pub data_plane_routing_secret_type : Text
data_plane_routing_secret_type = codes "data-plane-routing"

abbrev pub data_plane_user_secret_type : Text
data_plane_user_secret_type = codes "data-plane-user"

abbrev pub data_plane_deprecated_secret_type : Text
data_plane_deprecated_secret_type = codes "data-plane"

abbrev pub control_plane_name : Text
control_plane_name = codes "kn-control"

abbrev pub secret_routing_id : Text
secret_routing_id = codes "routing-id"

-- The other names of the entries, which cert-manager has.
abbrev pub cert_name : Text
cert_name = codes "tls.crt"

abbrev pub private_key_name : Text
private_key_name = codes "tls.key"

abbrev pub ca_cert_name : Text
ca_cert_name = codes "ca.crt"

-- `corev1.Secret`, in what the code reads and writes.
pub record Secret : Type 0 where
  pub namespace : Text
  pub name : Text
  pub labels : Map Text Text
  pub data_of : Map Text (List ℕ)
  pub finalizers : List Text
  pub deletion_timestamp : Option ℕ  -- `none` stands for the zero time, too
  pub resource_version : Text

-- The reconciler's own fields, and `system.Namespace()`.
pub record Reconciler : Type 0 where
  pub ca_secret_name : Text
  pub secret_type_label_name : Text
  pub system_namespace : Text

-- `NewControllerFactory`, where it names the CA's secret and the label.
unfoldable pub new_reconciler : Text → Text → Reconciler
new_reconciler component_name system_namespace = record {
  ca_secret_name = component_name ++ codes "-ctrl-ca";
  secret_type_label_name = component_name ++ codes "-ctrl";
  system_namespace = system_namespace;
}

-- What the lister returns; `apierrors.IsNotFound` tells the second case.
pub data Found : Type 0 where
  found : Secret → Found
  not_found : Found
  lister_failed : Error → Found

-- What a call of `ReconcileKind` does: the secret that it gives to `Update`, the instant at which it
-- has the key enqueued again, and what it returns.
pub record Reconciliation : Type 0 where
  pub updated : Option Secret
  pub due : Option ℕ
  pub event : Option Error

abbrev pub missing_cert_bytes : Error
missing_cert_bytes = plain (codes "missing cert bytes")

abbrev pub missing_pk_bytes : Error
missing_pk_bytes = plain (codes "missing pk bytes")

abbrev pub missing_ca_cert_bytes : Error
missing_ca_cert_bytes = plain (codes "missing ca cert bytes")

abbrev pub ca_cert_bytes_changed : Error
ca_cert_bytes_changed = plain (codes "ca cert bytes changed")

abbrev pub unexpected_sans : Error
unexpected_sans = plain (codes "unexpected SANs")

abbrev pub contains_all : List Text → List Text → Bool
contains_all [] names = true
contains_all (x ∷ xs) names = contains x names && contains_all xs names

-- `sets.String.Equal` of the sets of two lists.
abbrev pub same_set : List Text → List Text → Bool
same_set xs ys = contains_all xs ys && contains_all ys xs

abbrev pub required : {A : Type 0} → Error → Option A → Result A
required e none = err e
required e (some a) = ok a

-- `caCert != nil`, and then the CA's certificate in the secret.
check_ca : Option (List ℕ) → Option (List ℕ) → Option Error
check_ca none ca = none
check_ca (some ca_cert) none = some missing_ca_cert_bytes
check_ca (some ca_cert) (some ca) = if ca == ca_cert then none else some ca_cert_bytes_changed

unless : {A : Type 0} → Option Error → Result A → Result A
unless (some e) r = err e
unless none r = r

unfoldable pub should_reconcile : Reconciler → Secret → Bool
should_reconcile r secret =
    if secret.name == r.ca_secret_name && secret.namespace == r.system_namespace
    then false
    else is_some (lookup r.secret_type_label_name secret.labels)

abbrev pub routing_id : Option Text → Text
routing_id none = []
routing_id (some id) = id

-- The SANs for the type of a secret, of which a missing label reads as "".
unfoldable pub sans_of : Secret → Option Text → Option (List Text)
sans_of secret none = none
sans_of secret (some kind) =
    if kind == control_plane_secret_type
    then some (control_plane_name ∷ legacy_fake_dns_name ∷ [])
    else if kind == data_plane_routing_secret_type
    then some (
        data_plane_routing_name (routing_id (lookup secret_routing_id secret.labels))
        ∷ legacy_fake_dns_name
        ∷ [])
    else if kind == data_plane_user_secret_type
    then some (data_plane_user_name secret.namespace ∷ legacy_fake_dns_name ∷ [])
    else if kind == data_plane_deprecated_secret_type
    then some (legacy_fake_dns_name ∷ [])
    else none

abbrev pub with_ca : Option (List ℕ) → Map Text (List ℕ) → Map Text (List ℕ)
with_ca none data_of = data_of
with_ca (some ca_cert) data_of =
    insert ca_cert_name ca_cert (insert secret_ca_cert_key ca_cert data_of)

-- The secret that `commitUpdatedSecret` gives to `Update`: a copy with new data.
unfoldable pub updated_secret : Secret → KeyPair → Option (List ℕ) → Secret
updated_secret secret key_pair ca_cert = record secret {
  data_of = with_ca ca_cert (
      insert secret_pk_key key_pair.private_key_pem_bytes (
        insert secret_cert_key key_pair.cert_pem_bytes (
          insert private_key_name key_pair.private_key_pem_bytes
            (insert cert_name key_pair.cert_pem_bytes empty))));
}

-- `when` of `enqueueBeforeExpiration`. Times are counted from more than a day before any of them.
unfoldable pub enqueue_before_expiration : Certificate → ℕ
enqueue_before_expiration cert = cert.not_after + second - rotation_threshold

abbrev pub no_change : Option Error → Reconciliation
no_change event = record { updated = none; due = none; event = event }

abbrev pub cannot_generate_ca : Text
cannot_generate_ca = codes "cannot generate the CA cert: "

abbrev pub cannot_generate_cert : Text
cannot_generate_cert = codes "cannot generate the cert: "

abbrev pub unknown_cert_type : Text → Error
unknown_cert_type label = plain (codes "unknown cert type: " ++ label)
