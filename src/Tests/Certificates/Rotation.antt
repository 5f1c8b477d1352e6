-- ===== src/Tests/Certificates/Rotation.antt =====
-- pkg/certificates/reconciler, over libraries that sign the names of the CA and of the deprecated type.
use control_protocol.Prelude.{
  ℕ, zero, suc, sym, ◌∙◌, ◌+◌, ◌<◌, ◌≡◌, ◌↔◌, refl, ap, ap₂, true, Bool-cases, inl, inr, none, some,
  List, [], ◌∷◌, ◌++◌, arith, codes, length, take-append, drop-append, ltb, if◌then◌else◌,
}
use control_protocol.Prelude.Equality.{◌==◌, bytes_eq, bytes_equal_iff}
use control_protocol.Prelude.Maps.{Map, empty, lookup, insert}
use control_protocol.Errors.{Text, eof, Result, ok, err, ok_inj}
use control_protocol.Reconciler.TlsDialer.{secret_cert_key, secret_pk_key}
use control_protocol.Certificates.{
  Crypto, Certificate, certificate_kind, private_key_kind, legacy_fake_dns_name, validate_cert,
  parse_cert, create_signed_cert, create_ca_certs,
}
use control_protocol.Certificates.Created.{HasInverses}
use control_protocol.Certificates.Reconciler.{
  Secret, Reconciler, found, new_reconciler, data_plane_deprecated_secret_type,
  ca_expiration_interval, rotation_threshold, second, enqueue_before_expiration, should_reconcile,
  sans_of, updated_secret, missing_cert_bytes,
}
use control_protocol.Certificates.Reconciler.Kind.{
  parse_and_validate_secret, validated, reconcile_kind,
}
use control_protocol.Certificates.Reconciler.Renewal.{SignsTemplates}
use control_protocol.Certificates.Reconciler.Rotation.{
  IsSettled, HasRenewed, validate_cert-enqueue_before_expiration, reconcile_kind-IsSettled,
  reconcile_kind-HasRenewed,
}
use control_protocol.Certificates.Reconciler.Cluster.{Cluster, reconcile}
use control_protocol.Tests.Certificates.{some_cert, decode_block, parse_key}

abbrev limit : ℕ
limit = ca_expiration_interval + 100

abbrev sign_names : List Text → Result (List ℕ)
sign_names [] = ok (0 ∷ [])
sign_names (name ∷ []) = if name == legacy_fake_dns_name then ok (1 ∷ []) else err eof
sign_names (name ∷ next ∷ names) = err eof

abbrev parse_signed : List ℕ → Result Certificate
parse_signed [] = err eof
parse_signed (zero ∷ bytes) = ok (record some_cert { not_after = limit })
parse_signed (suc n ∷ bytes) =
    ok (record some_cert { not_after = limit; dns_names = legacy_fake_dns_name ∷ [] })

abbrev pub signing : Crypto ℕ
signing = record {
  rand_int = ok 7;
  now = 10;
  now_later = 11;
  generate_key = ok 5;
  create_certificate = λ template parent key parent_key.
      if ltb template.not_after limit then sign_names template.dns_names else err eof;
  parse_certificate = parse_signed;
  marshal_private_key = λ key. key ∷ [];
  parse_private_key = parse_key;
  encode_to_memory = λ b. length b.kind ∷ b.kind ++ b.bytes;
  decode = decode_block;
}

pub signing-HasInverses : HasInverses signing
signing-HasInverses = record {
  decode-encode_to_memory = λ b known.
      ap₂ (λ kind bytes. some (record { kind = kind; bytes = bytes })) (take-append b.kind b.bytes)
        (drop-append b.kind b.bytes);
  parse-marshal_private_key = λ key. refl;
}

signed_names :
    (names : List Text) (der : List ℕ) (cert : Certificate)
    → sign_names names ≡ ok der
    → parse_signed der ≡ ok cert
    → (cert.dns_names ≡ names) × (cert.not_after ≡ limit)
signed_names [] der cert h p =
    let c = ok_inj _ cert (ap parse_signed (ok_inj _ der h) ∙ p) in
    (ap (λ x. x.dns_names) (sym c), ap (λ x. x.not_after) (sym c))
signed_names (name ∷ []) der cert h p = elim (Bool-cases (name == legacy_fake_dns_name)) [
  | inl same ↦
      let d : ok (1 ∷ []) ≡ ok der = ground (arith, h, same) in
      let c = ok_inj _ cert (ap parse_signed (ok_inj _ der d) ∙ p) in
      (
        ap (λ x. x.dns_names) (sym c)
            ∙ ap (λ x. x ∷ []) (sym ((bytes_equal_iff name legacy_fake_dns_name).0 same)),
        ap (λ x. x.not_after) (sym c),
      )
  | inr other ↦ absurd (ground (arith, h, other))
]
signed_names (name ∷ next ∷ names) der cert h p = absurd (ground (arith, h))

pub signing-SignsTemplates : SignsTemplates signing
signing-SignsTemplates = record {
  same_names = λ template parent key parent_key der cert h p.
      (signed_names template.dns_names der cert (ground (arith, h)) p).0;
  same_end = λ template parent key parent_key der cert h p.
      ground (arith, h, (signed_names template.dns_names der cert (ground (arith, h)) p).1);
  clock = omega arith;
}

abbrev pub r : Reconciler
r = new_reconciler (codes "c") (codes "sys")

abbrev pub ca_data : Map Text (List ℕ)
ca_data =
    insert secret_pk_key (length private_key_kind ∷ private_key_kind ++ 5 ∷ [])
      (insert secret_cert_key (length certificate_kind ∷ certificate_kind ++ 0 ∷ []) empty)

abbrev pub ca_secret : Secret
ca_secret = record {
  namespace = codes "sys";
  name = codes "c-ctrl-ca";
  labels = empty;
  data_of = ca_data;
  finalizers = [];
  deletion_timestamp = none;
  resource_version = [];
}

abbrev pub secret : Secret
secret = record {
  namespace = codes "ns";
  name = codes "s";
  labels = insert (codes "c-ctrl") data_plane_deprecated_secret_type empty;
  data_of = empty;
  finalizers = [];
  deletion_timestamp = none;
  resource_version = [];
}

abbrev pub cluster_of : Secret → Cluster
cluster_of ca =
    insert (codes "sys") (insert (codes "c-ctrl-ca") ca empty)
      (insert (codes "ns") (insert (codes "s") secret empty) empty)

abbrev pub signed_ca : Certificate × ℕ
signed_ca = (record some_cert { not_after = limit }, 5)

pub ca_secret_parses : parse_and_validate_secret signing ca_secret none [] ≡ ok signed_ca
unfolding parse_and_validate_secret lookup insert empty parse_cert validated validate_cert
ca_secret_parses = refl

pub secret_should : should_reconcile r secret ≡ true
unfolding should_reconcile new_reconciler lookup insert empty
secret_should = refl

pub secret_sans :
    sans_of secret (lookup r.secret_type_label_name secret.labels)
    ≡ some (legacy_fake_dns_name ∷ [])
unfolding sans_of new_reconciler lookup insert empty
secret_sans = refl

validate_cert-enqueue_before_expiration_example :
    (validate_cert signing (signed_ca.0) rotation_threshold ≡ none)
    ↔ (10 + second < enqueue_before_expiration signed_ca.0)
validate_cert-enqueue_before_expiration_example =
    validate_cert-enqueue_before_expiration signing signed_ca.0

succeeds : (reconcile signing r (cluster_of ca_secret) secret).event ≡ none
unfolding reconcile_kind should_reconcile new_reconciler parse_and_validate_secret parse_cert
    validated validate_cert sans_of create_signed_cert updated_secret lookup insert empty
succeeds = refl

reconcile_kind-IsSettled_example :
    IsSettled signing secret
      (lookup secret_cert_key ca_data)
      (legacy_fake_dns_name ∷ [])
      (reconcile_kind signing r (λ namespace name. found ca_secret) (λ s. none) secret)
unfolding reconcile_kind should_reconcile new_reconciler parse_and_validate_secret parse_cert
    validated validate_cert sans_of create_signed_cert updated_secret lookup insert empty
reconcile_kind-IsSettled_example =
    reconcile_kind-IsSettled signing r (λ namespace name. found ca_secret) (λ s. none)
      signing-HasInverses signing-SignsTemplates secret ca_secret signed_ca
      (legacy_fake_dns_name ∷ []) refl refl refl refl refl

abbrev empty_ca : Secret
empty_ca = record ca_secret { data_of = empty }

reconcile_kind-HasRenewed_example :
    HasRenewed signing empty_ca
      (reconcile_kind signing r (λ namespace name. found empty_ca) (λ s. none) secret)
unfolding reconcile_kind should_reconcile new_reconciler parse_and_validate_secret create_ca_certs
    updated_secret lookup insert empty
reconcile_kind-HasRenewed_example =
    reconcile_kind-HasRenewed signing r (λ namespace name. found empty_ca) (λ s. none)
      signing-HasInverses signing-SignsTemplates secret empty_ca missing_cert_bytes refl refl refl
      refl
