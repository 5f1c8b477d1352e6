-- ===== src/Certificates/Reconciler/Renewal.antt =====
-- pkg/certificates/reconciler/certificates.go: the secrets that `commitUpdatedSecret` writes, read
-- back by `parseAndValidateSecret`.
use control_protocol.Prelude.{
  ℕ, ◌+◌, ◌<◌, ◌≤◌, ◌≡◌, refl, sym, ap, ◌∙◌, true, inl, inr, Option, none, some, List, [], ◌∷◌,
  arith, lt→ltb,
}
use control_protocol.Prelude.Equality.{==_refl, bytes_eq}
use control_protocol.Prelude.Maps.{empty, lookup, insert}
use control_protocol.Errors.{Text, ok, ok_inj, bind-ok, Result-cases}
use control_protocol.Certificates.{
  Crypto, Certificate, KeyPair, complete, create_ca_certs, create_signed_cert, create_cert_template,
  create_transport_cert_template, create_ca_cert_template, create_cert, new_key_pair,
  private_key_block_of, parse, validate_cert,
}
use control_protocol.Certificates.Created.{
  HasInverses, create_signed_cert-Origin, parse-new_key_pair,
}
use control_protocol.Certificates.Reconciler.{
  second, rotation_threshold, Secret, contains_all, same_set, check_ca, unless, updated_secret,
}
use control_protocol.Certificates.Reconciler.Kind.{validated, parse_and_validate_secret}

-- What crypto/x509 says of itself: a certificate has its template's names, and its end but for a part
-- of a second. The clock does not go back within a call.
pub record SignsTemplates {Key : Type 0} (crypto : Crypto Key) : Type 0 where
  pub same_names :
      (template parent : Certificate) (key parent_key : Key) (der : List ℕ) (cert : Certificate)
      → crypto.create_certificate template parent key parent_key ≡ ok der
      → crypto.parse_certificate der ≡ ok cert
      → cert.dns_names ≡ template.dns_names
  pub same_end :
      (template parent : Certificate) (key parent_key : Key) (der : List ℕ) (cert : Certificate)
      → crypto.create_certificate template parent key parent_key ≡ ok der
      → crypto.parse_certificate der ≡ ok cert
      → template.not_after < cert.not_after + second
  pub clock : crypto.now ≤ crypto.now_later

contains_all-cons :
    (x : Text) (xs names : List Text)
    → contains_all xs names ≡ true
    → contains_all xs (x ∷ names) ≡ true
contains_all-cons x [] names h = refl
contains_all-cons x (y ∷ xs) names h = ground (arith, contains_all-cons x xs names)

contains_all_refl : (xs : List Text) → contains_all xs xs ≡ true
contains_all_refl [] = refl
contains_all_refl (x ∷ xs) =
    ground (arith, ==_refl x, contains_all-cons x xs xs (contains_all_refl xs))

pub same_set_refl : (xs : List Text) → same_set xs xs ≡ true
same_set_refl xs = ground (arith, contains_all_refl xs)

module _ {Key : Type 0} (crypto : Crypto Key) where
  -- A template for some names and an interval.
  pub record IsTemplate (interval : ℕ) (sans : List Text) (template : Certificate) : Type 0 where
    pub names : template.dns_names ≡ sans
    pub end : template.not_after ≡ crypto.now_later + interval

  pub record IsSigned (interval : ℕ) (sans : List Text) (kp : KeyPair) : Type 0 where
    pub cert : Certificate
    pub key : Key
    pub parse_back : parse crypto kp ≡ complete cert key
    pub names : cert.dns_names ≡ sans
    pub end : crypto.now + interval < cert.not_after + second

  created-IsTemplate :
      (interval : ℕ) (sans : List Text) (template : Certificate)
      → create_cert_template crypto interval sans ≡ ok template
      → IsTemplate interval sans template
  unfolding create_cert_template
  created-IsTemplate interval sans template h = elim (Result-cases crypto.rand_int) [
    | inl (serial, e) ↦ record { names = ground (arith, h, e); end = ground (arith, h, e) }
    | inr (e, f) ↦ absurd (ground (arith, h, f))
  ]

  transport-IsTemplate :
      (interval : ℕ) (sans : List Text) (template : Certificate)
      → create_transport_cert_template crypto interval sans ≡ ok template
      → IsTemplate interval sans template
  unfolding create_transport_cert_template
  transport-IsTemplate interval sans template h =
      let (base, made, h1) = bind-ok (create_cert_template crypto interval sans) _ template h in
      let t = created-IsTemplate interval sans base made in
      record { names = ground (arith, h1, t); end = ground (arith, h1, t) }

  ca-IsTemplate :
      (interval : ℕ) (template : Certificate)
      → create_ca_cert_template crypto interval ≡ ok template
      → IsTemplate interval [] template
  unfolding create_ca_cert_template
  ca-IsTemplate interval template h =
      let (base, made, h1) = bind-ok (create_cert_template crypto interval []) _ template h in
      let t = created-IsTemplate interval [] base made in
      record { names = ground (arith, h1, t); end = ground (arith, h1, t) }

  pub create_signed_cert-IsSigned :
      (ca_key : Key) (ca : Certificate) (interval : ℕ) (sans : List Text) (kp : KeyPair)
      → HasInverses crypto
      → SignsTemplates crypto
      → create_signed_cert crypto ca_key ca interval sans ≡ ok kp
      → IsSigned interval sans kp
  create_signed_cert-IsSigned ca_key ca interval sans kp inv signs h =
      let o = create_signed_cert-Origin crypto ca_key ca interval sans kp inv h in
      let t = transport-IsTemplate interval sans o.template o.from_template in
      record {
        cert = o.cert;
        key = o.key;
        parse_back = o.parse_back;
        names =
            signs.same_names o.template ca o.key ca_key o.der o.cert o.signed o.parsed ∙ t.names;
        end = omega (
          arith,
          signs.same_end o.template ca o.key ca_key o.der o.cert o.signed o.parsed,
          t.end,
          signs.clock,
        );
      }

  pub create_ca_certs-IsSigned :
      (interval : ℕ) (kp : KeyPair)
      → HasInverses crypto
      → SignsTemplates crypto
      → create_ca_certs crypto interval ≡ ok kp
      → IsSigned interval [] kp
  unfolding create_ca_certs create_cert
  create_ca_certs-IsSigned interval kp inv signs h =
      let (key, generated, h1) = bind-ok crypto.generate_key _ kp h in
      let (template, from_template, h2) =
        bind-ok (create_ca_cert_template crypto interval) _ kp h1 in
      let (created, made, h3) = bind-ok (create_cert crypto template template key key) _ kp h2 in
      let (der, signed, h4) =
        bind-ok (crypto.create_certificate template template key key) _ created made in
      let (cert, parsed, h5) = bind-ok (crypto.parse_certificate der) _ created h4 in
      let t = ca-IsTemplate interval template from_template in
      record {
        cert = cert;
        key = key;
        parse_back =
            ap (parse crypto) (
              sym (ok_inj _ kp h3)
              ∙ ap (λ c. new_key_pair crypto (private_key_block_of crypto key) c.1)
                  (sym (ok_inj _ created h5)))
            ∙ parse-new_key_pair crypto key der cert inv parsed;
        names = signs.same_names template template key key der cert signed parsed ∙ t.names;
        end = omega (
          arith,
          signs.same_end template template key key der cert signed parsed,
          t.end,
          signs.clock,
        );
      }

  validated-IsSigned :
      (interval : ℕ) (sans : List Text) (kp : KeyPair) (s : IsSigned interval sans kp)
      → rotation_threshold + second ≤ interval
      → validated crypto sans (parse crypto kp) ≡ ok (s.cert, s.key)
  unfolding validated unless validate_cert
  validated-IsSigned interval sans kp s long =
      ap (validated crypto sans) s.parse_back
      ∙ ground (
        arith,
        lt→ltb (crypto.now + rotation_threshold) s.cert.not_after (omega (arith, s.end)),
        ap (same_set sans) s.names,
        same_set_refl sans,
      )

  -- A secret with a new key pair and the CA's certificate reads back.
  pub parse-updated_secret :
      (interval : ℕ) (sans : List Text) (kp : KeyPair) (s : IsSigned interval sans kp)
      (secret : Secret) (ca_cert : Option (List ℕ))
      → rotation_threshold + second ≤ interval
      → parse_and_validate_secret crypto (updated_secret secret kp ca_cert) ca_cert sans
        ≡ ok (s.cert, s.key)
  unfolding parse_and_validate_secret updated_secret lookup insert empty check_ca unless parse
  parse-updated_secret interval sans kp s secret none long =
      validated-IsSigned interval sans kp s long
  parse-updated_secret interval sans kp s secret (some ca_cert) long =
      ground (arith, ==_refl ca_cert, validated-IsSigned interval sans kp s long)
