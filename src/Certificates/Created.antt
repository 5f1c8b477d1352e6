-- ===== src/Certificates/Created.antt =====
-- pkg/certificates/certs.go and key_pair.go: parsing the key pairs that the package creates.
use control_protocol.Prelude.{ℕ, ◌≡◌, ◌⊎◌, inl, inr, refl, sym, ap, ◌∙◌, some, List}
use control_protocol.Prelude.Equality.{bytes_eq}
use control_protocol.Errors.{Text, ok, ok_inj, bind-ok}
use control_protocol.Certificates.{
  complete, Certificate, Crypto, Block, KeyPair, create_signed_cert, create_transport_cert_template,
  create_cert, new_key_pair, private_key_block_of, parse, parse_cert, parse_cert_block,
  parse_pk_block, with_key, with_cert, private_key_kind, certificate_kind,
}

-- What `encoding/pem` and `crypto/x509` say of themselves: decoding undoes encoding, of the
-- two kinds of blocks that the code makes, and the parsed
-- private key is the one that was marshalled.
pub record HasInverses {Key : Type 0} (crypto : Crypto Key) : Type 0 where
  pub decode-encode_to_memory :
      (b : Block)
      → (b.kind ≡ certificate_kind) ⊎ (b.kind ≡ private_key_kind)
      → crypto.decode (crypto.encode_to_memory b) ≡ some b
  pub parse-marshal_private_key :
      (key : Key) → crypto.parse_private_key (crypto.marshal_private_key key) ≡ ok key

module _ {Key : Type 0} (crypto : Crypto Key) where
  pub parse-new_key_pair :
      (key : Key) (der : List ℕ) (cert : Certificate)
      → HasInverses crypto
      → crypto.parse_certificate der ≡ ok cert
      → parse crypto (
          new_key_pair crypto
            (private_key_block_of crypto key)
            (record { kind = certificate_kind; bytes = der }))
        ≡ complete cert key
  unfolding parse parse_cert new_key_pair private_key_block_of
  parse-new_key_pair key der cert inv h =
      rw
        (
          inv.decode-encode_to_memory (record { kind = certificate_kind; bytes = der }) (inl refl),
          parse_cert_block,
          h,
          with_cert,
          inv.decode-encode_to_memory
              (record { kind = private_key_kind; bytes = crypto.marshal_private_key key })
              (inr refl),
          parse_pk_block,
          inv.parse-marshal_private_key key,
          with_key,
        )
        refl

  -- Where a key pair comes from.
  pub record Origin (ca_key : Key) (ca : Certificate) (interval : ℕ) (sans : List Text)
      (kp : KeyPair) : Type 0 where
    pub key : Key
    pub template : Certificate
    pub der : List ℕ
    pub cert : Certificate
    pub generated : crypto.generate_key ≡ ok key
    pub from_template : create_transport_cert_template crypto interval sans ≡ ok template
    pub signed : crypto.create_certificate template ca key ca_key ≡ ok der
    pub parsed : crypto.parse_certificate der ≡ ok cert
    pub parse_back : parse crypto kp ≡ complete cert key

  -- The key pair that `CreateCert` returns parses to the certificate that was signed with the CA's
  -- key, from the template for the names and the interval that were asked for, and to the private
  -- key that was generated.
  pub create_signed_cert-Origin :
      (ca_key : Key) (ca : Certificate) (interval : ℕ) (sans : List Text) (kp : KeyPair)
      → HasInverses crypto
      → create_signed_cert crypto ca_key ca interval sans ≡ ok kp
      → Origin ca_key ca interval sans kp
  unfolding create_signed_cert create_cert
  create_signed_cert-Origin ca_key ca interval sans kp inv h =
      let (key, generated, h1) = bind-ok crypto.generate_key _ kp h in
      let (template, from_template, h2) =
        bind-ok (create_transport_cert_template crypto interval sans) _ kp h1 in
      let (created, made, h3) = bind-ok (create_cert crypto template ca key ca_key) _ kp h2 in
      let (der, signed, h4) =
        bind-ok (crypto.create_certificate template ca key ca_key) _ created made in
      let (cert, parsed, h5) = bind-ok (crypto.parse_certificate der) _ created h4 in
      record {
        key = key;
        template = template;
        der = der;
        cert = cert;
        generated = generated;
        from_template = from_template;
        signed = signed;
        parsed = parsed;
        parse_back =
            ap (parse crypto) (
              sym (ok_inj _ kp h3)
              ∙ ap (λ c. new_key_pair crypto (private_key_block_of crypto key) c.1)
                  (sym (ok_inj _ created h5)))
            ∙ parse-new_key_pair key der cert inv parsed;
      }
