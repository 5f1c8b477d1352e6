-- ===== src/Certificates.antt =====
-- pkg/certificates: names, templates, key pairs, and the creation, parsing and validation of
-- certificates. The crypto libraries, `encoding/pem` and the clock are parameters.
pub mod Created
pub mod Reconciler
pub mod Controller
use control_protocol.Prelude.{
  ℕ, ◌+◌, Bool, true, false, not, Option, none, some, List, [], ◌∷◌, ◌++◌, ltb, leb, ◌==ℕ◌,
  if◌then◌else◌, codes, map,
}
use control_protocol.Prelude.Equality.{◌==◌, bytes_eq}
use control_protocol.Errors.{Text, Error, plain, error_text, Result, ok, err, ◌>>=◌}

abbrev pub organization : Text
organization = codes "knative.dev"

abbrev pub legacy_fake_dns_name : Text
legacy_fake_dns_name = codes "data-plane." ++ organization

-- `strings.ToLower`, on ASCII.
abbrev pub to_lower_byte : ℕ → ℕ
to_lower_byte c = if leb b'A' c then (if leb c b'Z' then c + 32 else c) else c

abbrev pub to_lower : Text → Text
to_lower text = map to_lower_byte text

abbrev pub routing_id_or_zero : Text → Text
routing_id_or_zero [] = codes "0"
routing_id_or_zero (c ∷ id) = c ∷ id

unfoldable pub data_plane_routing_name : Text → Text
data_plane_routing_name routing_id = codes "kn-routing-" ++ to_lower (routing_id_or_zero routing_id)

unfoldable pub data_plane_user_name : Text → Text
data_plane_user_name namespace = codes "kn-user-" ++ to_lower namespace

-- `pem.Block`
pub record Block : Type 0 where
  pub kind : Text
  pub bytes : List ℕ

pub data KeyUsage : Type 0 where
  no_usage cert_sign digital_signature : KeyUsage

pub data ExtKeyUsage : Type 0 where
  server_auth client_auth : ExtKeyUsage

-- What the code sets and reads of `x509.Certificate`; times and durations are numbers.
pub record Certificate : Type 0 where
  pub serial_number : ℕ
  pub not_before : ℕ
  pub not_after : ℕ
  pub dns_names : List Text
  pub is_ca : Bool
  pub key_usage : KeyUsage
  pub ext_key_usage : List ExtKeyUsage
  pub subject_organization : List Text
  pub common_name : Text

-- The libraries, with what one call of the code gets of them: `Key` stands for `rsa.PrivateKey`.
pub record Crypto (Key : Type 0) : Type 0 where
  pub rand_int : Result ℕ
  pub now : ℕ
  pub now_later : ℕ
  pub generate_key : Result Key
  pub create_certificate : Certificate → Certificate → Key → Key → Result (List ℕ)
  pub parse_certificate : List ℕ → Result Certificate
  pub marshal_private_key : Key → List ℕ
  pub parse_private_key : List ℕ → Result Key
  pub encode_to_memory : Block → List ℕ
  pub decode : List ℕ → Option Block

pub record KeyPair : Type 0 where
  pub private_key_block : Block
  pub private_key_pem_bytes : List ℕ
  pub cert_block : Block
  pub cert_pem_bytes : List ℕ

abbrev pub certificate_kind : Text
certificate_kind = codes "CERTIFICATE"

abbrev pub private_key_kind : Text
private_key_kind = codes "RSA PRIVATE KEY"

abbrev pub no_serial_number : Text
no_serial_number = codes "failed to generate serial number: "

-- The texts of these errors, less the values that `%q` and `%v` print in them.
abbrev pub no_cert_block : Error
no_cert_block = plain (codes "decoding the cert block returned nil")

abbrev pub bad_cert_block : Error
bad_cert_block = plain (codes "bad pem block, expecting type 'CERTIFICATE', found ")

abbrev pub no_pk_block : Error
no_pk_block = plain (codes "decoding the pk block returned nil")

abbrev pub bad_pk_block : Error
bad_pk_block = plain (codes "bad pem block, expecting type 'RSA PRIVATE KEY', found ")

abbrev pub going_to_expire : Error
going_to_expire = plain (codes "certificate is going to expire ")

-- What `ParseCert` returns: a certificate and a key, or an error and perhaps a certificate.
pub data Parsed (Key : Type 0) : Type 0 where
  complete : Certificate → Key → Parsed Key
  failed : Option Certificate → Error → Parsed Key

module _ {Key : Type 0} (crypto : Crypto Key) where
  open crypto use {
    rand_int, now, now_later, generate_key, create_certificate, parse_certificate,
    marshal_private_key, parse_private_key, encode_to_memory, decode,
  }

  unfoldable pub create_cert_template : ℕ → List Text → Result Certificate
  create_cert_template expiration_interval sans = elim rand_int [
    | err e ↦ err (plain (no_serial_number ++ error_text e))
    | ok serial_number ↦ ok (record {
      serial_number = serial_number;
      not_before = now;
      not_after = now_later + expiration_interval;
      dns_names = sans;
      is_ca = false;
      key_usage = no_usage;
      ext_key_usage = [];
      subject_organization = [];
      common_name = [];
    })
  ]

  unfoldable pub create_ca_cert_template : ℕ → Result Certificate
  unfolding create_cert_template
  create_ca_cert_template expiration_interval = do
    root_cert ← create_cert_template expiration_interval []
    ok (record root_cert {
      is_ca = true;
      key_usage = cert_sign;
      subject_organization = organization ∷ [];
    })

  unfoldable pub create_transport_cert_template : ℕ → List Text → Result Certificate
  unfolding create_cert_template
  create_transport_cert_template expiration_interval sans = do
    cert ← create_cert_template expiration_interval sans
    ok (record cert {
      key_usage = digital_signature;
      ext_key_usage = server_auth ∷ client_auth ∷ [];
      subject_organization = organization ∷ [];
      common_name = codes "control-protocol-certificate";
    })

  unfoldable pub create_cert : Certificate → Certificate → Key → Key → Result (Certificate × Block)
  create_cert template parent key parent_key = do
    cert_der ← create_certificate template parent key parent_key
    cert ← parse_certificate cert_der
    ok (cert, record { kind = certificate_kind; bytes = cert_der })

  unfoldable pub new_key_pair : Block → Block → KeyPair
  new_key_pair private_key cert = record {
    private_key_block = private_key;
    private_key_pem_bytes = encode_to_memory private_key;
    cert_block = cert;
    cert_pem_bytes = encode_to_memory cert;
  }

  pub private_key_block_of : Key → Block
  private_key_block_of key = record { kind = private_key_kind; bytes = marshal_private_key key }

  unfoldable pub create_ca_certs : ℕ → Result KeyPair
  unfolding create_ca_cert_template create_cert new_key_pair private_key_block_of
  create_ca_certs expiration_interval = do
    ca_key_pair ← generate_key
    root_cert_tmpl ← create_ca_cert_template expiration_interval
    created ← create_cert root_cert_tmpl root_cert_tmpl ca_key_pair ca_key_pair
    ok (new_key_pair (private_key_block_of ca_key_pair) created.1)

  -- `CreateCert`
  unfoldable pub create_signed_cert : Key → Certificate → ℕ → List Text → Result KeyPair
  unfolding create_transport_cert_template create_cert new_key_pair private_key_block_of
  create_signed_cert ca_key ca_certificate expiration_interval sans = do
    key_pair ← generate_key
    cert_template ← create_transport_cert_template expiration_interval sans
    created ← create_cert cert_template ca_certificate key_pair ca_key
    ok (new_key_pair (private_key_block_of key_pair) created.1)

  -- Both of the deprecated functions.
  unfoldable pub create_control_plane_cert : Key → Certificate → ℕ → Result KeyPair
  create_control_plane_cert ca_key ca_certificate expiration_interval =
      create_signed_cert ca_key ca_certificate expiration_interval (legacy_fake_dns_name ∷ [])

  with_key : Certificate → Result Key → Parsed Key
  with_key cert (ok key) = complete cert key
  with_key cert (err e) = failed (some cert) e

  parse_pk_block : Certificate → Option Block → Parsed Key
  unfolding with_key
  parse_pk_block cert none = failed none no_pk_block
  parse_pk_block cert (some pk_block) =
      if pk_block.kind == private_key_kind
      then with_key cert (parse_private_key pk_block.bytes)
      else failed none bad_pk_block

  with_cert : Result Certificate → List ℕ → Parsed Key
  unfolding parse_pk_block
  with_cert (err e) private_key_pem_bytes = failed none e
  with_cert (ok cert) private_key_pem_bytes = parse_pk_block cert (decode private_key_pem_bytes)

  parse_cert_block : Option Block → List ℕ → Parsed Key
  unfolding with_cert
  parse_cert_block none private_key_pem_bytes = failed none no_cert_block
  parse_cert_block (some cert_block) private_key_pem_bytes =
      if cert_block.kind == certificate_kind
      then with_cert (parse_certificate cert_block.bytes) private_key_pem_bytes
      else failed none bad_cert_block

  unfoldable pub parse_cert : List ℕ → List ℕ → Parsed Key
  unfolding parse_cert_block
  parse_cert cert_pem_bytes private_key_pem_bytes =
      parse_cert_block (decode cert_pem_bytes) private_key_pem_bytes

  -- `KeyPair.Parse`
  unfoldable pub parse : KeyPair → Parsed Key
  parse kh = parse_cert kh.cert_pem_bytes kh.private_key_pem_bytes

  unfoldable pub validate_cert : Certificate → ℕ → Option Error
  validate_cert cert rotation_threshold =
      if ltb (now + rotation_threshold) cert.not_after then none else some going_to_expire
