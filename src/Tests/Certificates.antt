-- ===== src/Tests/Certificates.antt =====
-- pkg/certificates, over libraries that encode in the simplest way.
mod Rotation
mod Controller
mod Settling
mod Wiring
use control_protocol.Prelude.{
  ℕ, ◌≡◌, refl, ap₂, false, Option, none, some, List, [], ◌∷◌, ◌++◌, codes, length, take, drop,
  take-append, drop-append,
}
use control_protocol.Errors.{eof, Result, ok, err}
use control_protocol.Certificates.{
  Crypto, Block, Certificate, KeyPair, create_signed_cert, no_usage, data_plane_routing_name,
  data_plane_user_name,
}
use control_protocol.Certificates.Created.{HasInverses, Origin, create_signed_cert-Origin}

data_plane_names_run :
    (data_plane_routing_name [] ≡ codes "kn-routing-0")
    × (data_plane_user_name (codes "NS-1") ≡ codes "kn-user-ns-1")
unfolding data_plane_routing_name data_plane_user_name
data_plane_names_run = (refl, refl)

abbrev pub some_cert : Certificate
some_cert = record {
  serial_number = 1;
  not_before = 0;
  not_after = 100;
  dns_names = [];
  is_ca = false;
  key_usage = no_usage;
  ext_key_usage = [];
  subject_organization = [];
  common_name = [];
}

abbrev pub decode_block : List ℕ → Option Block
decode_block [] = none
decode_block (n ∷ bs) = some (record { kind = take n bs; bytes = drop n bs })

abbrev pub parse_key : List ℕ → Result ℕ
parse_key [] = err eof
parse_key (key ∷ bs) = ok key

abbrev simple : Crypto ℕ
simple = record {
  rand_int = ok 7;
  now = 10;
  now_later = 11;
  generate_key = ok 5;
  create_certificate =
      λ template parent key parent_key. ok (template.serial_number ∷ key ∷ parent_key ∷ []);
  parse_certificate = λ der. ok some_cert;
  marshal_private_key = λ key. key ∷ [];
  parse_private_key = parse_key;
  encode_to_memory = λ b. length b.kind ∷ b.kind ++ b.bytes;
  decode = decode_block;
}

simple-HasInverses : HasInverses simple
simple-HasInverses = record {
  decode-encode_to_memory = λ b known.
      ap₂ (λ kind bytes. some (record { kind = kind; bytes = bytes })) (take-append b.kind b.bytes)
        (drop-append b.kind b.bytes);
  parse-marshal_private_key = λ key. refl;
}

created : (kp : KeyPair) × (create_signed_cert simple 9 some_cert 50 [] ≡ ok kp)
unfolding create_signed_cert
created = (_, refl)
