-- ===== src/Message/Format.antt =====
-- The wire format that pkg/message.go documents, as one list of bytes, and the messages that have
-- a form in it.
use control_protocol.Prelude.{
  ℕ, ◌+◌, ◌<◌, ◌^◌, ◌≡◌, Option, none, some, List, [], ◌∷◌, ◌++◌, arith, ◌==ℕ◌, if◌then◌else◌,
  length, length-append,
}
use control_protocol.Wire.BigEndian.{put_uint32, length-put_uint32}
use control_protocol.Message.{MessageHeader, Message, MessageOpt, with_flags, with_version}

unfoldable pub header_bytes : MessageHeader → List ℕ
header_bytes m = (m.version ∷ m.flags ∷ 0 ∷ m.opcode ∷ []) ++ m.uuid ++ put_uint32 m.size

abbrev pub bytes_of : Option (List ℕ) → List ℕ
bytes_of none = []
bytes_of (some p) = p

unfoldable pub encode : Message → List ℕ
encode m = header_bytes m.header ++ bytes_of m.payload

-- The length field tells the payload's length, and nothing is cut by its 32 bits.
pub record IsWellFormed (m : Message) : Type 0 where
  pub uuid_length : length m.uuid ≡ 16
  pub size_exact : m.size ≡ length (bytes_of m.payload)
  pub size_fits : m.size < 2 ^ 32

-- What the other end holds after it has read the message: it makes no slice for no bytes.
unfoldable pub received : Message → Message
received m = record m { payload = if m.size ==ℕ 0 then none else m.payload }

pub length-header_bytes : (m : MessageHeader) → length m.uuid ≡ 16 → length (header_bytes m) ≡ 24
unfolding header_bytes
length-header_bytes m h =
    omega (arith, length-append {0} m.uuid (put_uint32 m.size), length-put_uint32 m.size)

pub length-encode : (m : Message) → IsWellFormed m → length (encode m) ≡ m.size + 24
unfolding encode
length-encode m v = omega (
  arith,
  length-append {0} (header_bytes m.header) (bytes_of m.payload),
  length-header_bytes m.header v.uuid_length,
)

-- The options that the package offers.
pub data Offered : MessageOpt → Type 0 where
  version_opt : (v : ℕ) → Offered (with_version v)
  flags_opt : (f : ℕ) → Offered (with_flags f)
