-- ===== src/Message.antt =====
-- pkg/message.go: the message header and the message, their construction, and the two directions of
-- the wire format, over any `io.Writer` and over a stream of arrivals.
pub mod Format
pub mod Write
pub mod RoundTrip
pub mod Truncated
pub mod Typed
use Prim.Native.Nat.{bit_and}
use mathlib.Core.List.{foldl}
use control_protocol.Prelude.{
  ℕ, zero, suc, ◌+◌, ◌-◌, ◌≡◌, refl, Bool, Option, none, some, List, [], ◌∷◌, ◌++◌, ◌==ℕ◌,
  if◌then◌else◌, length, get_or, drop, replicate,
}
use control_protocol.Errors.{Error}
use control_protocol.Wire.BigEndian.{u8, u32, put_uint32, uint32}
use control_protocol.Wire.Stream.{Stream, ReadResult, read_full}
use control_protocol.Wire.Writer.{Writer, WriteResult}

-- `uuid` holds the 16 bytes of `[16]byte`; the other fields are a `uint8` each, and a `uint32`.
pub record MessageHeader : Type 0 where
  pub version : ℕ
  pub flags : ℕ
  pub opcode : ℕ
  pub uuid : List ℕ
  pub size : ℕ

-- The zero value of the type.
abbrev pub zero_header : MessageHeader
zero_header = record { version = 0; flags = 0; opcode = 0; uuid = replicate 16 0; size = 0 }

-- A nil slice is `none`, which is not the empty slice.
pub record Message : Type 0 where
  pub header : MessageHeader
  pub open header use *
  pub payload : Option (List ℕ)

abbrev pub zero_message : Message
zero_message = record { header = zero_header; payload = none }

abbrev pub outbound_message_version : ℕ
outbound_message_version = 0

-- Every bit of `flag` is set in the flags.
unfoldable pub check : MessageHeader → ℕ → Bool
check m flag = bit_and m.flags flag ==ℕ flag

abbrev pub MessageOpt : Type 0
MessageOpt = Message → Message

unfoldable pub with_version : ℕ → MessageOpt
with_version version m = record m { header = record m.header { version = version } }

unfoldable pub with_flags : ℕ → MessageOpt
with_flags flags m = record m { header = record m.header { flags = flags } }

abbrev pub payload_length : Option (List ℕ) → ℕ
payload_length none = 0
payload_length (some p) = u32 (length p)

unfoldable pub new_message : List ℕ → ℕ → Option (List ℕ) → List MessageOpt → Message
new_message uuid opcode payload opts = foldl (λ m f. f m) msg opts
  where
    msg : Message
    msg = record {
      header = record {
        version = outbound_message_version;
        flags = 0;
        opcode = opcode;
        uuid = uuid;
        size = payload_length payload;
      };
      payload = payload;
    }

-- `for i := 0; i < 16; i++ { m.uuid[i] = b[4+i] }`, with the rounds left and `i`.
uuid_loop : ℕ → ℕ → List ℕ → List ℕ
uuid_loop zero i b = []
uuid_loop (suc n) i b = get_or b (4 + i) 0 ∷ uuid_loop n (i + 1) b

unfoldable pub message_header_from_bytes : List ℕ → MessageHeader
unfolding uuid_loop
message_header_from_bytes b = record {
  version = get_or b 0 0;
  flags = get_or b 1 0;
  opcode = get_or b 3 0;
  uuid = uuid_loop 16 0 b;
  size = uint32 (drop 20 b);
}

-- What `ReadFrom` leaves in the message, returns, and leaves in the stream.
pub record ReadFrom : Type 0 where
  pub message : Message
  pub count : ℕ
  pub error : Option Error
  pub rest : Stream

-- A payload that ends early leaves zeros in the buffer.
read_payload : Message → ℕ → Stream → ReadFrom
read_payload m count s =
    let p = read_full m.size s in
    if m.size ==ℕ 0 then record { message = m; count = count; error = none; rest = s } else record {
      message = record m { payload = some (p.got ++ replicate (m.size - length p.got) 0) };
      count = count + length p.got;
      error = p.error;
      rest = p.rest;
    }

unfoldable pub read_from : Message → Stream → ReadFrom
unfolding read_payload
read_from m s =
    let h = read_full 24 s in
    elim h.error [
      | some e ↦ record { message = m; count = length h.got; error = some e; rest = h.rest }
      | none ↦
          read_payload (record m { header = message_header_from_bytes h.got }) (length h.got) h.rest
    ]

module _ {ℓ} {W : Type ℓ} where
  -- `n = n + n1; if err != nil { return n, err }`, and then the next write.
  abbrev pub after_write : WriteResult W → (W → WriteResult W) → WriteResult W
  after_write r next =
      let r' = next r.writer in
      elim r.error [ some e ↦ r | none ↦ record r' { count = r.count + r'.count } ]

  abbrev no_write : W → WriteResult W
  no_write w = record { writer = w; count = 0; error = none }

module _ {ℓ} {W : Type ℓ} (io : Writer W) where
  open io use {write}

  unfoldable pub write_header_to : MessageHeader → W → WriteResult W
  write_header_to m w =
      after_write (after_write (write w (m.version ∷ m.flags ∷ 0 ∷ m.opcode ∷ [])) uuid_write)
        size_write
    where
      uuid_write : W → WriteResult W
      uuid_write w1 = write w1 m.uuid

      size_write : W → WriteResult W
      size_write w2 = write w2 (put_uint32 m.size)

  write_payload_to : Option (List ℕ) → W → WriteResult W
  write_payload_to none w = no_write w
  write_payload_to (some p) w = write w p

  unfoldable pub write_to : Message → W → WriteResult W
  unfolding write_header_to write_payload_to
  write_to m w = after_write (write_header_to m.header w) (write_payload_to m.payload)
