-- ===== src/Message/Typed.antt =====
-- pkg/message.go: what `ReadFrom` makes of any bytes has the widths of the Go types.
use control_protocol.Prelude.{
  ℕ, zero, suc, ◌+◌, ◌-◌, ◌<◌, ◌^◌, ◌≡◌, refl, sym, ap, subst, ◌∙◌, Option-cases, inl, inr, none,
  List, arith, length, replicate, drop, All-append, length-append, if_each, ◌==ℕ◌,
}
use control_protocol.Wire.BigEndian.{IsByte, AreBytes}
use control_protocol.Wire.Stream.{Stream, read_full}
use control_protocol.Wire.Stream.Bytes.{
  Brings, read_full-Gives, read_full_count, get_or-IsByte, uint32-AreBytes, drop-AreBytes,
  replicate-AreBytes,
}
use control_protocol.Message.{
  MessageHeader, Message, zero_message, message_header_from_bytes, uuid_loop, ReadFrom,
  read_payload, read_from,
}
use control_protocol.Message.Format.{bytes_of}

-- `uint8`, `[16]byte` and `uint32`
pub record IsHeader (m : MessageHeader) : Type 0 where
  pub version_fits : m.version < 2 ^ 8
  pub flags_fit : m.flags < 2 ^ 8
  pub opcode_fits : m.opcode < 2 ^ 8
  pub uuid_length : length m.uuid ≡ 16
  pub uuid_bytes : AreBytes m.uuid
  pub size_fits : m.size < 2 ^ 32

-- A message with the widths of its types, and as many bytes of payload as its header says.
pub record IsTyped (m : Message) : Type 0 where
  pub header_fits : IsHeader m.header
  pub payload_bytes : AreBytes (bytes_of m.payload)
  pub payload_length : length (bytes_of m.payload) ≡ m.size

length-zeros : (n : ℕ) → length {A = ℕ} (replicate n 0) ≡ n
length-zeros zero = refl
length-zeros (suc n) = ap suc (length-zeros n)

uuid_loop-AreBytes :
    (n i : ℕ) (b : List ℕ)
    → AreBytes b
    → AreBytes (uuid_loop n i b) × (length (uuid_loop n i b) ≡ n)
unfolding uuid_loop
uuid_loop-AreBytes zero i b h = (tt, refl)
uuid_loop-AreBytes (suc n) i b h =
    let (bytes, count) = uuid_loop-AreBytes n (i + 1) b h in
    ((get_or-IsByte b (4 + i) h, bytes), ap suc count)

message_header_from_bytes-IsHeader :
    (b : List ℕ) → AreBytes b → IsHeader (message_header_from_bytes b)
unfolding message_header_from_bytes
message_header_from_bytes-IsHeader b h =
    let (bytes, count) = uuid_loop-AreBytes 16 0 b h in
    record {
      version_fits = get_or-IsByte b 0 h;
      flags_fit = get_or-IsByte b 1 h;
      opcode_fits = get_or-IsByte b 3 h;
      uuid_length = count;
      uuid_bytes = bytes;
      size_fits = uint32-AreBytes (drop 20 b) (drop-AreBytes 20 b h);
    }

pub zero_message-IsTyped : IsTyped zero_message
zero_message-IsTyped = record {
  header_fits = record {
    version_fits = omega arith;
    flags_fit = omega arith;
    opcode_fits = omega arith;
    uuid_length = refl;
    uuid_bytes = replicate-AreBytes 16;
    size_fits = omega arith;
  };
  payload_bytes = tt;
  payload_length = refl;
}

-- What a call of `ReadFrom` leaves.
Leaves : ReadFrom → Type 0
Leaves r = IsTyped r.message × Brings r.rest

read_payload-Leaves :
    (m : Message) (count : ℕ) (s : Stream)
    → IsHeader m.header
    → m.payload ≡ none
    → Brings s
    → Leaves (read_payload m count s)
unfolding read_payload Leaves
read_payload-Leaves m count s v fresh h =
    let p = read_full-Gives m.size s h in
    if_each Leaves (m.size ==ℕ 0)
      (λ zero_size. (
        record {
          header_fits = v;
          payload_bytes = subst (λ o. AreBytes (bytes_of o)) (sym fresh) tt;
          payload_length = ap (λ o. length (bytes_of o)) fresh ∙ ground (arith, zero_size);
        },
        h,
      ))
      (λ sized. (
        record {
          header_fits = v;
          payload_bytes =
              All-append IsByte (read_full m.size s).got
                (replicate (m.size - length (read_full m.size s).got) 0) p.gets
                (replicate-AreBytes (m.size - length (read_full m.size s).got));
          payload_length = omega (
            arith,
            length-append (read_full m.size s).got
                (replicate (m.size - length (read_full m.size s).got) 0),
            length-zeros (m.size - length (read_full m.size s).got),
            read_full_count m.size s,
          );
        },
        p.brings,
      ))

-- Whatever bytes arrive, in any parts and with any failures, `ReadFrom` into a new message leaves one
-- with the widths of the Go types, also where it returns an error.
pub read_from-IsTyped :
    (s : Stream)
    → Brings s
    → IsTyped (read_from zero_message s).message × Brings (read_from zero_message s).rest
unfolding read_from Leaves
read_from-IsTyped s h =
    let g = read_full-Gives 24 s h in
    elim (Option-cases (read_full 24 s).error) [
      | inl fine ↦
          rw (fine, read_from)
            (read_payload-Leaves
              (record zero_message { header = message_header_from_bytes (read_full 24 s).got })
              (length (read_full 24 s).got) (read_full 24 s).rest
              (message_header_from_bytes-IsHeader (read_full 24 s).got g.gets) refl g.brings)
      | inr (e, bad) ↦ rw (bad, read_from) (zero_message-IsTyped, g.brings)
    ]
