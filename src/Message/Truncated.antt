-- ===== src/Message/Truncated.antt =====
-- `ReadFrom` when the stream ends within a message.
use control_protocol.Prelude.{
  ℕ, ◌+◌, ◌<◌, ◌≤◌, ◌≡◌, ap, Option, none, some, List, ◌++◌, arith, length, length-append, take,
  drop, take-append-drop, ◌∙◌, sym, true, ltb, ltb→lt, ltb→le, subst, take-append, length-drop,
  Bool-cases, inl, inr, take-append_le,
}
use control_protocol.Errors.{Error, is_eof}
use control_protocol.Wire.Stream.{Stream, contents, IsSound, read_full}
use control_protocol.Wire.Stream.Laws.{Splits, read_full-Splits, read_full-EndsEarly}
use control_protocol.Message.{MessageHeader, Message, ReadFrom, read_payload, read_from}
use control_protocol.Message.Format.{
  header_bytes, bytes_of, encode, IsWellFormed, length-header_bytes, length-encode,
}
use control_protocol.Message.RoundTrip.{message_header_from_bytes-header_bytes}

-- The message is cut off: all that is there was counted, and the error means the end.
pub record IsCut (s : Stream) (r : ReadFrom) : Type 0 where
  pub counted : r.count ≡ length (contents s)
  pub reason : Error
  pub failed : r.error ≡ some reason
  pub at_end : is_eof reason ≡ true

pub IsCut-in_header :
    (z : Message) (s : Stream) → IsSound s → length (contents s) < 24 → IsCut s (read_from z s)
unfolding read_from
IsCut-in_header z s h lt =
    let f = read_full-EndsEarly 24 s h lt in
    record {
      counted = ground (arith, f);
      reason = f.reason;
      failed = ground (arith, f);
      at_end = f.at_end;
    }

cut_in_payload :
    (m : MessageHeader) (z : Option (List ℕ)) (s : Stream)
    → IsSound s
    → length (contents s) < m.size
    → let r = read_payload (record { header = m; payload = z }) 24 s in
      (r.count ≡ 24 + length (contents s)) × (e : Error) × (r.error ≡ some e) × (is_eof e ≡ true)
unfolding read_payload
cut_in_payload m z s h lt =
    let f = read_full-EndsEarly m.size s h lt in
    (ground (arith, f), f.reason, ground (arith, f), f.at_end)

-- All 24 header bytes are there: they stand in front of what there is of the payload.
header_there :
    (m : Message) (s : Stream) (missing : List ℕ)
    → IsWellFormed m
    → encode m ≡ contents s ++ missing
    → 24 ≤ length (contents s)
    → contents s ≡ header_bytes m.header ++ drop 24 (contents s)
unfolding encode
header_there m s missing v e le =
    sym (take-append-drop 24 (contents s))
    ∙ ap (λ (b : List ℕ). b ++ drop 24 (contents s))
        (sym (take-append_le 24 (contents s) missing le) ∙ ap (take 24) (sym e) ∙ front)
  where
    front : take 24 (header_bytes m.header ++ bytes_of m.payload) ≡ header_bytes m.header
    front =
        subst (λ n. take n (header_bytes m.header ++ bytes_of m.payload) ≡ header_bytes m.header)
          (length-header_bytes m.header v.uuid_length)
          (take-append (header_bytes m.header) (bytes_of m.payload))

IsCut-behind_header :
    (m : Message) (z : MessageHeader) (s : Stream) (q : List ℕ)
    → IsWellFormed m
    → IsSound s
    → contents s ≡ header_bytes m.header ++ q
    → length q < m.size
    → IsCut s (read_from (record { header = z; payload = none }) s)
unfolding read_from
IsCut-behind_header m z s q v h e lt =
    rw
      (
        f.no_error,
        read_from,
        f.all_got,
        hl,
        message_header_from_bytes-header_bytes m.header v.uuid_length v.size_fits,
      )
      (record {
        counted = p.0 ∙ rw (f.left, e) (omega (arith, hl, length-append (header_bytes m.header) q));
        reason = p.1;
        failed = p.2;
        at_end = p.3;
      })
  where
    hl : length (header_bytes m.header) ≡ 24
    hl = length-header_bytes m.header v.uuid_length

    f : Splits (header_bytes m.header) q (read_full 24 s)
    f = read_full-Splits 24 (header_bytes m.header) q s (sym hl) h e

    p :
        let r =
          read_payload (record { header = m.header; payload = none }) 24 (read_full 24 s).rest in
        (r.count ≡ 24 + length (contents (read_full 24 s).rest))
        × (e : Error) × (r.error ≡ some e)
        × (is_eof e ≡ true)
    p = cut_in_payload m.header none (read_full 24 s).rest f.still_sound (rw f.left lt)

-- A stream that ends within a message, at whatever byte, gives no message: `ReadFrom` returns an
-- error that `isEOF` accepts, and the number of the bytes that were there.
pub read_from-IsCut :
    (m : Message) (z : MessageHeader) (s : Stream) (missing : List ℕ)
    → IsWellFormed m
    → IsSound s
    → encode m ≡ contents s ++ missing
    → 0 < length missing
    → IsCut s (read_from (record { header = z; payload = none }) s)
read_from-IsCut m z s missing v h e pos = elim (Bool-cases (ltb (length (contents s)) 24)) [
  | inl short ↦ IsCut-in_header _ s h (ltb→lt _ _ short)
  | inr long ↦
      IsCut-behind_header m z s (drop 24 (contents s)) v h
        (header_there m s missing v e (ltb→le _ _ long))
        (omega (
          arith,
          length-encode m v,
          ap length e,
          length-append (contents s) missing,
          length-drop 24 (contents s),
          ltb→le _ _ long,
        ))
]
