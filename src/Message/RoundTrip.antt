-- ===== src/Message/RoundTrip.antt =====
-- `ReadFrom` on what `WriteTo` sends.
use control_protocol.Prelude.{
  ℕ, zero, suc, ◌+◌, ◌-◌, ◌<◌, ◌^◌, ◌≡◌, refl, ap, Option, none, some, List, [], ◌∷◌, ◌++◌, arith,
  append_assoc, append-nil, length, drop, drop-append, get_or, ◌∙◌, sym, ap₂, subst, replicate,
}
use native.Mathlib.Nat.{sub_self}
use control_protocol.Wire.BigEndian.{put_uint32, uint32, uint32-put_uint32}
use control_protocol.Wire.Stream.{Stream, contents, IsSound, read_full}
use control_protocol.Wire.Stream.Laws.{Splits, read_full-Splits}
use control_protocol.Message.{
  MessageHeader, Message, uuid_loop, message_header_from_bytes, ReadFrom, read_payload, read_from,
}
use control_protocol.Message.Format.{
  header_bytes, bytes_of, encode, IsWellFormed, received, length-header_bytes,
}

head_of_drop :
    (j : ℕ) (b : List ℕ) {x : ℕ} {r : List ℕ}
    → drop j b ≡ x ∷ r
    → (get_or b j 0 ≡ x) × (drop (suc j) b ≡ r)
head_of_drop zero [] e = cc
head_of_drop zero (y ∷ b) e = ground arith
head_of_drop (suc j) [] e = cc
head_of_drop (suc j) (y ∷ b) e = head_of_drop j b e

uuid_loop-take :
    (n i : ℕ) (u b rest : List ℕ) → length u ≡ n → drop (4 + i) b ≡ u ++ rest → uuid_loop n i b ≡ u
unfolding uuid_loop
uuid_loop-take zero i [] b rest h e = refl
uuid_loop-take zero i (x ∷ u) b rest h e = absurd (omega arith)
uuid_loop-take (suc n) i [] b rest h e = absurd (omega arith)
uuid_loop-take (suc n) i (x ∷ u) b rest h e =
    let (now, later) = head_of_drop (4 + i) b e in
    let next : drop (4 + (i + 1)) b ≡ u ++ rest =
      subst (λ j. drop j b ≡ u ++ rest) {x = suc (4 + i)} (omega arith) later in
    ap₂ ◌∷◌ now (uuid_loop-take n (i + 1) u b rest (omega arith) next)

drop_uuid :
    (u rest : List ℕ) (a b c d : ℕ)
    → length u ≡ 16
    → drop 20 ((a ∷ b ∷ c ∷ d ∷ []) ++ u ++ rest) ≡ rest
drop_uuid u rest a b c d h = subst (λ n. drop n (u ++ rest) ≡ rest) h (drop-append u rest)

-- The 24 bytes of a header give the header back.
pub message_header_from_bytes-header_bytes :
    (m : MessageHeader)
    → length m.uuid ≡ 16
    → m.size < 2 ^ 32
    → message_header_from_bytes (header_bytes m) ≡ m
unfolding message_header_from_bytes header_bytes
message_header_from_bytes-header_bytes m h k = λ i. record {
  version = m.version;
  flags = m.flags;
  opcode = m.opcode;
  uuid = uuid_loop-take 16 0 m.uuid (header_bytes m) (put_uint32 m.size) h refl i;
  size = size_back i;
}
  where
    size_back : uint32 (drop 20 (header_bytes m)) ≡ m.size
    size_back =
        ap uint32 (drop_uuid m.uuid (put_uint32 m.size) m.version m.flags 0 m.opcode h)
        ∙ uint32-put_uint32 m.size k

-- What a message with all its bytes at hand reads as.
pub record Reads (m : Message) (rest : List ℕ) (r : ReadFrom) : Type 0 where
  pub whole : r.message ≡ received m
  pub counted : r.count ≡ m.size + 24
  pub no_error : r.error ≡ none
  pub left : contents r.rest ≡ rest
  pub still_sound : IsSound r.rest

payload_back :
    (p rest : List ℕ) (n : ℕ) (s : Stream)
    → n ≡ length p
    → Splits p rest (read_full n s)
    → (length (read_full n s).got ≡ n)
      × ((read_full n s).got ++ replicate (n - length (read_full n s).got) 0 ≡ p)
payload_back p rest n s e f = (counts, rw (counts, sub_self n, f.all_got) (append-nil p))
  where
    counts : length (read_full n s).got ≡ n
    counts = rw f.all_got (sym e)

read_payload-Reads :
    (m : MessageHeader) (p : Option (List ℕ)) (rest : List ℕ) (s : Stream)
    → IsWellFormed (record { header = m; payload = p })
    → IsSound s
    → contents s ≡ bytes_of p ++ rest
    → Reads
        (record { header = m; payload = p })
        rest
        (read_payload (record { header = m; payload = none }) 24 s)
unfolding read_payload received
read_payload-Reads m none rest s v h e = ground arith
read_payload-Reads m (some []) rest s v h e = ground arith
read_payload-Reads m (some (x ∷ p)) rest s v h e =
    let f = read_full-Splits m.size (x ∷ p) rest s v.size_exact h e in
    ground (arith, f, payload_back (x ∷ p) rest m.size s v.size_exact f)

-- `ReadFrom` into a message with no payload, from a stream that holds what `WriteTo` sends and more
-- behind it, in whatever parts it arrives: the message comes back, the count is its length on the
-- wire, there is no error, and the stream is left at the bytes behind the message.
pub read_from-encode :
    (m : Message) (z : MessageHeader) (rest : List ℕ) (s : Stream)
    → IsWellFormed m
    → IsSound s
    → contents s ≡ encode m ++ rest
    → Reads m rest (read_from (record { header = z; payload = none }) s)
unfolding read_from encode
read_from-encode m z rest s v h e =
    rw
      (
        f.no_error,
        read_from,
        f.all_got,
        length-header_bytes m.header v.uuid_length,
        message_header_from_bytes-header_bytes m.header v.uuid_length v.size_fits,
      )
      (read_payload-Reads m.header m.payload rest _ v f.still_sound f.left)
  where
    f : Splits (header_bytes m.header) (bytes_of m.payload ++ rest) (read_full 24 s)
    f =
        read_full-Splits 24 (header_bytes m.header) (bytes_of m.payload ++ rest) s
          (sym (length-header_bytes m.header v.uuid_length)) h
          (e ∙ append_assoc (header_bytes m.header) (bytes_of m.payload) rest)
