-- ===== src/Message/Write.antt =====
-- `MessageHeader.WriteTo` and `Message.WriteTo` over a writer, against the wire format.
use control_protocol.Prelude.{
  ℕ, ◌≤◌, ◌≡◌, refl, Option, none, some, List, [], ◌∷◌, ◌++◌, arith, append_assoc, append-nil,
  length, length-append, take, take-append_le, take-append_add, inl, inr, Option-cases, sym,
}
use control_protocol.Wire.BigEndian.{put_uint32}
use control_protocol.Wire.Writer.{Writer, WriteResult}
use control_protocol.Message.{
  MessageHeader, Message, after_write, no_write, write_header_to, write_payload_to, write_to,
}
use control_protocol.Message.Format.{header_bytes, bytes_of, encode}

module _ {ℓ} {W : Type ℓ} (io : Writer W) where
  open io use {write, sent, write_prefix, write_le, write_all}

  -- A result that one `Write` of `p` could have had: the count is the number of bytes accepted,
  -- they are the first bytes of `p`, and without an error they are all of it.
  pub record Sends (w : W) (p : List ℕ) (r : WriteResult W) : Type ℓ where
    pub accepted : sent r.writer ≡ sent w ++ take r.count p
    pub count_le : r.count ≤ length p
    pub count_all : r.error ≡ none → r.count ≡ length p

  write-Sends : (w : W) (p : List ℕ) → Sends w p (write w p)
  write-Sends w p = record {
    accepted = write_prefix w p;
    count_le = write_le w p;
    count_all = write_all w p;
  }

  no_write-Sends : (w : W) → Sends w [] (no_write w)
  no_write-Sends w = record {
    accepted = sym (append-nil (sent w));
    count_le = omega arith;
    count_all = λ h. refl;
  }

  after_write-Sends :
      (w : W) (p q : List ℕ) (r : WriteResult W) (next : W → WriteResult W)
      → Sends w p r
      → Sends r.writer q (next r.writer)
      → Sends w (p ++ q) (after_write r next)
  after_write-Sends w p q r next sp sq = elim (Option-cases r.error) [
    | inl e ↦
        rw (e, after_write)
          (record {
            accepted =
                rw (sq.accepted, sp.accepted, take-append_add r.count _ p q (sp.count_all e))
                  (append_assoc (sent w) (take r.count p) (take (next r.writer).count q));
            count_le = omega (arith, sp.count_all e, sq.count_le, length-append p q);
            count_all = λ h. omega (arith, sp.count_all e, sq.count_all h, length-append p q);
          })
    | inr (e, h) ↦
        rw (h, after_write)
          (record {
            accepted = rw (take-append_le r.count p q sp.count_le) sp.accepted;
            count_le = omega (arith, sp.count_le, length-append p q);
            count_all = λ n. cc;
          })
  ]

  header-Sends : (m : MessageHeader) (w : W) → Sends w (header_bytes m) (write_header_to io m w)
  unfolding header_bytes write_header_to
  header-Sends m w =
      after_write-Sends w (start ++ m.uuid) (put_uint32 m.size) started sizes
        (after_write-Sends w start m.uuid (write w start) uuids (write-Sends w start)
          (write-Sends _ m.uuid))
        (write-Sends _ (put_uint32 m.size))
    where
      start : List ℕ
      start = m.version ∷ m.flags ∷ 0 ∷ m.opcode ∷ []

      uuids : W → WriteResult W
      uuids v = write v m.uuid

      sizes : W → WriteResult W
      sizes v = write v (put_uint32 m.size)

      started : WriteResult W
      started = after_write (write w start) uuids

  payload-Sends : (p : Option (List ℕ)) (w : W) → Sends w (bytes_of p) (write_payload_to io p w)
  unfolding write_payload_to
  payload-Sends none w = no_write-Sends w
  payload-Sends (some p) w = write-Sends w p

  -- `WriteTo` puts the bytes of the wire format on the writer, in order: the returned count is the
  -- number that the writer accepted, they are the first bytes of the format, and if no error is
  -- returned they are all of it. This holds of every writer that keeps the contract of `io.Writer`.
  pub write_to-Sends : (m : Message) (w : W) → Sends w (encode m) (write_to io m w)
  unfolding encode write_to
  write_to-Sends m w =
      after_write-Sends w (header_bytes m.header) (bytes_of m.payload)
        (write_header_to io m.header w) (write_payload_to io m.payload) (header-Sends m.header w)
        (payload-Sends m.payload _)
