-- ===== src/Network/Connection/Writing.antt =====
-- What the writing loop puts on the conn, and what it keeps.
pub mod Loop
pub mod Carry
use control_protocol.Prelude.{
  ℕ, zero, suc, ◌+◌, ◌≤◌, ◌<◌, ◌≡◌, ◌≢◌, refl, sym, ap, ap₂, subst, ◌∙◌, ◌⊎◌, Bool, true, false,
  Bool-cases, Option-cases, Option, none, some, inl, inr, List, [], ◌∷◌, ◌++◌, append-nil,
  append_assoc, arith, ltb, ◌==ℕ◌, length, length-append, take, take-length, take-append_le,
}
use control_protocol.Errors.{Error, is_eof, is_transient_error}
use control_protocol.Wire.Writer.{Writer}
use control_protocol.Message.{Message, write_to}
use control_protocol.Message.Format.{encode, bytes_of, header_bytes, length-header_bytes}
use control_protocol.Message.Write.{Sends, write_to-Sends}
use control_protocol.Network.Connection.{
  BaseConnection, Next, again, stopped, blocked, Sent, checked_write, conn_write, after_write_of,
  writer_loop,
}
use control_protocol.Network.Connection.Reading.{encode_all}

-- The bytes of the first message.
abbrev pub first_bytes : List Message → List ℕ
first_bytes [] = []
first_bytes (m ∷ ms) = encode m

module _ {ℓ} {W : Type ℓ} (io : Writer W) where
  open io use {sent}

  conn_write-count :
      (w : W) (m : Message)
      → (conn_write io w m).error ≡ none
      → ((write_to io m w).error ≡ none) × ((write_to io m w).count ≡ m.size + 24)
  unfolding conn_write
  conn_write-count w m h = ground arith

  conn_is : (w : W) (m : Message) → sent (conn_write io w m).conn ≡ sent (write_to io m w).writer
  unfolding conn_write
  conn_is w m = refl

  -- `connWrite` that returns no error has put the whole message on the conn.
  conn_write-whole :
      (w : W) (m : Message)
      → (conn_write io w m).error ≡ none
      → sent (conn_write io w m).conn ≡ sent w ++ encode m
  conn_write-whole w m h =
      let s = write_to-Sends io m w in
      let whole = s.count_all (conn_write-count w m h).0 in
      conn_is w m
      ∙ s.accepted
      ∙ ap (◌++◌ (sent w)) (ap (λ k. take k (encode m)) whole ∙ take-length (encode m))

  -- In any case what was put there is the front of the message.
  conn_write-front :
      (w : W) (m : Message)
      → (k : ℕ) × (sent (conn_write io w m).conn ≡ sent w ++ take k (encode m))
  conn_write-front w m =
      let s = write_to-Sends io m w in ((write_to io m w).count, conn_is w m ∙ s.accepted)

  -- A message whose length field is not its payload's length, such as one of 4 GiB or more, is never
  -- written without an error, also when the conn takes all of it.
  pub conn_write_size :
      (w : W) (m : Message)
      → length m.uuid ≡ 16
      → (conn_write io w m).error ≡ none
      → m.size ≡ length (bytes_of m.payload)
  conn_write_size w m u h =
      let c = conn_write-count w m h in
      let all = (write_to-Sends io m w).count_all c.0 in
      omega (arith, c.1, all, length-header_bytes m.header u, parts)
    where
      parts : length (encode m) ≡ length (header_bytes m.header) + length (bytes_of m.payload)
      parts = unfold encode in length-append (header_bytes m.header) (bytes_of m.payload)

  -- What a run of the loop has done: the messages that left the queue are its first ones, and with
  -- no error signalled they are on the conn, whole, with at most a part of the next one behind them.
  pub record Wrote (w : W) (t : BaseConnection) (r : W × BaseConnection × Next) : Type ℓ where
    pub written : List Message
    pub taken_in_order : t.write_queue ≡ written ++ r.1.write_queue
    pub read_queue_kept : r.1.read_queue ≡ t.read_queue
    pub errors_grow : length t.errors ≤ length r.1.errors
    pub on_conn :
        length r.1.errors ≡ length t.errors
        → (k : ℕ) × (sent r.0
            ≡ sent w ++ encode_all written ++ take k (first_bytes r.1.write_queue))

  Wrote-nothing : (w : W) (t : BaseConnection) (next : Next) → Wrote w t (w, t, next)
  Wrote-nothing w t next = record {
    written = [];
    taken_in_order = refl;
    read_queue_kept = refl;
    errors_grow = omega arith;
    on_conn = λ h. (0, sym (append-nil (sent w ++ []) ∙ append-nil (sent w)));
  }

  -- The loop ends with the message back at the front of the queue.
  Wrote-part :
      (w : W) (t t' : BaseConnection) (m : Message) (rest : List Message) (next : Next)
      → t.write_queue ≡ m ∷ rest
      → t'.write_queue ≡ m ∷ rest
      → t'.read_queue ≡ t.read_queue
      → length t.errors ≤ length t'.errors
      → Wrote w t ((conn_write io w m).conn, t', next)
  Wrote-part w t t' m rest next e e' q grow =
      let (k, front) = conn_write-front w m in
      record {
        written = [];
        taken_in_order = e ∙ sym e';
        read_queue_kept = q;
        errors_grow = grow;
        on_conn = λ h. (
          k,
          front ∙ ap₂ ◌++◌ (sym (append-nil (sent w))) (sym (ap (λ l. take k (first_bytes l)) e')),
        );
      }

  -- One message written, and what the rest of the loop did.
  Wrote-sent :
      (w : W) (t : BaseConnection) (m : Message) (rest : List Message)
      (r : W × BaseConnection × Next)
      → t.write_queue ≡ m ∷ rest
      → (conn_write io w m).error ≡ none
      → Wrote (conn_write io w m).conn (record t { write_queue = rest }) r
      → Wrote w t r
  Wrote-sent w t m rest r e h d = record {
    written = m ∷ d.written;
    taken_in_order = e ∙ ap (◌∷◌ m) d.taken_in_order;
    read_queue_kept = d.read_queue_kept;
    errors_grow = d.errors_grow;
    on_conn = λ same.
        let (k, there) = d.on_conn same in
        (
          k,
          there
              ∙ ap (λ b. b ++ encode_all d.written ++ take k (first_bytes r.1.write_queue))
                  (conn_write-whole w m h)
              ∙ simp append_assoc,
        );
  }

  -- The same message is tried again, behind an error that was signalled.
  Wrote-again :
      (w : W) (t t' : BaseConnection) (m : Message) (r : W × BaseConnection × Next)
      → t'.write_queue ≡ t.write_queue
      → t'.read_queue ≡ t.read_queue
      → length t'.errors ≡ suc (length t.errors)
      → Wrote (conn_write io w m).conn t' r
      → Wrote w t r
  Wrote-again w t t' m r e q more d = record {
    written = d.written;
    taken_in_order = sym e ∙ d.taken_in_order;
    read_queue_kept = d.read_queue_kept ∙ q;
    errors_grow = omega (arith, d.errors_grow);
    on_conn = λ same. absurd (omega (arith, d.errors_grow));
  }
