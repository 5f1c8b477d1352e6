-- ===== src/Service/Acks/OverTheWire.antt =====
-- pkg/service/service.go over pkg/network/base_connection.go: a message and its ack, from the queue of
-- one service through the loops of two connections to the other service, and back.
use control_protocol.Prelude.{
  ℕ, ◌+◌, ◌<◌, ◌^◌, ◌≡◌, ◌≢◌, refl, sym, ap, subst, ◌∙◌, false, Option, none, some, inl, inr, List,
  [], ◌∷◌, ◌++◌, map, append-nil, arith, length, All,
}
use control_protocol.Errors.{Error, error_text, Result, ok, ok_inj, ◌>>=◌}
use control_protocol.Wire.Writer.{Writer}
use control_protocol.Wire.Stream.{Stream, contents, IsSound}
use control_protocol.Message.{Message, new_message}
use control_protocol.Message.Format.{bytes_of, received, IsWellFormed}
use control_protocol.Network.Connection.{BaseConnection, new_connection, writer_loop, reader_loop}
use control_protocol.Network.Connection.Writing.Loop.{writer_loop-Wrote}
use control_protocol.Network.Connection.Writing.Carry.{Arrived, those, one_more_of, loops-carry}
use control_protocol.Service.{ack_op_code, acks}
use control_protocol.Service.Acks.{
  Service, goes_on, new_ack_message, send, send_start, marshalled, accept, accept_all, after_accept,
  send_result_of, ack_case,
}
use control_protocol.Service.Acks.Delivery.{
  Waits, Fits, conveyed, ack_of, acked, send_start-Waits, accept-acked,
}
use control_protocol.Service.Acks.Exchange.{goes_on_inj, accept-acks}

abbrev pub to_write : List Message → BaseConnection
to_write out = record new_connection { write_queue = out }

new_message-IsWellFormed :
    (uuid : List ℕ) (opcode : ℕ) (bytes : Option (List ℕ))
    → length uuid ≡ 16
    → length (bytes_of bytes) < 2 ^ 32
    → IsWellFormed (new_message uuid opcode bytes [])
unfolding new_message
new_message-IsWellFormed uuid opcode none u b = record {
  uuid_length = u;
  size_exact = refl;
  size_fits = omega arith;
}
new_message-IsWellFormed uuid opcode (some p) u b = record {
  uuid_length = u;
  size_exact = omega (arith, b);
  size_fits = omega (arith, b);
}

new_ack_message-IsWellFormed :
    (uuid : List ℕ) (e : Option Error)
    → length uuid ≡ 16
    → Fits e
    → IsWellFormed (new_ack_message uuid e)
unfolding new_ack_message
new_ack_message-IsWellFormed uuid none u f =
    new_message-IsWellFormed uuid ack_op_code none u (omega arith)
new_ack_message-IsWellFormed uuid (some e) u f =
    new_message-IsWellFormed uuid ack_op_code (some (error_text e)) u f

module _ {ℓ} {W : Type ℓ} (io : Writer W) where
  -- Two connections joined by a fresh conn: the writing loop of one sends all of `out` without an
  -- error, and the reading loop of the other, which gets those bytes in any parts, has read `got`.
  pub record Link (out got : List Message) : Type ℓ where
    pub conn : W
    pub rounds_out : ℕ
    pub rounds_in : ℕ
    pub arrivals : Stream
    pub fresh : Writer.sent io conn ≡ []
    pub all_written : (writer_loop io rounds_out conn (to_write out)).1.write_queue ≡ []
    pub no_errors : (writer_loop io rounds_out conn (to_write out)).1.errors ≡ []
    pub sound : IsSound arrivals
    pub same_bytes :
        contents arrivals ≡ Writer.sent io (writer_loop io rounds_out conn (to_write out)).0
    pub enough : length out + 1 < rounds_in
    pub reads : got ≡ (reader_loop rounds_in (λ i. false) arrivals new_connection).0.read_queue

  whole-Arrived :
      (written kept ms : List Message) → Arrived written kept ms → kept ≡ [] → ms ≡ written
  whole-Arrived written kept ms (those e) k = e
  whole-Arrived written kept ms (one_more_of m rest e f) k = absurd (ground (arith, e, k))

  Link-received :
      (out got : List Message) → All IsWellFormed out → Link out got → got ≡ map received out
  Link-received out got v l =
      let d = writer_loop-Wrote io l.rounds_out l.conn (to_write out) in
      let c =
        loops-carry io l.rounds_out l.rounds_in l.conn (to_write out) new_connection l.arrivals
          l.fresh v (ap length l.no_errors) l.sound l.same_bytes l.enough in
      l.reads
      ∙ ap (λ r. r.0.read_queue) c.delivered
      ∙ ap (map received) (
          whole-Arrived d.written _ c.messages c.arrived l.all_written
          ∙ sym (
              d.taken_in_order
              ∙ ap (λ kept. d.written ++ kept) l.all_written
              ∙ append-nil d.written))

  -- What the service that sends got to write.
  sent_message :
      {S : Type 0} (a a' : Service S) (uuid : List ℕ) (opcode : ℕ) (bytes : Option (List ℕ)) (i : ℕ)
      → send_start a uuid opcode bytes ≡ ok (a', i)
      → (opcode ≢ ack_op_code)
        × (a'.outbox ≡ a.outbox ++ new_message uuid opcode bytes [] ∷ [])
        × Waits a' uuid i
  sent_message a a' uuid opcode bytes i h = elim (send_start-Waits a uuid opcode bytes) [
    | inl (is_ack, e) ↦ absurd (ground (arith, h, e))
    | inr (other, d, e, out, w) ↦
        let same = ok_inj (d, a.next_channel) (a', i) (sym e ∙ h) in
        (other, sym (ap (λ r. r.0.outbox) same) ∙ out, subst (λ r. Waits r.0 uuid r.1) same w)
  ]

  pub accept_all-one :
      {S : Type 0} (c d : Service S) (m : Message)
      → accept c m ≡ goes_on d
      → accept_all c (m ∷ []) ≡ goes_on d
  unfolding accept_all after_accept
  accept_all-one c d m h = rw (h, after_accept) refl

  -- What the other service has to accept, where the sender was idle.
  pub Link-request :
      {S : Type 0} (a a' : Service S) (uuid : List ℕ) (opcode : ℕ)
      (payload : Option (Result (List ℕ))) (bytes : Option (List ℕ)) (i : ℕ)
      (request : List Message)
      → a.outbox ≡ []
      → length uuid ≡ 16
      → marshalled payload ≡ ok bytes
      → length (bytes_of bytes) < 2 ^ 32
      → send a uuid opcode payload ≡ ok (a', i)
      → Link a'.outbox request
      → (opcode ≢ ack_op_code)
        × Waits a' uuid i
        × (request ≡ received (new_message uuid opcode bytes []) ∷ [])
  unfolding send
  Link-request a a' uuid opcode payload bytes i request idle u p fits h there =
      let (other, out, waits) =
        sent_message a a' uuid opcode bytes i
          (ap (λ r. r >>= send_start a uuid opcode) (sym p) ∙ h) in
      let message = new_message uuid opcode bytes [] in
      let one : a'.outbox ≡ message ∷ [] = out ∙ ap (λ l. l ++ message ∷ []) idle in
      (
        other,
        waits,
        Link-received (message ∷ []) request (new_message-IsWellFormed uuid opcode bytes u fits, tt)
            (subst (λ l. Link l request) one there),
      )

  -- Between two services that have nothing else to send, `SendAndWaitForAck` returns what the other
  -- side's handler acked, as its text, where each of the two messages goes through the loops of two
  -- connections joined by a conn that takes it without an error.
  pub Link-send :
      {S T : Type 0} (a a' : Service S) (b b' : Service T) (uuid : List ℕ) (opcode : ℕ)
      (payload : Option (Result (List ℕ))) (bytes : Option (List ℕ)) (i : ℕ) (t : T)
      (e : Option Error) (request reply : List Message)
      → a.outbox ≡ []
      → b.outbox ≡ []
      → length uuid ≡ 16
      → marshalled payload ≡ ok bytes
      → length (bytes_of bytes) < 2 ^ 32
      → send a uuid opcode payload ≡ ok (a', i)
      → Link a'.outbox request
      → b.handler b.handler_state (received (new_message uuid opcode bytes [])) ≡ (t, acks e ∷ [])
      → Fits e
      → accept_all b request ≡ goes_on b'
      → Link b'.outbox reply
      → (a'' : Service S) × (accept_all a' reply ≡ goes_on a'')
        × (send_result_of a'' i ack_case ≡ some (conveyed e))
  unfolding send_result_of received new_message
  Link-send a a' b b' uuid opcode payload bytes i t e request reply a_idle b_idle u p fits h there k
        f run back =
      let (other, waits, asked) =
        Link-request a a' uuid opcode payload bytes i request a_idle u p fits h there in
      let message = new_message uuid opcode bytes [] in
      let (b1, accepted, answers) = accept-acks b (received message) t e (λ q. other q) k in
      let same : b' ≡ b1 =
        goes_on_inj b' b1
          (sym run ∙ ap (accept_all b) asked ∙ accept_all-one b b1 (received message) accepted) in
      let answer : b'.outbox ≡ new_ack_message uuid e ∷ [] =
        ap (λ x. x.outbox) same ∙ answers ∙ ap (λ l. l ++ new_ack_message uuid e ∷ []) b_idle in
      let replied : reply ≡ ack_of uuid e ∷ [] =
        Link-received (new_ack_message uuid e ∷ []) reply
          (new_ack_message-IsWellFormed uuid e u f, tt) (subst (λ l. Link l reply) answer back) in
      let (acks_it, ready) = accept-acked a' uuid i e waits f in
      (
        acked a' i (conveyed e),
        ap (accept_all a') replied
            ∙ accept_all-one a' (acked a' i (conveyed e)) (ack_of uuid e) acks_it,
        ready,
      )
