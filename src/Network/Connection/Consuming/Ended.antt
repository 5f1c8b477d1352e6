-- ===== src/Network/Connection/Consuming/Ended.antt =====
-- pkg/network/base_connection.go: what happens on a conn behind the end of its goroutines.
use control_protocol.Prelude.{
  ◌≡◌, ◌⊎◌, refl, sym, ap, ◌∙◌, Bool, true, false, List, [], ◌∷◌, ◌++◌, append_assoc, arith,
}
use control_protocol.Errors.{Error}
use control_protocol.Message.{Message}
use control_protocol.Network.Connection.{BaseConnection}
use control_protocol.Network.Connection.Consuming.{
  writer_left, wake_writer, reader_left, Consumption, consume_connection, Step, Steps, here, later,
  steps_join, HasReturned, write_message, read_message, take_error, cancel, conn_ended,
  context_ended, unblock_poll, close_conn, poll, signal, tests_conn, waits, awakes, wrote,
  write_fails, signal_write, reads, read_fails, signal_read, tests_context, leaves,
}
use control_protocol.Network.Connection.Consuming.Teardown.{
  consume_connection-open, watcher_left-closed,
}

-- The goroutine that writes is at its end, and has sent these messages.
HasSent : List Message → Consumption → Type 0
HasSent ms s = (s.writer ≡ writer_left) × (s.sent ≡ ms)

step-HasSent : (ms : List Message) (s t : Consumption) → Step s t → HasSent ms s → HasSent ms t
unfolding HasSent
step-HasSent ms s _ (write_message m) h = h
step-HasSent ms s _ (read_message m rest e) h = h
step-HasSent ms s _ (take_error e rest f) h = h
step-HasSent ms s _ cancel h = h
step-HasSent ms s _ (conn_ended e f) h = h
step-HasSent ms s _ (context_ended e f) h = h
step-HasSent ms s _ (signal n e) h = (ap wake_writer h.0, h.1)
step-HasSent ms s _ (unblock_poll e) h = (ap wake_writer h.0, h.1)
step-HasSent ms s _ (close_conn e) h = h
step-HasSent ms s _ (poll m rest e f) h = absurd (ground (arith, h, e))
step-HasSent ms s _ (tests_conn e) h = absurd (ground (arith, h, e))
step-HasSent ms s _ (waits e f) h = absurd (ground (arith, h, e))
step-HasSent ms s _ (awakes e) h = absurd (ground (arith, h, e))
step-HasSent ms s _ (wrote m e) h = absurd (ground (arith, h, e))
step-HasSent ms s _ (write_fails m e f) h = absurd (ground (arith, h, f))
step-HasSent ms s _ (signal_write e f g) h = absurd (ground (arith, h, f))
step-HasSent ms s _ (reads m e) h = h
step-HasSent ms s _ (read_fails e f) h = h
step-HasSent ms s _ (signal_read e f g) h = h
step-HasSent ms s _ (tests_context e) h = h
step-HasSent ms s _ (leaves e) h = h

steps-HasSent : (ms : List Message) (s t : Consumption) → Steps s t → HasSent ms s → HasSent ms t
steps-HasSent ms s _ here h = h
steps-HasSent ms s t (later {r} before last) h =
    step-HasSent ms r t last (steps-HasSent ms s r before h)

-- Once the goroutine that writes has returned, as it does on an error that breaks the conn, nothing
-- more is sent on the conn, and yet the conn stays open until the goroutine that reads has returned
-- or `t.ctx` is done.
pub writer_left-stalls :
    (b : BaseConnection) (context_done : Bool) (s t : Consumption)
    → Steps (consume_connection b context_done) s
    → s.writer ≡ writer_left
    → Steps s t
    → (t.sent ≡ s.sent)
      × ((t.conn_open ≡ true) ⊎ (t.reader ≡ reader_left) ⊎ (t.context_done ≡ true))
unfolding HasSent
writer_left-stalls b context_done s t r w q = (
  (steps-HasSent s.sent s t q (w, refl)).1,
  consume_connection-open b context_done t (steps_join (consume_connection b context_done) s t r q),
)

-- What the goroutines of `s` leave to others when all three have returned: only errors are taken.
abbrev pub Over : Consumption → Consumption → Type 0
Over s t =
    HasReturned t
    × (t.sent ≡ s.sent)
    × (t.arrived ≡ s.arrived)
    × (es : List Error) × (s.base.errors ≡ es ++ t.base.errors)

step-Over : (a s t : Consumption) → Step s t → Over a s → Over a t
step-Over a s _ (write_message m) h = h
step-Over a s _ (read_message m rest e) h = h
step-Over a s _ (take_error e rest f) h = (
  h.0,
  h.1,
  h.2,
  h.3 ++ e ∷ [],
  h.4 ∙ ap (λ es. h.3 ++ es) f ∙ sym (append_assoc h.3 (e ∷ []) rest),
)
step-Over a s _ cancel h = h
step-Over a s _ (conn_ended e f) h = absurd (ground (arith, h.0, e))
step-Over a s _ (context_ended e f) h = absurd (ground (arith, h.0, e))
step-Over a s _ (unblock_poll e) h = absurd (ground (arith, h.0, e))
step-Over a s _ (close_conn e) h = absurd (ground (arith, h.0, e))
step-Over a s _ (poll m rest e f) h = absurd (ground (arith, h.0, e))
step-Over a s _ (signal n e) h = ((h.0.0, ap wake_writer h.0.1, h.0.2), h.1, h.2, h.3, h.4)
step-Over a s _ (tests_conn e) h = absurd (ground (arith, h.0, e))
step-Over a s _ (waits e f) h = absurd (ground (arith, h.0, e))
step-Over a s _ (awakes e) h = absurd (ground (arith, h.0, e))
step-Over a s _ (wrote m e) h = absurd (ground (arith, h.0, e))
step-Over a s _ (write_fails m e f) h = absurd (ground (arith, h.0, f))
step-Over a s _ (signal_write e f g) h = absurd (ground (arith, h.0, f))
step-Over a s _ (reads m e) h = absurd (ground (arith, h.0, e))
step-Over a s _ (read_fails e f) h = absurd (ground (arith, h.0, f))
step-Over a s _ (signal_read e f g) h = absurd (ground (arith, h.0, f))
step-Over a s _ (tests_context e) h = absurd (ground (arith, h.0, e))
step-Over a s _ (leaves e) h = absurd (ground (arith, h.0, e))

steps-Over : (a s t : Consumption) → Steps s t → Over a s → Over a t
steps-Over a s _ here h = h
steps-Over a s t (later {r} before last) h = step-Over a r t last (steps-Over a s r before h)

-- When `consumeConnection` returns, the conn is closed and `closedConnCtx` is done; and whatever the
-- users of the connection do then, nothing is sent or read on the conn any more, and nothing is sent
-- on `unrecoverableErrors`, which `cleanup` closes.
pub HasReturned-quiet :
    (b : BaseConnection) (context_done : Bool) (s t : Consumption)
    → Steps (consume_connection b context_done) s
    → HasReturned s
    → Steps s t
    → (s.conn_open ≡ false) × (s.conn_done ≡ true) × Over s t
HasReturned-quiet b context_done s t r d q =
    let (closed, done) = watcher_left-closed b context_done s r d.0 in
    (closed, done, steps-Over s s t q (d, refl, refl, [], refl))
