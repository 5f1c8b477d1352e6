-- ===== src/Network/Connection/Consuming/Asleep.antt =====
-- pkg/network/base_connection.go and message_queue.go: the goroutine that writes misses the wake-up of
-- its context.
use control_protocol.Prelude.{
  ℕ, ◌<◌, ◌≡◌, ◌⊎◌, refl, inl, inr, Bool, true, false, [], ◌∷◌, length, length-append, arith,
}
use control_protocol.Network.Connection.{BaseConnection}
use control_protocol.Network.Connection.Consuming.{
  waiting, watcher_left, Consumption, consume_connection, Step, Steps, here, later, steps_join,
  HasReturned, write_message, signal, read_message, take_error, cancel, conn_ended, context_ended,
  unblock_poll, close_conn, tests_conn, waits, awakes, poll, wrote, write_fails, signal_write,
  reads, read_fails, signal_read, tests_context, leaves,
}
use control_protocol.Network.Connection.Consuming.Teardown.{watcher_left-closed}

-- Nobody is left to wake the goroutine that writes, unless more than `n` messages were appended.
IsAsleep : ℕ → Consumption → Type 0
IsAsleep n s =
    ((s.writer ≡ waiting) × (s.signals ≡ 0) × (s.watcher ≡ watcher_left) × (length s.appended ≡ n))
    ⊎ (n < length s.appended)

step-IsAsleep : (n : ℕ) (s t : Consumption) → Step s t → IsAsleep n s → IsAsleep n t
unfolding IsAsleep
step-IsAsleep n s _ (write_message m) h = inr (ground (arith, h, length-append s.appended (m ∷ [])))
step-IsAsleep n s _ (read_message m rest e) h = h
step-IsAsleep n s _ (take_error e rest f) h = h
step-IsAsleep n s _ cancel h = h
step-IsAsleep n s _ (signal k e) h = ground (arith, h, e)
step-IsAsleep n s _ (conn_ended e f) h = ground (arith, h, e)
step-IsAsleep n s _ (context_ended e f) h = ground (arith, h, e)
step-IsAsleep n s _ (unblock_poll e) h = ground (arith, h, e)
step-IsAsleep n s _ (close_conn e) h = ground (arith, h, e)
step-IsAsleep n s _ (tests_conn e) h = ground (arith, h, e)
step-IsAsleep n s _ (waits e f) h = ground (arith, h, e)
step-IsAsleep n s _ (awakes e) h = ground (arith, h, e)
step-IsAsleep n s _ (poll m rest e f) h = ground (arith, h, e)
step-IsAsleep n s _ (wrote m e) h = ground (arith, h, e)
step-IsAsleep n s _ (write_fails m e f) h = ground (arith, h, f)
step-IsAsleep n s _ (signal_write e f g) h = ground (arith, h, f)
step-IsAsleep n s _ (reads m e) h = h
step-IsAsleep n s _ (read_fails e f) h = h
step-IsAsleep n s _ (signal_read e f g) h = h
step-IsAsleep n s _ (tests_context e) h = h
step-IsAsleep n s _ (leaves e) h = h

steps-IsAsleep : (n : ℕ) (s t : Consumption) → Steps s t → IsAsleep n s → IsAsleep n t
steps-IsAsleep n s _ here h = h
steps-IsAsleep n s t (later {r} before last) h =
    step-IsAsleep n r t last (steps-IsAsleep n s r before h)

-- If the goroutine that writes waits for messages when the goroutine of the contexts has made its
-- broadcast and returned, and no append has its `Signal` still to come: whatever is done from then on,
-- until a message is appended `consumeConnection` does not return, though the conn is closed and
-- `closedConnCtx` is done.
pub waiting-stalls :
    (b : BaseConnection) (context_done : Bool) (s t : Consumption)
    → Steps (consume_connection b context_done) s
    → s.writer ≡ waiting
    → s.watcher ≡ watcher_left
    → s.signals ≡ 0
    → Steps s t
    → ((t.conn_open ≡ false) × (t.conn_done ≡ true) × ¬ HasReturned t)
      ⊎ (length s.appended < length t.appended)
unfolding IsAsleep
waiting-stalls b context_done s t r w left quiet q =
    elim (steps-IsAsleep (length s.appended) s t q (inl (w, quiet, left, refl))) [
      | inl asleep ↦
          let closed =
            watcher_left-closed b context_done t
              (steps_join (consume_connection b context_done) s t r q) asleep.2 in
          inl (closed.0, closed.1, λ d. ground (arith, d, asleep))
      | inr more ↦ inr more
    ]
