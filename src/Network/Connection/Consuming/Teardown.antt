-- ===== src/Network/Connection/Consuming/Teardown.antt =====
-- pkg/network/base_connection.go: when `consumeConnection` closes its conn, and in which state it
-- returns.
use control_protocol.Prelude.{
  ◌≡◌, ◌≢◌, ◌⊎◌, refl, if_both, Bool, true, false, inl, inr, if◌then◌else◌, arith,
}
use control_protocol.Errors.{is_eof, is_transient_error}
use control_protocol.Network.Connection.{BaseConnection}
use control_protocol.Network.Connection.Consuming.{
  Watcher, selecting, watcher_left, ReadLoop, reader_left, Consumption, consume_connection, Step,
  Steps, here, later, write_message, read_message, take_error, cancel, conn_ended, context_ended,
  unblock_poll, close_conn, poll, signal, tests_conn, waits, awakes, wrote, write_fails,
  signal_write, reads, read_fails, signal_read, tests_context, leaves,
}

-- How the contexts, the conn and the goroutines belong together.
pub record Orderly (context_done conn_done conn_open : Bool) (watcher : Watcher) (reader : ReadLoop)
    : Type 0 where
  pub watched : (watcher ≡ selecting) ⊎ (conn_done ≡ true)
  closed : (conn_open ≡ true) ⊎ (watcher ≡ watcher_left)
  closes : (watcher ≢ watcher_left) ⊎ (conn_open ≡ false)
  because : (conn_done ≡ false) ⊎ (reader ≡ reader_left) ⊎ (context_done ≡ true)
  deferred : (reader ≢ reader_left) ⊎ (conn_done ≡ true)

abbrev pub IsOrderly : Consumption → Type 0
IsOrderly s = Orderly s.context_done s.conn_done s.conn_open s.watcher s.reader

consume_connection-IsOrderly :
    (t : BaseConnection) (context_done : Bool) → IsOrderly (consume_connection t context_done)
consume_connection-IsOrderly t context_done = record {
  watched = inl refl;
  closed = inl refl;
  closes = inl (λ e. cc);
  because = inl refl;
  deferred = inl (λ e. cc);
}

-- The goroutine that reads goes on, and is not at its end.
moves :
    {c d o : Bool} {w : Watcher} {r r' : ReadLoop}
    → Orderly c d o w r
    → r ≢ reader_left
    → r' ≢ reader_left
    → Orderly c d o w r'
moves h p n = record {
  watched = h.watched;
  closed = h.closed;
  closes = h.closes;
  because = ground (arith, h, p);
  deferred = inl n;
}

if-ne-reader_left :
    (b : Bool) {r r' : ReadLoop}
    → r ≢ reader_left
    → r' ≢ reader_left
    → (if b then r else r') ≢ reader_left
if-ne-reader_left b p q = if_both (λ x. x ≢ reader_left) b p q

step-IsOrderly : (s t : Consumption) → Step s t → IsOrderly s → IsOrderly t
step-IsOrderly s _ (write_message m) h = h
step-IsOrderly s _ (read_message m rest e) h = h
step-IsOrderly s _ (take_error e rest f) h = h
step-IsOrderly s _ cancel h = record {
  watched = h.watched;
  closed = h.closed;
  closes = h.closes;
  because = inr (inr refl);
  deferred = h.deferred;
}
step-IsOrderly s _ (conn_ended e f) h = record {
  watched = inr f;
  closed = ground (arith, h, e);
  closes = inl (λ p. cc);
  because = h.because;
  deferred = h.deferred;
}
step-IsOrderly s _ (context_ended e f) h = record {
  watched = inr refl;
  closed = ground (arith, h, e);
  closes = inl (λ p. cc);
  because = inr (inr f);
  deferred = inr refl;
}
step-IsOrderly s _ (unblock_poll e) h = record {
  watched = ground (arith, h, e);
  closed = ground (arith, h, e);
  closes = inl (λ p. cc);
  because = h.because;
  deferred = h.deferred;
}
step-IsOrderly s _ (close_conn e) h = record {
  watched = ground (arith, h, e);
  closed = inr refl;
  closes = inr refl;
  because = h.because;
  deferred = h.deferred;
}
step-IsOrderly s _ (poll m rest e f) h = h
step-IsOrderly s _ (signal n e) h = h
step-IsOrderly s _ (tests_conn e) h = h
step-IsOrderly s _ (waits e f) h = h
step-IsOrderly s _ (awakes e) h = h
step-IsOrderly s _ (wrote m e) h = h
step-IsOrderly s _ (write_fails m e f) h = h
step-IsOrderly s _ (signal_write e f g) h = h
step-IsOrderly s _ (reads m e) h = moves h (λ p. cc) (λ p. cc)
step-IsOrderly s _ (read_fails e f) h =
    moves h (λ p. cc) (if-ne-reader_left (is_eof e) (λ p. cc) (λ p. cc))
step-IsOrderly s _ (signal_read e f g) h =
    moves h (λ p. cc) (if-ne-reader_left (is_transient_error e) (λ p. cc) (λ p. cc))
step-IsOrderly s _ (tests_context e) h =
    moves h (λ p. cc) (if-ne-reader_left s.context_done (λ p. cc) (λ p. cc))
step-IsOrderly s _ (leaves e) h = record {
  watched = inr refl;
  closed = h.closed;
  closes = h.closes;
  because = inr (inl refl);
  deferred = inr refl;
}

steps-IsOrderly : (s t : Consumption) → Steps s t → IsOrderly s → IsOrderly t
steps-IsOrderly s _ here h = h
steps-IsOrderly s t (later {r} before last) h =
    step-IsOrderly r t last (steps-IsOrderly s r before h)

-- The conn is open, unless the goroutine that reads has returned or `t.ctx` is done.
pub consume_connection-open :
    (b : BaseConnection) (context_done : Bool) (s : Consumption)
    → Steps (consume_connection b context_done) s
    → (s.conn_open ≡ true) ⊎ (s.reader ≡ reader_left) ⊎ (s.context_done ≡ true)
consume_connection-open b context_done s r =
    let h =
      steps-IsOrderly (consume_connection b context_done) s r
        (consume_connection-IsOrderly b context_done) in
    ground (arith, h)

-- The goroutine of the contexts leaves the conn closed, and `closedConnCtx` is done.
pub watcher_left-closed :
    (b : BaseConnection) (context_done : Bool) (s : Consumption)
    → Steps (consume_connection b context_done) s
    → s.watcher ≡ watcher_left
    → (s.conn_open ≡ false) × (s.conn_done ≡ true)
watcher_left-closed b context_done s r left =
    let h =
      steps-IsOrderly (consume_connection b context_done) s r
        (consume_connection-IsOrderly b context_done) in
    ground (arith, h, left)
