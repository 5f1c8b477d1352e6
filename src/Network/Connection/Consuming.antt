-- ===== src/Network/Connection/Consuming.antt =====
-- pkg/network/base_connection.go: `consumeConnection` as a step relation. Its three goroutines, the
-- users of the connection and whoever cancels `t.ctx` take their steps in any order. A read or a
-- write of the conn may end in any way at any time, which covers what a real one does.
pub mod Teardown
pub mod Ended
pub mod Fifo
pub mod Asleep
use control_protocol.Prelude.{
  ℕ, suc, ◌<◌, ◌≡◌, Bool, true, false, List, [], ◌∷◌, ◌++◌, if◌then◌else◌, length,
}
use control_protocol.Errors.{Error, is_eof, is_transient_error}
use control_protocol.Message.{Message}
use control_protocol.Network.Connection.{BaseConnection}

-- The goroutine of the two contexts: in its `select`, before `unblockPoll`, before `conn.Close`, or
-- at its end.
pub data Watcher : Type 0 where
  selecting unblocking closing watcher_left : Watcher

-- The goroutine that writes: in `blockingPoll` before its first test of `closedConnCtx`, before its look
-- at the queue, in `cond.Wait`, or woken, before its next test of `closedConnCtx`; in `connWrite`,
-- before the send of its error, or at its end.
pub data WriteLoop : Type 0 where
  polling taking waiting woken writer_left : WriteLoop
  writing : Message → WriteLoop
  write_failed : Error → WriteLoop

-- `cond.Signal` and `cond.Broadcast` wake the goroutine that waits, and are lost where it does not.
abbrev pub wake_writer : WriteLoop → WriteLoop
wake_writer waiting = woken
wake_writer polling = polling
wake_writer taking = taking
wake_writer woken = woken
wake_writer writer_left = writer_left
wake_writer (writing m) = writing m
wake_writer (write_failed e) = write_failed e

-- The goroutine that reads: in `connRead`, before the send of its error, before its test of `t.ctx`,
-- in the deferred `closedConnCancel`, or at its end.
pub data ReadLoop : Type 0 where
  reading testing leaving reader_left : ReadLoop
  read_failed : Error → ReadLoop

-- `signals` counts the appends whose `Signal` is still to come, `conn_done` tells whether
-- `closedConnCtx` is done, and `context_done` whether `t.ctx` is. The last four fields record what was handed to `WriteMessage` so far, and what `connWrite` sent, `connRead`
-- read and `ReadMessage` returned without an error.
pub record Consumption : Type 0 where
  pub base : BaseConnection
  pub signals : ℕ
  pub context_done : Bool
  pub conn_done : Bool
  pub conn_open : Bool
  pub watcher : Watcher
  pub writer : WriteLoop
  pub reader : ReadLoop
  pub appended : List Message
  pub sent : List Message
  pub arrived : List Message
  pub returned : List Message

-- `consumeConnection` has started its goroutines. The queues hold what an earlier conn left, and the
-- appends of then have signalled.
abbrev pub consume_connection : BaseConnection → Bool → Consumption
consume_connection t context_done = record {
  base = t;
  signals = 0;
  context_done = context_done;
  conn_done = false;
  conn_open = true;
  watcher = selecting;
  writer = polling;
  reader = reading;
  appended = t.write_queue;
  sent = [];
  arrived = t.read_queue;
  returned = [];
}

abbrev pub send_error : BaseConnection → Error → BaseConnection
send_error t e = record t { errors = t.errors ++ e ∷ [] }

pub data Step (s : Consumption) : Consumption → Type 0 where
  -- `WriteMessage` and its `Signal`, `ReadMessage`, a receive from `Errors()`, and the end of `t.ctx`
  write_message :
      (m : Message)
      → Step s (record s {
        base = record s.base { write_queue = s.base.write_queue ++ m ∷ [] };
        signals = suc s.signals;
        appended = s.appended ++ m ∷ [];
      })
  signal :
      (n : ℕ) → s.signals ≡ suc n → Step s (record s { signals = n; writer = wake_writer s.writer })
  read_message :
      (m : Message) (rest : List Message)
      → s.base.read_queue ≡ m ∷ rest
      → Step s
          (record s { base = record s.base { read_queue = rest }; returned = s.returned ++ m ∷ [] })
  take_error :
      (e : Error) (rest : List Error)
      → s.base.errors ≡ e ∷ rest
      → Step s (record s { base = record s.base { errors = rest } })
  cancel : Step s (record s { context_done = true })
  -- The goroutine of the two contexts
  conn_ended :
      s.watcher ≡ selecting → s.conn_done ≡ true → Step s (record s { watcher = unblocking })
  context_ended :
      s.watcher ≡ selecting
      → s.context_done ≡ true
      → Step s (record s { watcher = unblocking; conn_done = true })
  unblock_poll :
      s.watcher ≡ unblocking
      → Step s (record s { watcher = closing; writer = wake_writer s.writer })
  close_conn : s.watcher ≡ closing → Step s (record s { watcher = watcher_left; conn_open = false })
  -- The goroutine that writes. A poll that tested its context before that was done may still take a
  -- message, or wait and miss the wake-up. The code has the lock from the end of a wait to the look at
  -- the queue: an append between the two here is the same as one before them.
  tests_conn :
      s.writer ≡ polling
      → Step s (record s { writer = if s.conn_done then writer_left else taking })
  waits : s.writer ≡ taking → s.base.write_queue ≡ [] → Step s (record s { writer = waiting })
  awakes :
      s.writer ≡ woken → Step s (record s { writer = if s.conn_done then writer_left else taking })
  poll :
      (m : Message) (rest : List Message)
      → s.writer ≡ taking
      → s.base.write_queue ≡ m ∷ rest
      → Step s (record s { base = record s.base { write_queue = rest }; writer = writing m })
  wrote :
      (m : Message)
      → s.writer ≡ writing m
      → Step s (record s { writer = polling; sent = s.sent ++ m ∷ [] })
  write_fails :
      (m : Message) (e : Error)
      → s.writer ≡ writing m
      → Step s (record s {
        base = record s.base { write_queue = m ∷ s.base.write_queue };
        writer = if is_eof e then writer_left else write_failed e;
      })
  signal_write :
      (e : Error)
      → s.writer ≡ write_failed e
      → length s.base.errors < 10
      → Step s (record s {
        base = send_error s.base e;
        writer = if is_transient_error e then polling else writer_left;
      })
  -- The goroutine that reads
  reads :
      (m : Message)
      → s.reader ≡ reading
      → Step s (record s {
        base = record s.base { read_queue = s.base.read_queue ++ m ∷ [] };
        reader = testing;
        arrived = s.arrived ++ m ∷ [];
      })
  read_fails :
      (e : Error)
      → s.reader ≡ reading
      → Step s (record s { reader = if is_eof e then leaving else read_failed e })
  signal_read :
      (e : Error)
      → s.reader ≡ read_failed e
      → length s.base.errors < 10
      → Step s (record s {
        base = send_error s.base e;
        reader = if is_transient_error e then testing else leaving;
      })
  tests_context :
      s.reader ≡ testing
      → Step s (record s { reader = if s.context_done then leaving else reading })
  leaves : s.reader ≡ leaving → Step s (record s { reader = reader_left; conn_done = true })

pub data Steps (s : Consumption) : Consumption → Type 0 where
  here : Steps s s
  later : {r t : Consumption} → Steps s r → Step r t → Steps s t

pub steps_join : (s r t : Consumption) → Steps s r → Steps r t → Steps s t
steps_join s r _ before here = before
steps_join s r t before (later {r = q} after last) = later (steps_join s r q before after) last

-- `wg.Wait()` is over: each of the three has called `wg.Done`.
abbrev pub HasReturned : Consumption → Type 0
HasReturned s = (s.watcher ≡ watcher_left) × (s.writer ≡ writer_left) × (s.reader ≡ reader_left)
