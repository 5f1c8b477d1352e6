-- ===== src/Network/Connection.antt =====
-- pkg/network/base_connection.go: `connRead`, `connWrite`, and the two loops that
-- `consumeConnection` runs over one `net.Conn`. The conn is an `io.Writer` one way and a stream of
-- arrivals the other.
pub mod Reading
pub mod Writing
pub mod Consuming
pub mod Typed
use control_protocol.Prelude.{
  ℕ, zero, suc, ◌+◌, Bool, true, false, Option, none, some, List, [], ◌∷◌, ◌++◌, ltb, ◌==ℕ◌,
  if◌then◌else◌, length,
}
use control_protocol.Errors.{Error, plain, Result, ok, err, is_eof, is_transient_error}
use control_protocol.Wire.Stream.{Stream}
use control_protocol.Wire.Writer.{Writer, WriteResult}
use control_protocol.Message.{Message, zero_message, ReadFrom, read_from, write_to}

-- The text of the error is the source's; the two numbers in it are left out.
abbrev pub count_mismatch : Error
count_mismatch = plain []

-- What `connRead` returns, and the stream it leaves.
pub record Received : Type 0 where
  pub result : Result Message
  pub rest : Stream

checked_read : ReadFrom → Result Message
checked_read r = elim r.error [
  | some e ↦ err e
  | none ↦ if r.count ==ℕ r.message.size + 24 then ok r.message else err count_mismatch
]

unfoldable pub conn_read : Stream → Received
unfolding checked_read
conn_read s = let r = read_from zero_message s in record { result = checked_read r; rest = r.rest }

-- What `connWrite` returns, and the conn it leaves.
pub record Sent {ℓ} (W : Type ℓ) : Type ℓ where
  pub conn : W
  pub error : Option Error

module _ {ℓ} {W : Type ℓ} (io : Writer W) where
  checked_write : Message → WriteResult W → Option Error
  checked_write m r = elim r.error [
    | some e ↦ some e
    | none ↦ if r.count ==ℕ m.size + 24 then none else some count_mismatch
  ]

  unfoldable pub conn_write : W → Message → Sent W
  unfolding checked_write
  conn_write w m = let r = write_to io m w in record { conn = r.writer; error = checked_write m r }

-- `baseTcpConnection`: the two queues, and the errors sent on `unrecoverableErrors`. Sending blocks
-- while ten errors are in the channel.
pub record BaseConnection : Type 0 where
  pub write_queue : List Message
  pub read_queue : List Message
  pub errors : List Error

abbrev pub new_connection : BaseConnection
new_connection = record { write_queue = []; read_queue = []; errors = [] }

-- How a loop goes on.
pub data Next : Type 0 where
  again stopped blocked : Next

-- `t.unrecoverableErrors <- err`, and the test that follows it.
after_error : BaseConnection → Error → BaseConnection × Next
after_error t e =
    if ltb (length t.errors) 10
    then (record t { errors = t.errors ++ e ∷ [] }, if is_transient_error e then again else stopped)
    else (t, blocked)

-- One round of the writing loop, behind the poll of `msg`.
unfoldable pub after_write_of : BaseConnection → Message → Option Error → BaseConnection × Next
unfolding after_error
after_write_of t msg none = (t, again)
after_write_of t msg (some e) =
    let re_enqueued = record t { write_queue = msg ∷ t.write_queue } in
    if is_eof e then (re_enqueued, stopped) else after_error re_enqueued e

-- One round of the reading loop, behind `connRead`; `closed` is `t.ctx.Err() != nil` at its end.
unfoldable pub after_read_of : BaseConnection → Result Message → Bool → BaseConnection × Next
unfolding after_error
after_read_of t (ok msg) closed =
    (record t { read_queue = t.read_queue ++ msg ∷ [] }, if closed then stopped else again)
after_read_of t (err e) closed = if is_eof e then (t, stopped) else error_round (after_error t e)
  where
    error_round : BaseConnection × Next → BaseConnection × Next
    error_round (t', again) = (t', if closed then stopped else again)
    error_round (t', stopped) = (t', stopped)
    error_round (t', blocked) = (t', blocked)

-- The reading loop, for a number of rounds; `closed i` tells whether `t.ctx` is closed at the end
-- of round `i`.
unfoldable pub reader_loop : ℕ → (ℕ → Bool) → Stream → BaseConnection → BaseConnection × Next
reader_loop zero closed s t = (t, again)
reader_loop (suc n) closed s t =
    let r = conn_read s in
    let (t', next) = after_read_of t r.result (closed 0) in
    elim next [
      | again ↦ reader_loop n (λ i. closed (suc i)) r.rest t'
      | stopped ↦ (t', stopped)
      | blocked ↦ (t', blocked)
    ]

module _ {ℓ} {W : Type ℓ} (io : Writer W) where
  -- The writing loop, for a number of rounds. With no message at hand it waits in the poll.
  unfoldable pub writer_loop : ℕ → W → BaseConnection → (W × BaseConnection × Next)
  writer_loop zero w t = (w, t, again)
  writer_loop (suc n) w t = elim t.write_queue [
    | [] ↦ (w, t, again)
    | m ∷ rest ↦
        let s = conn_write io w m in
        let (t', next) = after_write_of (record t { write_queue = rest }) m s.error in
        elim next [
          | again ↦ writer_loop n s.conn t'
          | stopped ↦ (s.conn, t', stopped)
          | blocked ↦ (s.conn, t', blocked)
        ]
  ]
