-- ===== src/Service/Acks.antt =====
-- pkg/service/service.go: `SendAndWaitForAck`, the acceptance of messages, and the ack channels
-- that join the two. A step of a goroutine is a function of the state.
pub mod Delivery
pub mod Isolation
pub mod Exchange
pub mod OverTheWire
use control_protocol.Prelude.{
  ℕ, zero, suc, ◌+◌, Bool, true, false, Option, none, some, List, [], ◌∷◌, ◌++◌, ◌==ℕ◌,
  if◌then◌else◌, codes, length,
}
use control_protocol.Prelude.Equality.{nat_eq, bytes_eq}
use control_protocol.Prelude.Maps.{Map, empty, lookup, insert, erase}
use control_protocol.Errors.{Error, Text, plain, error_text, Result, ok, err, ◌>>=◌}
use control_protocol.Message.{Message, new_message}
use control_protocol.Message.Format.{bytes_of}
use control_protocol.Service.{ack_op_code, Effect, acks, sends, Handler}

-- `chan error` with room for one: what it holds, and whether it was closed.
pub record Channel : Type 0 where
  pub holds : Option (Option Error)
  pub closed : Bool

-- `waiting_acks` holds references to channels, which stand in `channels` by number. `outbox` is
-- what was handed to `connection.WriteMessage`. The two handlers keep a state of type `S`.
pub record Service (S : Type 0) : Type 0 where
  pub outbox : List Message
  pub waiting_acks : Map (List ℕ) ℕ
  pub channels : Map ℕ Channel
  pub next_channel : ℕ
  pub handler : Handler S
  pub handler_state : S
  pub error_handler : S → Error → S

abbrev pub cannot_send_ack : Error
cannot_send_ack = plain (codes "you cannot send an ack manually")

-- `newAckMessage`
unfoldable pub new_ack_message : List ℕ → Option Error → Message
new_ack_message uuid none = new_message uuid ack_op_code none []
new_ack_message uuid (some e) = new_message uuid ack_op_code (some (error_text e)) []

-- How a step of a goroutine ends: it goes on, it waits for ever on a full channel, or it panics by
-- a send on a closed channel.
pub data Outcome (S : Type 0) : Type 0 where
  goes_on : Service S → Outcome S
  blocks : Outcome S
  panics : Outcome S

-- The error that an ack message carries.
abbrev pub carried_error : Message → Option Error
carried_error m = if m.size ==ℕ 0 then none else some (plain (bytes_of m.payload))

-- The acks that a handler makes are written with the uuid of its message. What it sends besides
-- goes through `SendAndWaitForAck` of whatever service the handler holds, and is not in the outbox here.
ack_messages : List ℕ → List Effect → List Message
ack_messages uuid [] = []
ack_messages uuid (acks e ∷ effects) = new_ack_message uuid e ∷ ack_messages uuid effects
ack_messages uuid (sends opcode payload ∷ effects) = ack_messages uuid effects

-- `sendBinaryAndWaitForAck` is given what `MarshalBinary` makes of the payload, if that is not nil.
unfoldable pub marshalled : Option (Result (List ℕ)) → Result (Option (List ℕ))
marshalled none = ok none
marshalled (some (ok b)) = ok (some b)
marshalled (some (err e)) = err e

-- `LoggerErrorHandler`: it only logs.
abbrev pub logger_error_handler : {S : Type 0} → S → Error → S
logger_error_handler s e = s

module _ {S : Type 0} where
  write_message : Service S → Message → Service S
  write_message c m = record c { outbox = c.outbox ++ m ∷ [] }

  -- The ack channel of a message: new, and found by the message's uuid.
  register_ack : Service S → List ℕ → Service S
  register_ack c uuid = record c {
    waiting_acks = insert uuid c.next_channel c.waiting_acks;
    channels = insert c.next_channel (record { holds = none; closed = false }) c.channels;
    next_channel = suc c.next_channel;
  }

  -- `sendBinaryAndWaitForAck` up to its `select`, with the uuid that `uuid.New` made: the new state
  -- and the channel to wait on.
  unfoldable pub send_start : Service S → List ℕ → ℕ → Option (List ℕ) → Result (Service S × ℕ)
  unfolding write_message register_ack
  send_start c uuid opcode payload =
      if opcode ==ℕ ack_op_code
      then err cannot_send_ack
      else ok
          (write_message (register_ack c uuid) (new_message uuid opcode payload []), c.next_channel)

  -- The `select` takes what the channel holds; the other two cases need no channel.
  unfoldable pub ack_ready : Service S → ℕ → Option (Option Error)
  ack_ready c i = elim (lookup i c.channels) [ none ↦ none | some ch ↦ ch.holds ]

  -- The deferred function: the uuid waits no longer.
  unfoldable pub send_end : Service S → List ℕ → Service S
  send_end c uuid = record c { waiting_acks = erase uuid c.waiting_acks }

  -- `ackCh <- err; close(ackCh)` on an open channel
  fill : Service S → ℕ → Option (Option Error) → Option Error → Outcome S
  fill c i (some full) e = blocks
  fill c i none e =
      goes_on
        (record c { channels = insert i (record { holds = some e; closed = true }) c.channels })

  -- The same on any channel.
  put_ack : Service S → ℕ → Option Channel → Option Error → Outcome S
  unfolding fill
  put_ack c i none e = goes_on c
  put_ack c i (some ch) e = if ch.closed then panics else fill c i ch.holds e

  accept_ack : Service S → Message → Option ℕ → Outcome S
  unfolding put_ack
  accept_ack c m none = goes_on c
  accept_ack c m (some i) = put_ack c i (lookup i c.channels) (carried_error m)

  run_handler : Service S → Message → S × List Effect → Service S
  run_handler c m (s, effects) = record c {
    handler_state = s;
    outbox = c.outbox ++ ack_messages m.uuid effects;
  }

  unfoldable pub accept : Service S → Message → Outcome S
  unfolding accept_ack run_handler ack_messages
  accept c m =
      if m.opcode ==ℕ ack_op_code
      then accept_ack c m (lookup m.uuid c.waiting_acks)
      else goes_on (run_handler c m (c.handler c.handler_state m))

  -- `MessageHandler(handler)`: the handler is replaced.
  unfoldable pub set_message_handler : Service S → Handler S → S → Service S
  set_message_handler c handler s = record c { handler = handler; handler_state = s }

  -- `NewService`
  unfoldable pub new_service : Handler S → S → Service S
  new_service handler s = record {
    outbox = [];
    waiting_acks = empty;
    channels = empty;
    next_channel = 0;
    handler = handler;
    handler_state = s;
    error_handler = logger_error_handler;
  }

  -- `ErrorHandler(handler)`
  unfoldable pub set_error_handler : Service S → (S → Error → S) → Service S
  set_error_handler c handler = record c { error_handler = handler }

  unfoldable pub accept_error : Service S → Error → Service S
  accept_error c e = record c { handler_state = c.error_handler c.handler_state e }

  unfoldable pub send : Service S → List ℕ → ℕ → Option (Result (List ℕ)) → Result (Service S × ℕ)
  unfolding marshalled
  send c uuid opcode payload = do b ← marshalled payload; send_start c uuid opcode b

-- The case that a `select` takes: the ack, `c.ctx.Done()` with the context's error, or the timer.
pub data Case : Type 0 where
  ack_case timer_case : Case
  context_case : Error → Case

-- The text of the error, less the uuid that `%s` prints in it.
abbrev pub timeout_exceeded : Error
timeout_exceeded = plain (codes "timeout exceeded for outgoing message: ")

module _ {S : Type 0} where
  -- What `sendBinaryAndWaitForAck` returns for each case of its `select`. The ack's case is ready
  -- when its channel holds something; `none` says that it is not.
  unfoldable pub send_result_of : Service S → ℕ → Case → Option (Option Error)
  send_result_of c i ack_case = ack_ready c i
  send_result_of c i timer_case = some (some timeout_exceeded)
  send_result_of c i (context_case e) = some (some e)

  -- The messages of the first polling goroutine, each accepted by a goroutine of its own: the
  -- acceptances in the order in which they come to their steps. A panic ends the process, and one
  -- that blocks does not keep the others.
  after_accept : Service S → Outcome S → (Service S → Outcome S) → Outcome S
  after_accept c (goes_on c') next = next c'
  after_accept c blocks next = next c
  after_accept c panics next = panics

  unfoldable pub accept_all : Service S → List Message → Outcome S
  unfolding after_accept
  accept_all c [] = goes_on c
  accept_all c (m ∷ ms) = after_accept c (accept c m) (λ c'. accept_all c' ms)

-- `ReadMessage` until it returns nil: the messages for which `startPolling` starts an `accept`.
unfoldable pub polled : List (Option Message) → List Message
polled [] = []
polled (none ∷ reads) = []
polled (some m ∷ reads) = m ∷ polled reads

-- What the `select` of the second polling goroutine takes: an error, the end of the channel of
-- errors, or that of the service's context.
pub data ErrorCase : Type 0 where
  error_case : Error → ErrorCase
  channel_closed context_closed : ErrorCase

-- The errors for which it starts an `acceptError`.
unfoldable pub polled_errors : List ErrorCase → List Error
polled_errors [] = []
polled_errors (error_case e ∷ cases) = e ∷ polled_errors cases
polled_errors (channel_closed ∷ cases) = []
polled_errors (context_closed ∷ cases) = []
