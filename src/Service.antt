-- ===== src/Service.antt =====
-- pkg/service.go and pkg/service: messages with their ack function, handlers, and the services that
-- send messages and wait for acks.
pub mod Acks
pub mod Router
pub mod Caching
pub mod AsyncHandler
use control_protocol.Prelude.{ℕ, Option, none, some, List, [], ◌∷◌}
use control_protocol.Errors.{Error}
use control_protocol.Message.{Message, MessageHeader, MessageOpt}

-- `AckOpCode = OpCode(^uint8(0))`
abbrev pub ack_op_code : ℕ
ack_op_code = 255

-- What a handler does to the outside, in order: it calls the ack function of its message, or it
-- sends a message and waits for the ack, of which it only logs the result.
pub data Effect : Type 0 where
  acks : Option Error → Effect
  sends : ℕ → Option (List ℕ) → Effect

-- `MessageHandler`: a handler may keep a state of its own.
abbrev pub Handler : Type 0 → Type 0
Handler S = S → Message → S × List Effect

-- `ServiceMessage.Ack` and `AckWithError`
abbrev pub ack : Effect
ack = acks none

abbrev pub ack_with_error : Error → Effect
ack_with_error e = acks (some e)

-- `NoopMessageHandler`: it logs, and acks.
unfoldable pub noop_message_handler : {S : Type 0} → Handler S
noop_message_handler s m = (s, ack ∷ [])
