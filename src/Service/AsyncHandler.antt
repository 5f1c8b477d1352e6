-- ===== src/Service/AsyncHandler.antt =====
-- pkg/service/async_command_handler.go. The payload type is a parameter: what `UnmarshalBinary` makes
-- of a payload in a new instance, and `SerializedId`. A handler of commands notifies results through
-- `notify_failed` and `notify_success`.
pub mod Results
use control_protocol.Prelude.{ℕ, Option, none, some, List, [], ◌∷◌, ◌++◌, codes}
use control_protocol.Errors.{Error, Text, wrapped, error_text, Result, ok, err}
use control_protocol.Message.{Message, MessageHeader}
use control_protocol.Message.Format.{bytes_of}
use control_protocol.AsyncCommand.{AsyncCommandResult, marshal_binary}
use control_protocol.Service.{Effect, acks, sends, Handler, ack, ack_with_error}

abbrev pub parse_failed : Text
parse_failed = codes "error while parsing the async command: "

-- `message.AsyncCommand` of a payload type
pub record AsyncCommand {ℓ} (C : Type ℓ) : Type ℓ where
  pub unmarshal : List ℕ → Result C
  pub serialized_id : C → List ℕ

pub record AsyncCommandMessage {ℓ} (C : Type ℓ) : Type ℓ where
  pub service_message : Message
  pub parsed_command : C
  pub result_op_code : ℕ

module _ {ℓ} {C : Type ℓ} (command : AsyncCommand C) where
  -- `AsyncCommandMessage.Headers`
  unfoldable pub headers : AsyncCommandMessage C → MessageHeader
  headers ac = ac.service_message.header

  -- `SendAndWaitForAck(ac.resultOpCode, commandResult)`
  send_result : AsyncCommandMessage C → Text → Effect
  send_result ac text = sends ac.result_op_code (
      some (
        marshal_binary
          (record { command_id = command.serialized_id ac.parsed_command; error = text })))

  unfoldable pub notify_success : AsyncCommandMessage C → Effect
  unfolding send_result
  notify_success ac = send_result ac []

  unfoldable pub notify_failed : AsyncCommandMessage C → Option Error → Effect
  unfolding send_result
  notify_failed ac none = notify_success ac
  notify_failed ac (some e) = send_result ac (error_text e)

  module _ {S : Type 0} where
    -- `asyncCommandHandler.HandleServiceMessage`
    unfoldable pub handle_service_message :
        ℕ → (S → AsyncCommandMessage C → S × List Effect) → Handler S
    handle_service_message result_op_code handler s m =
        elim (command.unmarshal (bytes_of m.payload)) [
          | err e ↦ (s, ack_with_error (wrapped parse_failed e) ∷ [])
          | ok parsed ↦
              let asynchronous = handler s (record {
                service_message = m;
                parsed_command = parsed;
                result_op_code = result_op_code;
              }) in
              (asynchronous.0, ack ∷ asynchronous.1)
        ]
