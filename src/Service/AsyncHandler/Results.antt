-- ===== src/Service/AsyncHandler/Results.antt =====
-- pkg/service/async_command_handler.go: the result of a command on the other side.
use control_protocol.Prelude.{ℕ, ◌≡◌, refl, ap, Option, none, some, []}
use control_protocol.Errors.{Error, Text, error_text, Result, ok}
use control_protocol.Message.Format.{bytes_of}
use control_protocol.AsyncCommand.{
  marshal_binary, AsyncCommandResult, parse_async_command_result, returns, Call,
}
use control_protocol.AsyncCommand.RoundTrip.{Fits, parse-marshal_binary}
use control_protocol.Service.{Effect, acks, sends}
use control_protocol.Service.AsyncHandler.{
  AsyncCommand, AsyncCommandMessage, notify_failed, notify_success, send_result,
}

-- What the receiver of an effect makes of it, if that is a result that is sent.
abbrev pub parsed : Effect → Option (ℕ × Call (Result AsyncCommandResult))
parsed (acks e) = none
parsed (sends opcode payload) = some (opcode, parse_async_command_result (bytes_of payload))

-- The text of an error that may be nil.
abbrev pub text_of : Option Error → Text
text_of none = []
text_of (some e) = error_text e

-- The result that a notification sends.
abbrev pub notified :
    {C : Type 0} → AsyncCommand C → AsyncCommandMessage C → Option Error → AsyncCommandResult
notified command ac e = record {
  command_id = command.serialized_id ac.parsed_command;
  error = text_of e;
}

pub notify_failed-sends :
    {C : Type 0} (command : AsyncCommand C) (ac : AsyncCommandMessage C) (e : Option Error)
    → notify_failed command ac e
      ≡ sends ac.result_op_code (some (marshal_binary (notified command ac e)))
unfolding notify_failed notify_success send_result
notify_failed-sends command ac none = refl
notify_failed-sends command ac (some e) = refl

module _ {ℓ} {C : Type ℓ} (command : AsyncCommand C) where
  -- The other side parses a notification to a result with the command's id and the error's text,
  -- none for nil: so a command that failed with an empty text arrives as one that succeeded.
  pub parsed-notify_failed :
      (ac : AsyncCommandMessage C) (e : Option Error)
      → Fits (command.serialized_id ac.parsed_command) (text_of e)
      → parsed (notify_failed command ac e)
        ≡ some (
          ac.result_op_code,
          returns (
              ok (record {
                command_id = command.serialized_id ac.parsed_command;
                error = text_of e;
              })),
        )
  unfolding notify_failed notify_success send_result
  parsed-notify_failed ac none f =
      ap (λ r. some (ac.result_op_code, r))
        (parse-marshal_binary
          (record { command_id = command.serialized_id ac.parsed_command; error = [] }) f)
  parsed-notify_failed ac (some e) f =
      ap (λ r. some (ac.result_op_code, r))
        (parse-marshal_binary
          (record { command_id = command.serialized_id ac.parsed_command; error = error_text e }) f)
