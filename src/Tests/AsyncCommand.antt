-- ===== src/Tests/AsyncCommand.antt =====
-- pkg/message: results of commands.
use control_protocol.Prelude.{ℕ, ◌≡◌, refl, List, [], ◌∷◌, arith}
use control_protocol.Wire.BigEndian.{put_uint32, put_uint64}
use control_protocol.AsyncCommand.{
  AsyncCommandResult, zero_result, returns, panics, overwrite, with_command_id, with_error,
  marshal_binary, unmarshal_binary, parse_async_command_result,
}
use control_protocol.AsyncCommand.RoundTrip.{Fits, unmarshal_binary-marshal_binary}
use control_protocol.AsyncCommand.Truncated.{Cut, parse-Cut}
use control_protocol.AsyncCommand.CommandId.{negsuc, int64_command_id}

abbrev pub failed_command : AsyncCommandResult
failed_command = record { command_id = 5 ∷ 6 ∷ []; error = 110 ∷ 111 ∷ [] }

abbrev failed_bytes : List ℕ
failed_bytes = 0 ∷ 0 ∷ 0 ∷ 2 ∷ 5 ∷ 6 ∷ 0 ∷ 0 ∷ 0 ∷ 2 ∷ 110 ∷ 111 ∷ []

marshal_binary_runs : marshal_binary failed_command ≡ failed_bytes
unfolding marshal_binary with_command_id with_error overwrite put_uint32
marshal_binary_runs = refl

pub failed_command-Fits : Fits (5 ∷ 6 ∷ []) (110 ∷ 111 ∷ [])
failed_command-Fits = record { id_fits = omega arith; text_fits = omega arith }

unmarshal_binary-marshal_binary_example :
    unmarshal_binary zero_result (marshal_binary failed_command) ≡ returns failed_command
unmarshal_binary-marshal_binary_example =
    unmarshal_binary-marshal_binary zero_result failed_command failed_command-Fits

parse-Cut_example : Cut failed_command (0 ∷ 0 ∷ 0 ∷ 2 ∷ 5 ∷ 6 ∷ [])
unfolding marshal_binary with_command_id with_error overwrite put_uint32
parse-Cut_example =
    parse-Cut failed_command (0 ∷ 0 ∷ 0 ∷ 2 ∷ 5 ∷ 6 ∷ []) (0 ∷ 0 ∷ 0 ∷ 2 ∷ 110 ∷ 111 ∷ [])
      failed_command-Fits refl (omega arith)

empty_payload_panics : parse_async_command_result [] ≡ panics
unfolding parse_async_command_result
empty_payload_panics = refl

int64_command_id_runs :
    int64_command_id (negsuc 1) ≡ 255 ∷ 255 ∷ 255 ∷ 255 ∷ 255 ∷ 255 ∷ 255 ∷ 254 ∷ []
unfolding int64_command_id put_uint64
int64_command_id_runs = refl
