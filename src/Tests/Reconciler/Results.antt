-- ===== src/Tests/Reconciler/Results.antt =====
-- The result of a command, on its way from a pod to the query of the store.
use control_protocol.Prelude.{
  ℕ, ◌≡◌, refl, sym, ap, subst, none, some, List, [], ◌∷◌, if◌then◌else◌, arith,
}
use control_protocol.Prelude.Equality.{nat_eq, bytes_equal, bytes_eq}
use control_protocol.Prelude.Maps.{empty, insert, lookup}
use control_protocol.Errors.{ok, error_text, is_eof}
use control_protocol.Wire.BigEndian.{put_uint32, uint32}
use control_protocol.Wire.Stream.{chunk, read_full}
use control_protocol.Message.{
  Message, new_message, write_to, write_header_to, read_from, message_header_from_bytes,
}
use control_protocol.Message.Format.{received, encode, header_bytes}
use control_protocol.AsyncCommand.{
  with_error, overwrite, with_command_id, parse_async_command_result, AsyncCommandResult, Call,
  returns, panics, marshal_binary,
}
use control_protocol.AsyncCommand.RoundTrip.{Fits}
use control_protocol.Network.Connection.{
  writer_loop, reader_loop, conn_write, conn_read, after_write_of, after_read_of,
}
use control_protocol.Service.{Handler, Effect, sends}
use control_protocol.Service.Acks.{
  Service, new_service, send, send_start, accept_all, accept, marshalled, goes_on, send_result_of,
  ack_case, new_ack_message,
}
use control_protocol.Service.Acks.OverTheWire.{Link}
use control_protocol.Service.Router.{MessageRouter, route}
use control_protocol.Service.AsyncHandler.{notify_failed}
use control_protocol.Service.AsyncHandler.Results.{notify_failed-sends}
use control_protocol.Reconciler.NotificationStore.{NotificationStore, message_handler}
use control_protocol.Reconciler.CommandResults.{
  command_result_handler, get_command_result, result_eq,
}
use control_protocol.Reconciler.CommandResults.Delivered.{get-delivered}
use control_protocol.Tests.Message.{uuid, buffers}
use control_protocol.Tests.Service.{idle_service, refusal, byte_command, third_command}

abbrev Store : Type 0
Store = NotificationStore ℕ ℕ AsyncCommandResult

abbrev fresh_store : Store
fresh_store = record { notification_store = empty; enqueued = [] }

abbrev or_nothing : Store → Call (Store × List Effect) → Store × List Effect
or_nothing n (returns r) = r
or_nothing n panics = (n, [])

abbrev pod_handler : Handler Store
pod_handler n m = or_nothing n (command_result_handler 1 2 n m)

abbrev pods : MessageRouter Store
pods = insert 20 pod_handler empty

abbrev controller : Service Store
controller = new_service (route pods) fresh_store

abbrev no_result : List ℕ
no_result = 0 ∷ 0 ∷ 0 ∷ 1 ∷ 3 ∷ 0 ∷ 0 ∷ 0 ∷ 2 ∷ 110 ∷ 111 ∷ []

abbrev request : Message
request = new_message uuid 20 (some no_result) []

abbrev reply : Message
reply = new_ack_message uuid none

notifies : notify_failed byte_command third_command (some refusal) ≡ sends 20 (some no_result)
unfolding marshal_binary error_text with_error overwrite with_command_id put_uint32
notifies = notify_failed-sends byte_command third_command (some refusal)

notified-Fits : Fits (3 ∷ []) (error_text refusal)
unfolding error_text
notified-Fits = record { id_fits = omega arith; text_fits = omega arith }

sends_result :
    (c : Service ℕ) × (send idle_service uuid 20 (some (ok no_result)) ≡ ok (c, 0))
    × (c.outbox ≡ request ∷ [])
unfolding send send_start marshalled new_service
sends_result = (_, refl, refl)

takes_result :
    (c : Service Store) × (accept_all controller (received request ∷ []) ≡ goes_on c)
    × (c.outbox ≡ reply ∷ [])
unfolding accept_all accept new_message new_service received route command_result_handler lookup
    empty insert parse_async_command_result uint32 message_handler
takes_result = (_, refl, refl)

request-Link : Link buffers (request ∷ []) (received request ∷ [])
unfolding writer_loop conn_write after_write_of write_to write_header_to put_uint32 new_message
    encode header_bytes received reader_loop conn_read read_from read_full message_header_from_bytes
    uint32 after_read_of is_eof
request-Link = record {
  conn = record { room = 100; held = [] };
  rounds_out = 2;
  rounds_in = 3;
  arrivals = chunk (encode request) ∷ [];
  fresh = refl;
  all_written = refl;
  no_errors = refl;
  sound = tt;
  same_bytes = refl;
  enough = omega arith;
  reads = refl;
}

reply-Link : Link buffers (reply ∷ []) (received reply ∷ [])
unfolding writer_loop conn_write after_write_of write_to write_header_to put_uint32 new_message
    new_ack_message error_text encode header_bytes received reader_loop conn_read read_from
    read_full message_header_from_bytes uint32 after_read_of is_eof
reply-Link = record {
  conn = record { room = 100; held = [] };
  rounds_out = 2;
  rounds_in = 3;
  arrivals = chunk (encode reply) ∷ [];
  fresh = refl;
  all_written = refl;
  no_errors = refl;
  sound = tt;
  same_bytes = refl;
  enough = omega arith;
  reads = refl;
}

get-delivered_example :
    ((c : Service ℕ) × (accept_all sends_result.0 (received reply ∷ []) ≡ goes_on c)
      × (send_result_of c 0 ack_case ≡ some none))
    × ((id : List ℕ)
        → get_command_result takes_result.0.handler_state 1 2 id
          ≡ returns (
              if bytes_equal (3 ∷ []) id
              then some (record { command_id = 3 ∷ []; error = error_text refusal })
              else none))
unfolding new_service lookup insert
get-delivered_example =
    get-delivered buffers byte_command third_command (some refusal) idle_service sends_result.0
      controller takes_result.0 pods pod_handler 1 2 uuid 20 no_result 0 (received request ∷ [])
      (received reply ∷ []) refl refl refl refl (λ n n' m effects h. ap (or_nothing n) h)
      notified-Fits notifies (omega arith) refl sends_result.1
      (subst (λ l. Link buffers l (received request ∷ [])) (sym sends_result.2) request-Link)
      takes_result.1
      (subst (λ l. Link buffers l (received reply ∷ [])) (sym takes_result.2) reply-Link)
