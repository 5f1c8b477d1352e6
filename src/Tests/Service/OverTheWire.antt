-- ===== src/Tests/Service/OverTheWire.antt =====
-- pkg/service: a message of one service, refused by the other, over two connections each way.
use control_protocol.Prelude.{ℕ, ◌≡◌, refl, sym, subst, some, [], ◌∷◌, arith}
use control_protocol.Errors.{ok, error_text, is_eof}
use control_protocol.Wire.BigEndian.{put_uint32, uint32}
use control_protocol.Wire.Stream.{chunk, read_full}
use control_protocol.Message.{
  Message, new_message, write_to, write_header_to, read_from, message_header_from_bytes,
}
use control_protocol.Message.Format.{received, encode, header_bytes}
use control_protocol.Network.Connection.{
  writer_loop, reader_loop, conn_write, conn_read, after_write_of, after_read_of,
}
use control_protocol.Service.{Handler, acks}
use control_protocol.Service.Acks.{
  Service, new_service, send, send_start, accept_all, accept, marshalled, goes_on, send_result_of,
  ack_case, new_ack_message,
}
use control_protocol.Service.Acks.OverTheWire.{Link, Link-send}
use control_protocol.Tests.Message.{uuid, buffers}
use control_protocol.Tests.Service.{idle_service, refusal, refusal-Fits}

abbrev refuse_all : Handler ℕ
refuse_all n m = (n, acks (some refusal) ∷ [])

abbrev request : Message
request = new_message uuid 7 (some (1 ∷ [])) []

abbrev reply : Message
reply = new_ack_message uuid (some refusal)

asks :
    (c : Service ℕ) × (send idle_service uuid 7 (some (ok (1 ∷ []))) ≡ ok (c, 0))
    × (c.outbox ≡ request ∷ [])
unfolding send send_start marshalled new_service
asks = (_, refl, refl)

answers :
    (c : Service ℕ) × (accept_all (new_service refuse_all 0) (received request ∷ []) ≡ goes_on c)
    × (c.outbox ≡ reply ∷ [])
unfolding accept_all accept new_message new_service received
answers = (_, refl, refl)

request-Link : Link buffers (request ∷ []) (received request ∷ [])
unfolding writer_loop conn_write after_write_of write_to write_header_to put_uint32 new_message
    encode header_bytes received reader_loop conn_read read_from read_full message_header_from_bytes
    uint32 after_read_of is_eof
request-Link = record {
  conn = record { room = 100; held = [] };
  rounds_out = 2;
  rounds_in = 3;
  arrivals = chunk (encode request) ∷ [];
  fresh = refl;
  all_written = refl;
  no_errors = refl;
  sound = tt;
  same_bytes = refl;
  enough = omega arith;
  reads = refl;
}

reply-Link : Link buffers (reply ∷ []) (received reply ∷ [])
unfolding writer_loop conn_write after_write_of write_to write_header_to put_uint32 new_message
    new_ack_message error_text encode header_bytes received reader_loop conn_read read_from
    read_full message_header_from_bytes uint32 after_read_of is_eof
reply-Link = record {
  conn = record { room = 100; held = [] };
  rounds_out = 2;
  rounds_in = 3;
  arrivals = chunk (encode reply) ∷ [];
  fresh = refl;
  all_written = refl;
  no_errors = refl;
  sound = tt;
  same_bytes = refl;
  enough = omega arith;
  reads = refl;
}

Link-send_example :
    (c : Service ℕ) × (accept_all asks.0 (received reply ∷ []) ≡ goes_on c)
    × (send_result_of c 0 ack_case ≡ some (some refusal))
unfolding marshalled new_message new_service error_text
Link-send_example =
    Link-send buffers idle_service asks.0 (new_service refuse_all 0) answers.0 uuid 7
      (some (ok (1 ∷ []))) (some (1 ∷ [])) 0 0 (some refusal) (received request ∷ [])
      (received reply ∷ []) refl refl refl refl (omega arith) asks.1
      (subst (λ l. Link buffers l (received request ∷ [])) (sym asks.2) request-Link) refl
      refusal-Fits answers.1
      (subst (λ l. Link buffers l (received reply ∷ [])) (sym answers.2) reply-Link)
