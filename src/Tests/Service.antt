-- ===== src/Tests/Service.antt =====
-- pkg/service: acks, caching and asynchronous commands on small inputs.
mod Exchange
mod OverTheWire
use mathlib.Core.List.{Memᴰ}
use control_protocol.Prelude.{
  Option, ℕ, ◌≡◌, ◌≢◌, ◌⊎◌, refl, Bool, true, false, none, some, List, [], ◌∷◌, arith, codes,
}
use control_protocol.Prelude.Equality.{nat_eq, bytes_eq, bytes_equal_iff}
use control_protocol.Prelude.Maps.{
  Map, map_values, empty, lookup, insert, lookup-insert, lookup-empty,
}
use control_protocol.Errors.{Error, eof, plain, error_text, wrapped, Result, ok, err}
use control_protocol.Message.{Message, new_message}
use control_protocol.Message.Format.{bytes_of}
use control_protocol.AsyncCommand.{returns}
use control_protocol.Service.{Effect, ack_op_code, noop_message_handler}
use control_protocol.Service.Acks.{
  Service, goes_on, panics, new_service, send_start, send_end, accept, ack_ready, cannot_send_ack,
}
use control_protocol.Service.Acks.{accept_all}
use control_protocol.Service.Acks.Delivery.{
  Waits, Fits, ack_of, acked, send_start-Waits, accept-acked, accept-twice, accept-late,
}
use control_protocol.Service.Acks.Isolation.{IsTidy, accept-Waits}
use control_protocol.Service.Caching.{
  Send, Fate, arrives, gets_lost, CachingService, send_and_wait_for_ack, caching_repeat, send_all,
  deliver, caching_transparent,
}
use control_protocol.Service.Caching.Interleaved.{
  begin_calls, run_calls, call_step, run_calls-delivered,
}
use control_protocol.Service.AsyncHandler.{
  AsyncCommand, AsyncCommandMessage, notify_success, notify_failed, handle_service_message,
  parse_failed,
}
use control_protocol.Service.AsyncHandler.Results.{parsed, parsed-notify_failed}
use control_protocol.Tests.Message.{hello, uuid}

abbrev pub idle_service : Service ℕ
idle_service = new_service noop_message_handler 0

abbrev waiting_service : Service ℕ
waiting_service = record {
  outbox = [];
  waiting_acks = insert uuid 0 empty;
  channels = insert 0 (record { holds = none; closed = false }) empty;
  next_channel = 1;
  handler = noop_message_handler;
  handler_state = 0;
  error_handler = λ s e. s;
}

waiting_service-Waits : Waits waiting_service uuid 0
waiting_service-Waits = record {
  registered = lookup-insert uuid uuid 0 empty;
  unused = lookup-insert 0 0 (record { holds = none; closed = false }) empty;
}

only_uuid :
    (u : List ℕ) (i : ℕ) → lookup u waiting_service.waiting_acks ≡ some i → (u ≡ uuid) × (i ≡ 0)
only_uuid u i p =
    ground (
      arith,
      p,
      lookup-insert {V = ℕ} uuid u 0 empty,
      lookup-empty {V = ℕ} u,
      bytes_equal_iff uuid u,
    )

waiting_service-IsTidy : IsTidy waiting_service
waiting_service-IsTidy = record {
  apart = λ u v i p q. ground (arith, only_uuid u i p, only_uuid v i q, bytes_equal_iff u v);
  made = λ u i p. ground (arith, only_uuid u i p);
}

abbrev pub refusal : Error
refusal = plain (codes "no")

pub refusal-Fits : Fits (some refusal)
unfolding error_text
refusal-Fits = omega arith

accept-twice_example :
    accept_all waiting_service (ack_of uuid none ∷ ack_of uuid none ∷ []) ≡ panics
accept-twice_example = accept-twice waiting_service uuid 0 none none [] waiting_service-Waits tt tt

abbrev pub other_hello : Message
other_hello = new_message (9 ∷ []) 7 none []

accepted : (c : Service ℕ) × (accept waiting_service other_hello ≡ goes_on c)
unfolding accept new_message
accepted = (_, refl)

accept-Waits_example : Waits accepted.0 uuid 0
unfolding new_message
accept-Waits_example =
    accept-Waits waiting_service accepted.0 other_hello uuid 0 waiting_service-IsTidy
      waiting_service-Waits (ground arith) accepted.1

-- A service whose every second send fails.
abbrev unreliable : Send Bool ℕ
unreliable true opcode payload = (false, none)
unreliable false opcode payload = (true, some refusal)

abbrev new_cache : Bool → CachingService Bool ℕ
new_cache s = record { service = s; sent_messages = empty }

abbrev requests : List (ℕ × ℕ × Fate)
requests =
    (1, 5, arrives none)
    ∷ (1, 7, gets_lost refusal)
    ∷ (1, 5, gets_lost refusal)
    ∷ (2, 6, arrives (some refusal))
    ∷ (1, 7, arrives none)
    ∷ []

caching_transparent_example :
    lookup 1
      (send_all
        (λ fate. send_and_wait_for_ack (deliver fate))
        (record { service = empty; sent_messages = empty })
        requests).service
    ≡ lookup 1 (send_all deliver empty requests)
caching_transparent_example =
    caching_transparent requests 1 (
      (λ t. refl),
      ((λ t. tt), ((λ t. tt), ((λ t. absurd (ground (arith, t))), ((λ t. refl), tt)))),
    )

-- The second payload is delivered, but its send times out: the first one, sent again, stays behind the
-- cache, and the receiver keeps the second.
timed_out_runs :
    let r =
      (send_all {P = ℕ}
        (λ fate. send_and_wait_for_ack (deliver fate))
        (record { service = empty; sent_messages = empty })
        ((1, 5, arrives none)
          ∷ (1, 7, arrives (some refusal))
          ∷ (1, 5, arrives none)
          ∷ [])).service in
    lookup 1 r ≡ some 7
unfolding send_all send_and_wait_for_ack lookup insert empty
timed_out_runs = refl

abbrev two_calls : Map ℕ (ℕ × ℕ)
two_calls = insert 0 (1, 5) (insert 1 (1, 6) empty)

-- The first send fails, and the second succeeds between its steps.
abbrev crossed : List (ℕ × Option Error)
crossed = (0, none) ∷ (1, none) ∷ (1, none) ∷ (0, some eof) ∷ (1, none) ∷ []

run_calls-delivered_example : Memᴰ (1, 6) (run_calls (begin_calls two_calls) crossed).delivered
unfolding run_calls call_step lookup insert empty map_values
run_calls-delivered_example = run_calls-delivered two_calls crossed 1 1 6 refl

-- A command of one byte, which is its id.
abbrev pub unmarshal_byte : List ℕ → Result ℕ
unmarshal_byte [] = err eof
unmarshal_byte (b ∷ bs) = ok b

abbrev pub byte_command : AsyncCommand ℕ
byte_command = record { unmarshal = unmarshal_byte; serialized_id = λ b. b ∷ [] }

abbrev pub third_command : AsyncCommandMessage ℕ
third_command = record { service_message = hello; parsed_command = 3; result_op_code = 20 }

abbrev always_succeeds : ℕ → AsyncCommandMessage ℕ → ℕ × List Effect
always_succeeds s ac = (ac.parsed_command, notify_success byte_command ac ∷ [])
