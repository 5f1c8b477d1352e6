-- ===== src/Tests/Network.antt =====
-- pkg/network: queues, loops and dialing on small inputs.
mod Consuming
use control_protocol.Prelude.{
  All, ◌+◌, ℕ, ◌<◌, ◌≤◌, ◌≡◌, ◌⊎◌, ◌↔◌, refl, true, false, none, some, inl, inr, List, [], ◌∷◌,
  ◌++◌, arith, ◌==ℕ◌, if◌then◌else◌, length, codes, drop,
}
use control_protocol.Errors.{Error, eof, net_error, ok, err}
use control_protocol.Wire.BigEndian.{put_uint32}
use control_protocol.Wire.Stream.{Stream, chunk, failure}
use control_protocol.Message.{write_to, write_header_to}
use control_protocol.Message.Format.{encode, header_bytes, received, bytes_of}
use control_protocol.Network.Queue.{
  Action, append, signal, call, run, cancel, unblock, idle, locking, waiting, new_queue, step,
  steps,
}
use control_protocol.Network.Queue.Fifo.{steps-passed, passed}
use control_protocol.Network.Queue.Wakeup.{steps-IsServed, cancel_missed, cancel_seen, unblock_open}
use control_protocol.Network.Connection.{
  BaseConnection, new_connection, reader_loop, writer_loop, conn_write, stopped, after_write_of,
}
use control_protocol.Network.Connection.Typed.{reader_loop-IsTyped}
use control_protocol.Message.Typed.{IsTyped}
use control_protocol.Wire.Stream.{Stream}
use control_protocol.Network.Connection.Reading.{
  part_of, reader_loop-delivers, reader_loop_transient,
}
use control_protocol.Network.Connection.Writing.{Wrote, conn_write_size}
use control_protocol.Network.Connection.Writing.Loop.{writer_loop-Wrote}
use control_protocol.Network.Connection.Writing.Carry.{Carries, loops-carry}
use control_protocol.Network.Client.{
  Attempts, World, try_dial, with_default_port, polling, consumed, cleaned_up, Event,
}
use control_protocol.Network.Client.Dialing.{Reaches, try_dial_iff, try_dial-One, Connected}
use control_protocol.Network.Client.Life.{polling_ends, polling_gives_up}
use control_protocol.Network.Server.{
  listening_port, after_last_colon, Listener, outcome, listen_loop, refused, treated,
  channel_closed, start_accept_polling, cleaned_up as server_cleaned_up, consumed as consumed_conn,
}
use control_protocol.Network.Server.Starting.{
  ControlServer, start_control_server, start_control_server_serves,
}
use control_protocol.Network.Server.Accepting.{after_last_colon-port, Stops, events_of}
use control_protocol.Prelude.Equality.{◌==◌, bytes_eq}
use control_protocol.Tests.Message.{buffers, Buffer, hello, hello_bytes, hello-IsWellFormed, uuid}

abbrev one_message : List Action
one_message = append hello ∷ signal ∷ call ∷ run ∷ run ∷ []

one_message_runs : (steps new_queue one_message).taken ≡ hello ∷ []
unfolding steps step
one_message_runs = refl

steps-passed_example : passed (steps new_queue one_message) ≡ hello ∷ []
steps-passed_example = steps-passed new_queue one_message tt

abbrev asleep : List Action
asleep = call ∷ run ∷ run ∷ append hello ∷ []

steps-IsServed_example :
    ((steps new_queue asleep).queue ≡ []) ⊎ (0 < (steps new_queue asleep).signals)
unfolding steps step
steps-IsServed_example = steps-IsServed asleep refl

abbrev hello_and_more : Stream
hello_and_more =
    chunk (0 ∷ 0 ∷ [])
    ∷ chunk (0 ∷ 7 ∷ uuid ++ 0 ∷ 0 ∷ 0 ∷ 3 ∷ 104 ∷ [])
    ∷ chunk (105 ∷ 33 ∷ 0 ∷ [])
    ∷ []

reader_loop-delivers_example :
    reader_loop 2 (λ i. false) hello_and_more new_connection
    ≡ (record new_connection { read_queue = received hello ∷ [] }, stopped)
unfolding encode header_bytes put_uint32
reader_loop-delivers_example =
    reader_loop-delivers (hello ∷ []) 2 hello_and_more new_connection (0 ∷ [])
      (hello-IsWellFormed, tt) tt refl
      (part_of hello (drop 1 hello_bytes) hello-IsWellFormed refl (omega arith)) (omega arith)

-- A header with the greatest size, of which the payload is cut.
abbrev greatest : Stream
greatest =
    chunk (1 ∷ 2 ∷ 0 ∷ 255 ∷ 7 ∷ 7 ∷ 7 ∷ 7 ∷ 7 ∷ 7 ∷ 7 ∷ 7 ∷ [])
    ∷ chunk (7 ∷ 7 ∷ 7 ∷ 7 ∷ 7 ∷ 7 ∷ 7 ∷ 255 ∷ 0 ∷ 0 ∷ 0 ∷ 1 ∷ 9 ∷ [])
    ∷ failure (net_error true true [])
    ∷ []

reader_loop-IsTyped_example :
    All IsTyped (reader_loop 2 (λ i. false) greatest new_connection).0.read_queue
reader_loop-IsTyped_example =
    reader_loop-IsTyped 2 (λ i. false) greatest new_connection (omega arith, (omega arith, tt)) tt

abbrev fresh : Buffer
fresh = record { room = 100; held = [] }

abbrev to_write : BaseConnection
to_write = record new_connection { write_queue = hello ∷ [] }

writer_loop-Wrote_example : Wrote buffers fresh to_write (writer_loop buffers 2 fresh to_write)
writer_loop-Wrote_example = writer_loop-Wrote buffers 2 fresh to_write

loops-carry_example :
    Carries
      (writer_loop-Wrote buffers 1 fresh to_write).written
      (writer_loop buffers 1 fresh to_write).1.write_queue
      new_connection
      (reader_loop 3 (λ i. false) (chunk hello_bytes ∷ []) new_connection)
unfolding writer_loop conn_write after_write_of write_to write_header_to put_uint32
loops-carry_example =
    loops-carry buffers 1 3 fresh to_write new_connection (chunk hello_bytes ∷ []) refl
      (hello-IsWellFormed, tt) refl tt refl (omega arith)

with_default_port_runs : with_default_port (codes "a") ≡ codes "a:9000"
unfolding with_default_port
with_default_port_runs = refl

abbrev third_time : Attempts ℕ
third_time = record { dial = λ i. if i ==ℕ 2 then ok 9 else err eof; cancelled = λ i. false }

abbrev two_rounds : World ℕ
two_rounds = record { done = λ i. i ==ℕ 2; redial = λ i. third_time }

abbrev unreachable : World ℕ
unreachable = record {
  done = λ i. false;
  redial = λ i. record { dial = λ j. err eof; cancelled = λ j. false };
}

listening_port_runs :
    listening_port
      (λ port. ok (codes "[::]:9000"))
      (λ text. if text == codes "9000" then ok 9000 else err eof)
      []
    ≡ ok 9000
unfolding listening_port after_last_colon
listening_port_runs = refl

-- Two conns, of which the first gets no TLS configuration, and then an error of the listener.
abbrev two_conns : Listener ℕ
two_conns = record {
  done = λ i. false;
  accept = λ i. if i ==ℕ 2 then err eof else ok i;
  tls_config_loader = some (λ i. if i ==ℕ 0 then err eof else ok (λ conn. conn + 100));
}

two_conns-Stops : Stops two_conns (λ i. i) 2
two_conns-Stops = record {
  going = λ j h. refl;
  accepted = λ j h. ground arith;
  last = inr (refl, eof, refl);
}

start_control_server_serves_example :
    (server : ControlServer ℕ ℕ) × (start_control_server
        (λ port. ok (codes "[::]:8"))
        (λ digits. ok 8)
        []
        two_conns
        0
      ≡ ok server)
    × (server.port ≡ 8)
    × (server.closed_ch 3
        ≡ some (
            treated (refused 0 eof)
            ∷ treated (consumed_conn 101)
            ∷ server_cleaned_up
            ∷ channel_closed
            ∷ []))
unfolding events_of outcome
start_control_server_serves_example =
    start_control_server_serves (λ port. ok (codes "[::]:8")) (λ digits. ok 8) [] two_conns 0
      (codes "[::]") (codes "8") 8 (λ i. i) 2 3 refl refl refl two_conns-Stops (omega arith)
