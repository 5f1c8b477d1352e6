-- ===== src/Tests/Network/Consuming.antt =====
-- pkg/network/base_connection.go: a conn that breaks under a write, and then ends.
use control_protocol.Prelude.{◌≡◌, ◌⊎◌, ◌<◌, length, refl, true, false, [], ◌∷◌, ◌++◌, arith, codes}
use control_protocol.Errors.{Error, eof, plain, is_eof, is_transient_error}
use control_protocol.Network.Connection.{BaseConnection}
use control_protocol.Network.Connection.Consuming.{
  Consumption, cancel, consume_connection, Steps, here, later, steps_join, HasReturned, writer_left,
  reader_left, tests_conn, poll, write_fails, signal_write, write_message, reads, tests_context,
  read_message, read_fails, leaves, conn_ended, unblock_poll, close_conn, take_error, waits,
  waiting, watcher_left,
}
use control_protocol.Network.Connection.Consuming.Ended.{
  Over, writer_left-stalls, HasReturned-quiet,
}
use control_protocol.Network.Connection.Consuming.Asleep.{waiting-stalls}
use control_protocol.Network.Connection.Consuming.Fifo.{in_hand, consume_connection-keeps}
use control_protocol.Tests.Message.{hello}

abbrev broken : Error
broken = plain (codes "broken pipe")

abbrev one_to_send : BaseConnection
one_to_send = record { write_queue = hello ∷ []; read_queue = []; errors = [] }

-- The goroutine that writes meets the error and returns.
write_breaks :
    (s : Consumption) × Steps (consume_connection one_to_send false) s × (s.writer ≡ writer_left)
unfolding is_eof is_transient_error
write_breaks = (
  _,
  later
      (later (later (later here (tests_conn refl)) (poll hello [] refl refl))
        (write_fails hello broken refl))
      (signal_write broken refl (omega arith)),
  refl,
)

-- A message is appended and one arrives, and then the other side ends the conn.
conn_ends : (t : Consumption) × Steps write_breaks.0 t × HasReturned t
unfolding is_eof write_breaks
conn_ends = (
  _,
  later
      (later
        (later
          (later
            (later
              (later
                (later (later (later here (write_message hello)) (reads hello refl))
                  (tests_context refl))
                (read_message hello [] refl))
              (read_fails eof refl))
            (leaves refl))
          (conn_ended refl refl))
        (unblock_poll refl))
      (close_conn refl),
  (refl, refl, refl),
)

broken_and_ended : Steps (consume_connection one_to_send false) conn_ends.0
broken_and_ended =
    steps_join (consume_connection one_to_send false) write_breaks.0 conn_ends.0 write_breaks.1
      conn_ends.1

consume_connection-keeps_example :
    let s = conn_ends.0 in
    (s.appended ≡ s.sent ++ (in_hand s.writer ++ s.base.write_queue))
    × (s.arrived ≡ s.returned ++ s.base.read_queue)
consume_connection-keeps_example =
    consume_connection-keeps one_to_send false conn_ends.0 broken_and_ended

writer_left-stalls_example :
    let t = conn_ends.0 in
    (t.sent ≡ write_breaks.0.sent)
    × ((t.conn_open ≡ true) ⊎ (t.reader ≡ reader_left) ⊎ (t.context_done ≡ true))
writer_left-stalls_example =
    writer_left-stalls one_to_send false write_breaks.0 conn_ends.0 write_breaks.1 write_breaks.2
      conn_ends.1

-- The service takes the error that was signalled.
error_taken : (t : Consumption) × Steps conn_ends.0 t
unfolding conn_ends write_breaks
error_taken = (_, later here (take_error broken [] refl))

HasReturned-quiet_example :
    let s = conn_ends.0 in (s.conn_open ≡ false) × (s.conn_done ≡ true) × Over s error_taken.0
HasReturned-quiet_example =
    HasReturned-quiet one_to_send false conn_ends.0 error_taken.0 broken_and_ended conn_ends.2
      error_taken.1

-- The context is cancelled while the error of the write is in the channel.
cancelled_late :
    (s : Consumption) × Steps (consume_connection one_to_send false) s × (s.context_done ≡ true)
cancelled_late = (_, later write_breaks.1 cancel, refl)

abbrev nothing_to_send : BaseConnection
nothing_to_send = record { write_queue = []; read_queue = []; errors = [] }

-- Nothing is to be sent, and the conn ends after the poll tested its context and before it waits.
wait_misses :
    (s : Consumption) × Steps (consume_connection nothing_to_send false) s
    × (s.writer ≡ waiting)
    × (s.watcher ≡ watcher_left)
    × (s.signals ≡ 0)
unfolding is_eof
wait_misses = (
  _,
  later
      (later
        (later
          (later (later (later (later here (tests_conn refl)) (read_fails eof refl)) (leaves refl))
            (conn_ended refl refl))
          (unblock_poll refl))
        (close_conn refl))
      (waits refl refl),
  refl,
  refl,
  refl,
)

waiting-stalls_example :
    let s = wait_misses.0 in
    let t = record s { context_done = true } in
    ((t.conn_open ≡ false) × (t.conn_done ≡ true) × ¬ HasReturned t)
    ⊎ (length s.appended < length t.appended)
waiting-stalls_example =
    waiting-stalls nothing_to_send false wait_misses.0
      (record wait_misses.0 { context_done = true }) wait_misses.1 wait_misses.2 wait_misses.3
      wait_misses.4 (later here cancel)
