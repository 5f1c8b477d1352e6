-- ===== src/Network/Connection/Consuming/Fifo.antt =====
-- pkg/network/base_connection.go: the messages of both directions, whatever order the steps take.
use control_protocol.Prelude.{
  ◌≡◌, refl, sym, ap, ap₂, if_both, if◌then◌else◌, ◌∙◌, Bool, List, [], ◌∷◌, ◌++◌, append_assoc,
}
use control_protocol.Errors.{is_eof, is_transient_error}
use control_protocol.Message.{Message}
use control_protocol.Network.Connection.{BaseConnection}
use control_protocol.Network.Connection.Consuming.{
  WriteLoop, polling, taking, waiting, woken, writer_left, wake_writer, writing, write_failed,
  Consumption, consume_connection, Step, Steps, here, later, write_message, read_message,
  take_error, cancel, conn_ended, context_ended, unblock_poll, close_conn, poll, signal, tests_conn,
  waits, awakes, wrote, write_fails, signal_write, reads, read_fails, signal_read, tests_context,
  leaves,
}

-- The message that `connWrite` is sending.
pub in_hand : WriteLoop → List Message
in_hand polling = []
in_hand taking = []
in_hand waiting = []
in_hand woken = []
in_hand writer_left = []
in_hand (writing m) = m ∷ []
in_hand (write_failed e) = []

-- Out: what was appended is what was sent, in hand, and in the queue, in this order. In: what arrived
-- is what was returned, and in the queue.
IsOrdered : Consumption → Type 0
IsOrdered s =
    (s.appended ≡ s.sent ++ (in_hand s.writer ++ s.base.write_queue))
    × (s.arrived ≡ s.returned ++ s.base.read_queue)

-- A wake-up takes no message out of the goroutine's hand.
in_hand-wake_writer : (w : WriteLoop) → in_hand w ≡ in_hand (wake_writer w)
unfolding in_hand
in_hand-wake_writer polling = refl
in_hand-wake_writer taking = refl
in_hand-wake_writer waiting = refl
in_hand-wake_writer woken = refl
in_hand-wake_writer writer_left = refl
in_hand-wake_writer (writing m) = refl
in_hand-wake_writer (write_failed e) = refl

wake-IsOrdered :
    (s : Consumption)
    → s.appended ≡ s.sent ++ (in_hand s.writer ++ s.base.write_queue)
    → s.appended ≡ s.sent ++ (in_hand (wake_writer s.writer) ++ s.base.write_queue)
wake-IsOrdered s h =
    h ∙ ap (λ l. s.sent ++ (l ++ s.base.write_queue)) (in_hand-wake_writer s.writer)

-- A poll that tests its context has no message in hand.
test-IsOrdered :
    (s : Consumption)
    → in_hand s.writer ≡ []
    → s.appended ≡ s.sent ++ (in_hand s.writer ++ s.base.write_queue)
    → s.appended
      ≡ s.sent ++ (in_hand (if s.conn_done then writer_left else taking) ++ s.base.write_queue)
unfolding in_hand
test-IsOrdered s e h =
    let x = h ∙ ap (λ l. s.sent ++ (l ++ s.base.write_queue)) e in
    if_both (λ w. s.appended ≡ s.sent ++ (in_hand w ++ s.base.write_queue)) s.conn_done x x

append_last :
    {a : List Message} (b c d : List Message) (m : Message)
    → a ≡ b ++ (c ++ d)
    → a ++ m ∷ [] ≡ b ++ (c ++ (d ++ m ∷ []))
append_last b c d m h =
    ap (λ l. l ++ m ∷ []) h
    ∙ append_assoc b (c ++ d) (m ∷ [])
    ∙ ap (λ l. b ++ l) (append_assoc c d (m ∷ []))

take_first :
    {a : List Message} (b l rest : List Message) (m : Message)
    → a ≡ b ++ l
    → l ≡ m ∷ rest
    → a ≡ (b ++ m ∷ []) ++ rest
take_first b l rest m h e = h ∙ ap (λ l. b ++ l) e ∙ sym (append_assoc b (m ∷ []) rest)

step-IsOrdered : (s t : Consumption) → Step s t → IsOrdered s → IsOrdered t
unfolding IsOrdered in_hand
step-IsOrdered s _ (write_message m) h =
    (append_last s.sent (in_hand s.writer) s.base.write_queue m h.0, h.1)
step-IsOrdered s _ (read_message m rest e) h =
    (h.0, take_first s.returned s.base.read_queue rest m h.1 e)
step-IsOrdered s _ (take_error e rest f) h = h
step-IsOrdered s _ cancel h = h
step-IsOrdered s _ (conn_ended e f) h = h
step-IsOrdered s _ (context_ended e f) h = h
step-IsOrdered s _ (signal n e) h = (wake-IsOrdered s h.0, h.1)
step-IsOrdered s _ (unblock_poll e) h = (wake-IsOrdered s h.0, h.1)
step-IsOrdered s _ (close_conn e) h = h
step-IsOrdered s _ (poll m rest e f) h =
    (h.0 ∙ ap (λ l. s.sent ++ l) (ap₂ ◌++◌ (ap in_hand e) f), h.1)
step-IsOrdered s _ (tests_conn e) h = (test-IsOrdered s (ap in_hand e) h.0, h.1)
step-IsOrdered s _ (awakes e) h = (test-IsOrdered s (ap in_hand e) h.0, h.1)
step-IsOrdered s _ (waits e f) h =
    (h.0 ∙ ap (λ w. s.sent ++ (in_hand w ++ s.base.write_queue)) e, h.1)
step-IsOrdered s _ (wrote m e) h = (
  take_first s.sent (in_hand s.writer ++ s.base.write_queue) s.base.write_queue m h.0
      (ap (λ w. in_hand w ++ s.base.write_queue) e),
  h.1,
)
step-IsOrdered s _ (write_fails m e f) h = (
  if_both (λ w. s.appended ≡ s.sent ++ (in_hand w ++ m ∷ s.base.write_queue)) (is_eof e)
      (h.0 ∙ ap (λ w. s.sent ++ (in_hand w ++ s.base.write_queue)) f)
      (h.0 ∙ ap (λ w. s.sent ++ (in_hand w ++ s.base.write_queue)) f),
  h.1,
)
step-IsOrdered s _ (signal_write e f g) h = (
  if_both (λ w. s.appended ≡ s.sent ++ (in_hand w ++ s.base.write_queue)) (is_transient_error e)
      (h.0 ∙ ap (λ w. s.sent ++ (in_hand w ++ s.base.write_queue)) f)
      (h.0 ∙ ap (λ w. s.sent ++ (in_hand w ++ s.base.write_queue)) f),
  h.1,
)
step-IsOrdered s _ (reads m e) h = (h.0, append_last s.returned [] s.base.read_queue m h.1)
step-IsOrdered s _ (read_fails e f) h = h
step-IsOrdered s _ (signal_read e f g) h = h
step-IsOrdered s _ (tests_context e) h = h
step-IsOrdered s _ (leaves e) h = h

steps-IsOrdered : (s t : Consumption) → Steps s t → IsOrdered s → IsOrdered t
steps-IsOrdered s _ here h = h
steps-IsOrdered s t (later {r} before last) h =
    step-IsOrdered r t last (steps-IsOrdered s r before h)

-- Whatever order the goroutines of `consumeConnection` and its users take their steps in, and however
-- the reads and writes of the conn end: the messages that were appended are those sent, the one that
-- is being sent, and those in the queue, in this order; and `ReadMessage` returns the messages in
-- the order in which `connRead` got them.
pub consume_connection-keeps :
    (b : BaseConnection) (context_done : Bool) (s : Consumption)
    → Steps (consume_connection b context_done) s
    → (s.appended ≡ s.sent ++ (in_hand s.writer ++ s.base.write_queue))
      × (s.arrived ≡ s.returned ++ s.base.read_queue)
unfolding IsOrdered in_hand
consume_connection-keeps b context_done s r =
    steps-IsOrdered (consume_connection b context_done) s r (refl, refl)
