-- ===== src/Network/Queue.antt =====
-- pkg/network/message_queue.go: the unbounded queue, one goroutine that polls it, and the others
-- that append, cancel the poll's context and unblock the poll. Each action is one atomic step.
pub mod Fifo
pub mod Wakeup
use control_protocol.Prelude.{
  ℕ, zero, suc, ◌+◌, Bool, true, false, Option, none, some, List, [], ◌∷◌, ◌++◌, if◌then◌else◌,
}
use control_protocol.Message.{Message}

-- Where `blockingPoll` stands: not called; before its first test of the context; before the lock;
-- in `cond.Wait`; and signalled, before it has the lock again.
pub data Poll : Type 0 where
  idle started locking waiting woken : Poll

-- `signals` counts the appends whose `Signal` is still to come; `unblocking` is set from the
-- cancelling of the context to the `Broadcast`. `taken` holds what the polls have returned.
pub record Queue : Type 0 where
  pub queue : List Message
  pub signals : ℕ
  pub cancelled : Bool
  pub unblocking : Bool
  pub poll : Poll
  pub taken : List Message

pub data Action : Type 0 where
  append prepend : Message → Action  -- under the lock, with the `Signal` to come
  signal : Action  -- `q.cond.Signal()` of an append
  cancel : Action  -- the poll's context is closed
  unblock : Action  -- `unblockPoll`
  call : Action  -- a call of `blockingPoll` begins
  run : Action  -- the poll goes on to its next point of waiting

abbrev pub new_queue : Queue
new_queue = record {
  queue = [];
  signals = 0;
  cancelled = false;
  unblocking = false;
  poll = idle;
  taken = [];
}

-- A waiting goroutine is woken; a signal that finds none is lost.
abbrev pub wake : Poll → Poll
wake waiting = woken
wake idle = idle
wake started = started
wake locking = locking
wake woken = woken

-- `len(q.queue) == 0` under the lock: wait, or take the first message and return it.
take_or_wait : Queue → List Message → Queue
take_or_wait q [] = record q { poll = waiting }
take_or_wait q (m ∷ rest) = record q { queue = rest; poll = idle; taken = q.taken ++ m ∷ [] }

-- The goroutine of the poll, from where it stands. A poll that waits does not move.
advance : Poll → Queue → Queue
unfolding take_or_wait
advance idle q = q
advance started q = if q.cancelled then record q { poll = idle } else record q { poll = locking }
advance locking q = take_or_wait q q.queue
advance waiting q = q
advance woken q = if q.cancelled then record q { poll = idle } else take_or_wait q q.queue

abbrev begin : Poll → Poll
begin idle = started
begin started = started
begin locking = locking
begin waiting = waiting
begin woken = woken

send_signal : ℕ → Queue → Queue
send_signal zero q = q
send_signal (suc n) q = record q { signals = n; poll = wake q.poll }

unfoldable pub step : Queue → Action → Queue
unfolding advance send_signal
step q (append m) = record q { queue = q.queue ++ m ∷ []; signals = suc q.signals }
step q (prepend m) = record q { queue = m ∷ q.queue; signals = suc q.signals }
step q signal = send_signal q.signals q
step q cancel = record q { cancelled = true; unblocking = true }
step q unblock = record q { unblocking = false; poll = wake q.poll }
step q call = record q { poll = begin q.poll }
step q run = advance q.poll q

unfoldable pub steps : Queue → List Action → Queue
steps q [] = q
steps q (a ∷ acts) = steps (step q a) acts
