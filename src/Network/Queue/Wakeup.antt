-- ===== src/Network/Queue/Wakeup.antt =====
-- pkg/network/message_queue.go: when a poll that waits is woken, and when it ends.
use control_protocol.Prelude.{
  if_both, ℕ, zero, suc, ◌<◌, ◌≡◌, ◌≢◌, refl, ◌⊎◌, false, inl, inr, List, [], ◌∷◌, arith,
}
use control_protocol.Message.{Message}
use control_protocol.Network.Queue.{
  Poll, idle, started, locking, waiting, woken, Queue, Action, append, prepend, signal, cancel,
  unblock, call, run, wake, take_or_wait, advance, send_signal, step, steps, new_queue, begin,
}

-- A poll that waits while there are messages has a signal coming.
abbrev pub IsServed : Queue → Type 0
IsServed q = q.poll ≡ waiting → (q.queue ≡ []) ⊎ (0 < q.signals)

take_or_wait-IsServed : (q : Queue) (l : List Message) → q.queue ≡ l → IsServed (take_or_wait q l)
unfolding take_or_wait
take_or_wait-IsServed q [] e = λ w. inl e
take_or_wait-IsServed q (m ∷ rest) e = λ w. cc

run-IsServed : (q : Queue) (p : Poll) → q.poll ≡ p → IsServed q → IsServed (advance p q)
unfolding advance
run-IsServed q idle e h = h
run-IsServed q started e h = ground arith
run-IsServed q locking e h = take_or_wait-IsServed q q.queue refl
run-IsServed q waiting e h = h
run-IsServed q woken e h =
    if_both IsServed q.cancelled (λ w. cc) (take_or_wait-IsServed q q.queue refl)

wake-ne-waiting : (p : Poll) → wake p ≢ waiting
wake-ne-waiting idle e = cc
wake-ne-waiting started e = cc
wake-ne-waiting locking e = cc
wake-ne-waiting waiting e = cc
wake-ne-waiting woken e = cc

waiting_of-begin : (p : Poll) → begin p ≡ waiting → p ≡ waiting
waiting_of-begin idle e = cc
waiting_of-begin started e = cc
waiting_of-begin locking e = cc
waiting_of-begin waiting e = refl
waiting_of-begin woken e = cc

send_signal-IsServed : (q : Queue) (n : ℕ) → q.signals ≡ n → IsServed q → IsServed (send_signal n q)
unfolding send_signal
send_signal-IsServed q zero e h = h
send_signal-IsServed q (suc n) e h = λ w. absurd (wake-ne-waiting q.poll w)

step-IsServed : (q : Queue) (a : Action) → IsServed q → IsServed (step q a)
unfolding step
step-IsServed q (append m) h = λ w. inr (omega arith)
step-IsServed q (prepend m) h = λ w. inr (omega arith)
step-IsServed q signal h = send_signal-IsServed q q.signals refl h
step-IsServed q cancel h = h
step-IsServed q unblock h = λ w. absurd (wake-ne-waiting q.poll w)
step-IsServed q call h = λ w. h (waiting_of-begin q.poll w)
step-IsServed q run h = run-IsServed q q.poll refl h

IsServed-from : (q : Queue) (acts : List Action) → IsServed q → IsServed (steps q acts)
unfolding steps
IsServed-from q [] h = h
IsServed-from q (a ∷ acts) h = IsServed-from (step q a) acts (step-IsServed q a h)

-- No message is ever slept on: whatever the goroutines do from a new queue on, if the poll waits
-- then the queue is empty, or a signal for it is on its way.
pub steps-IsServed :
    (acts : List Action)
    → (steps new_queue acts).poll ≡ waiting
    → ((steps new_queue acts).queue ≡ []) ⊎ (0 < (steps new_queue acts).signals)
steps-IsServed acts = IsServed-from new_queue acts (λ w. inl refl)

-- The actions that neither touch the queue nor broadcast.
abbrev pub IsQuiet : List Action → Type 0
IsQuiet [] = Unit {0}
IsQuiet (signal ∷ acts) = IsQuiet acts
IsQuiet (call ∷ acts) = IsQuiet acts
IsQuiet (run ∷ acts) = IsQuiet acts
IsQuiet (_ ∷ acts) = ⊥

asleep :
    (q : Queue) (acts : List Action)
    → IsQuiet acts
    → q.poll ≡ waiting
    → q.signals ≡ 0
    → (steps q acts).poll ≡ waiting
unfolding steps step
asleep q [] h w s = w
asleep q (signal ∷ acts) h w s =
    asleep (send_signal q.signals q) acts h (ground arith) (ground arith)
asleep q (call ∷ acts) h w s = asleep (record q { poll = begin q.poll }) acts h (ground arith) s
asleep q (run ∷ acts) h w s = asleep (advance q.poll q) acts h (ground arith) (ground arith)
asleep q (append m ∷ acts) h w s = absurd h
asleep q (prepend m ∷ acts) h w s = absurd h
asleep q (cancel ∷ acts) h w s = absurd h
asleep q (unblock ∷ acts) h w s = absurd h

-- A lost wakeup. If the context is cancelled and the poll unblocked after the poll has tested the
-- context and before it has the lock of an empty queue, the poll goes to sleep all the same, and
-- no number of further steps wakes it, unless there is another message or another broadcast.
pub cancel_missed :
    (q : Queue) (acts : List Action)
    → q.poll ≡ locking
    → q.queue ≡ []
    → q.signals ≡ 0
    → IsQuiet acts
    → ((steps q (cancel ∷ unblock ∷ run ∷ acts)).poll ≡ waiting)
unfolding steps step
cancel_missed q acts p e s h =
    asleep (steps q (cancel ∷ unblock ∷ run ∷ [])) acts h (ground arith) (ground arith)

-- A poll that is caught outside that gap, not yet started or already waiting, does return without
-- a message when it is cancelled, also when there are messages, and leaves them in the queue.
pub cancel_seen :
    (q : Queue)
    → (q.poll ≡ idle) ⊎ (q.poll ≡ started) ⊎ (q.poll ≡ waiting) ⊎ (q.poll ≡ woken)
    → let r = steps q (cancel ∷ unblock ∷ call ∷ run ∷ []) in
      (r.poll ≡ idle) × (r.queue ≡ q.queue) × (r.taken ≡ q.taken)
unfolding steps step
cancel_seen q h = ground arith

-- `unblockPoll` alone ends no poll: while the context is open a poll of an empty queue goes back to
-- sleep.
pub unblock_open :
    (q : Queue)
    → q.poll ≡ waiting
    → q.queue ≡ []
    → q.cancelled ≡ false
    → (steps q (unblock ∷ run ∷ [])).poll ≡ waiting
unfolding steps step
unblock_open q w e c = ground arith
