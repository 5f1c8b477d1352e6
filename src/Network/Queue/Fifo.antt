-- ===== src/Network/Queue/Fifo.antt =====
-- What the polls return, against what was put into the queue.
use control_protocol.Prelude.{
  ℕ, zero, suc, ◌≡◌, refl, sym, ap, ◌∙◌, List, [], ◌∷◌, ◌++◌, append-nil, append_assoc, arith,
}
use control_protocol.Message.{Message}
use control_protocol.Network.Queue.{
  Poll, idle, started, locking, waiting, woken, Queue, Action, append, prepend, signal, cancel,
  unblock, call, run, take_or_wait, advance, send_signal, step, steps,
}

-- What was taken, and what is still to take.
abbrev pub passed : Queue → List Message
passed q = q.taken ++ q.queue

-- The messages of the appends, in order.
abbrev pub appended : List Action → List Message
appended [] = []
appended (append m ∷ acts) = m ∷ appended acts
appended (_ ∷ acts) = appended acts

abbrev pub NoPrepend : List Action → Type 0
NoPrepend [] = Unit {0}
NoPrepend (prepend m ∷ acts) = ⊥
NoPrepend (_ ∷ acts) = NoPrepend acts

take_or_wait-passed :
    (q : Queue) (l : List Message) → q.queue ≡ l → passed (take_or_wait q l) ≡ passed q
unfolding take_or_wait
take_or_wait-passed q [] e = refl
take_or_wait-passed q (m ∷ rest) e = rw e (append_assoc q.taken (m ∷ []) rest)

run-passed : (q : Queue) (p : Poll) → passed (advance p q) ≡ passed q
unfolding advance
run-passed q idle = refl
run-passed q started = ground arith
run-passed q locking = take_or_wait-passed q q.queue refl
run-passed q waiting = refl
run-passed q woken = ground (arith, take_or_wait-passed q q.queue refl)

signal-passed : (q : Queue) (n : ℕ) → passed (send_signal n q) ≡ passed q
unfolding send_signal
signal-passed q zero = refl
signal-passed q (suc n) = refl

-- Whatever the goroutines do and in whatever order, with a poll that waits, is woken or is
-- cancelled at any point: the messages that the polls have returned, followed by those in the
-- queue, are the ones that were there before and then the appended ones, each once and in order.
pub steps-passed :
    (q : Queue) (acts : List Action)
    → NoPrepend acts
    → passed (steps q acts) ≡ passed q ++ appended acts
unfolding steps step
steps-passed q [] h = sym (append-nil (passed q))
steps-passed q (append m ∷ acts) h = steps-passed (step q (append m)) acts h ∙ simp append_assoc
steps-passed q (prepend m ∷ acts) h = absurd h
steps-passed q (signal ∷ acts) h =
    steps-passed (step q signal) acts h ∙ ap (λ l. l ++ appended acts) (signal-passed q q.signals)
steps-passed q (cancel ∷ acts) h = steps-passed (step q cancel) acts h
steps-passed q (unblock ∷ acts) h = steps-passed (step q unblock) acts h
steps-passed q (call ∷ acts) h = steps-passed (step q call) acts h
steps-passed q (run ∷ acts) h =
    steps-passed (step q run) acts h ∙ ap (λ l. l ++ appended acts) (run-passed q q.poll)
