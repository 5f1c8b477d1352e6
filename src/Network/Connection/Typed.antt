-- ===== src/Network/Connection/Typed.antt =====
-- The widths of the messages that the reading loop puts into the read queue.
use control_protocol.Prelude.{
  ℕ, zero, suc, ◌≡◌, refl, subst, Bool, [], ◌∷◌, arith, All, All-append, if_both, length, ltb,
  if◌then◌else◌,
}
use control_protocol.Errors.{Error, Result, ok, err, is_eof}
use control_protocol.Wire.Stream.{Stream}
use control_protocol.Wire.Stream.Bytes.{Brings}
use control_protocol.Message.{Message, zero_message, ReadFrom, read_from}
use control_protocol.Message.Typed.{IsTyped, read_from-IsTyped}
use control_protocol.Network.Connection.{
  BaseConnection, conn_read, checked_read, after_read_of, after_error, Next, again, stopped,
  blocked, reader_loop,
}

checked_read-message : (r : ReadFrom) (m : Message) → checked_read r ≡ ok m → r.message ≡ m
unfolding checked_read
checked_read-message r m h = ground (arith, h)

conn_read-IsTyped :
    (s : Stream)
    → Brings s
    → ((m : Message) → (conn_read s).result ≡ ok m → IsTyped m) × Brings (conn_read s).rest
unfolding conn_read
conn_read-IsTyped s h =
    let (typed, brings) = read_from-IsTyped s h in
    (λ m e. subst IsTyped (checked_read-message (read_from zero_message s) m e) typed, brings)

AreTyped : BaseConnection × Next → Type 0
AreTyped r = All IsTyped r.0.read_queue

after_error-AreTyped :
    (t : BaseConnection) (e : Error) → All IsTyped t.read_queue → AreTyped (after_error t e)
unfolding after_error AreTyped
after_error-AreTyped t e h = if_both AreTyped (ltb (length t.errors) 10) h h

after_read_of-AreTyped :
    (t : BaseConnection) (r : Result Message) (closed : Bool)
    → ((m : Message) → r ≡ ok m → IsTyped m)
    → All IsTyped t.read_queue
    → AreTyped (after_read_of t r closed)
unfolding after_read_of AreTyped
after_read_of-AreTyped t (ok m) closed typed h =
    All-append IsTyped t.read_queue (m ∷ []) h (typed m refl, tt)
after_read_of-AreTyped t (err e) closed typed h =
    if_both AreTyped (is_eof e) h
      (round (after_error t e).0 (after_error t e).1 (after_error-AreTyped t e h))
  where
    round :
        (t' : BaseConnection) (next : Next)
        → All IsTyped t'.read_queue
        → AreTyped (elim next as (λ x. BaseConnection × Next) [
          | again ↦ (t', if closed then stopped else again)
          | stopped ↦ (t', stopped)
          | blocked ↦ (t', blocked)
        ])
    round t' again h = h
    round t' stopped h = h
    round t' blocked h = h

-- Whatever bytes arrive on a conn, in any parts and with any failures, all messages in the read queue
-- have the widths of the Go types and as many bytes of payload as their headers say, in every round of
-- the reading loop.
pub reader_loop-IsTyped :
    (n : ℕ) (closed : ℕ → Bool) (s : Stream) (t : BaseConnection)
    → Brings s
    → All IsTyped t.read_queue
    → All IsTyped (reader_loop n closed s t).0.read_queue
unfolding reader_loop AreTyped
reader_loop-IsTyped zero closed s t b h = h
reader_loop-IsTyped (suc n) closed s t b h =
    let (typed, brings) = conn_read-IsTyped s b in
    let t' = (after_read_of t (conn_read s).result (closed 0)).0 in
    let h' = after_read_of-AreTyped t (conn_read s).result (closed 0) typed h in
    round t' (after_read_of t (conn_read s).result (closed 0)).1 h'
      (reader_loop-IsTyped n (λ i. closed (suc i)) (conn_read s).rest t' brings h')
  where
    round :
        (t' : BaseConnection) (next : Next)
        → All IsTyped t'.read_queue
        → All IsTyped (reader_loop n (λ i. closed (suc i)) (conn_read s).rest t').0.read_queue
        → All IsTyped
            (elim next as (λ x. BaseConnection × Next) [
              | again ↦ reader_loop n (λ i. closed (suc i)) (conn_read s).rest t'
              | stopped ↦ (t', stopped)
              | blocked ↦ (t', blocked)
            ]).0.read_queue
    round t' again now later = later
    round t' stopped now later = now
    round t' blocked now later = now
