-- ===== src/Network/Connection/Writing/Loop.antt =====
-- The writing loop of pkg/network/base_connection.go, round by round.
use control_protocol.Prelude.{
  ℕ, zero, suc, ◌≡◌, refl, sym, ◌⊎◌, true, false, Bool-cases, Option-cases, none, some, inl, inr,
  List, [], ◌∷◌, ◌++◌, arith, ltb, length, length-append,
}
use control_protocol.Errors.{Error, is_eof, is_transient_error}
use control_protocol.Wire.Writer.{Writer}
use control_protocol.Message.{Message}
use control_protocol.Network.Connection.{
  BaseConnection, again, stopped, blocked, conn_write, after_write_of, writer_loop,
}
use control_protocol.Network.Connection.Writing.{
  Wrote, Wrote-nothing, Wrote-part, Wrote-sent, Wrote-again,
}

module _ {ℓ} {W : Type ℓ} (io : Writer W) where
  loop_idle :
      (n : ℕ) (w : W) (t : BaseConnection)
      → t.write_queue ≡ []
      → writer_loop io (suc n) w t ≡ (w, t, again)
  unfolding writer_loop
  loop_idle n w t e = ground arith

  module _ (n : ℕ) (w : W) (t : BaseConnection) (m : Message) (rest : List Message)
      (q : t.write_queue ≡ m ∷ rest) where
    loop_sent :
        (conn_write io w m).error ≡ none
        → writer_loop io (suc n) w t
          ≡ writer_loop io n (conn_write io w m).conn (record t { write_queue = rest })
    unfolding writer_loop after_write_of
    loop_sent h = ground arith

    loop_ended :
        (e : Error)
        → (conn_write io w m).error ≡ some e
        → is_eof e ≡ true
        → writer_loop io (suc n) w t
          ≡ ((conn_write io w m).conn, record t { write_queue = m ∷ rest }, stopped)
    unfolding writer_loop after_write_of
    loop_ended e h k = ground arith

    loop_blocked :
        (e : Error)
        → (conn_write io w m).error ≡ some e
        → is_eof e ≡ false
        → ltb (length t.errors) 10 ≡ false
        → writer_loop io (suc n) w t
          ≡ ((conn_write io w m).conn, record t { write_queue = m ∷ rest }, blocked)
    unfolding writer_loop after_write_of
    loop_blocked e h k f = ground arith

    loop_broken :
        (e : Error)
        → (conn_write io w m).error ≡ some e
        → is_eof e ≡ false
        → ltb (length t.errors) 10 ≡ true
        → is_transient_error e ≡ false
        → writer_loop io (suc n) w t ≡ (
          (conn_write io w m).conn,
          record t { write_queue = m ∷ rest; errors = t.errors ++ e ∷ [] },
          stopped,
        )
    unfolding writer_loop after_write_of
    loop_broken e h k f b = ground arith

    loop_again :
        (e : Error)
        → (conn_write io w m).error ≡ some e
        → is_eof e ≡ false
        → ltb (length t.errors) 10 ≡ true
        → is_transient_error e ≡ true
        → writer_loop io (suc n) w t
          ≡ writer_loop io n
              (conn_write io w m).conn
              (record t { write_queue = m ∷ rest; errors = t.errors ++ e ∷ [] })
    unfolding writer_loop after_write_of
    loop_again e h k f b = ground arith

    one_more : (e : Error) → length (t.errors ++ e ∷ []) ≡ suc (length t.errors)
    one_more e = omega (arith, length-append t.errors (e ∷ []))

    module _ (ih : (v : W) (u : BaseConnection) → Wrote io v u (writer_loop io n v u)) where
      failed_round :
          (e : Error)
          → (conn_write io w m).error ≡ some e
          → Wrote io w t (writer_loop io (suc n) w t)
      failed_round e h = elim (Bool-cases (is_eof e)) [
        | inl k ↦
            rw (loop_ended e h k) (Wrote-part io w t _ m rest stopped q refl refl (omega arith))
        | inr k ↦ elim (Bool-cases (ltb (length t.errors) 10)) [
          | inr f ↦
              rw (loop_blocked e h k f)
                (Wrote-part io w t _ m rest blocked q refl refl (omega arith))
          | inl f ↦ elim (Bool-cases (is_transient_error e)) [
            | inr b ↦
                rw (loop_broken e h k f b)
                  (Wrote-part io w t _ m rest stopped q refl refl (omega (arith, one_more e)))
            | inl b ↦
                rw (loop_again e h k f b)
                  (Wrote-again io w t _ m _ (sym q) refl (one_more e) (ih _ _))
          ]
        ]
      ]

      round : Wrote io w t (writer_loop io (suc n) w t)
      round = elim (Option-cases (conn_write io w m).error) [
        | inl h ↦ rw (loop_sent h) (Wrote-sent io w t m rest _ q h (ih _ _))
        | inr (e, h) ↦ failed_round e h
      ]

  List-cases :
      (l : List Message) → (l ≡ []) ⊎ ((m : Message) × (rest : List Message) × (l ≡ m ∷ rest))
  List-cases [] = inl refl
  List-cases (m ∷ rest) = inr (m, rest, refl)

  -- The writing loop, over any conn and for any number of rounds, with errors of every kind, loses
  -- no message and changes no order: those that left the queue were its first ones, in order, and
  -- the others are in the queue still, a message that failed back at its front. If no error was
  -- signalled, the conn holds the messages that left, whole and in order, and behind them at most a
  -- part of the next.
  pub writer_loop-Wrote : (n : ℕ) (w : W) (t : BaseConnection) → Wrote io w t (writer_loop io n w t)
  writer_loop-Wrote zero w t = unfold writer_loop in Wrote-nothing io w t again
  writer_loop-Wrote (suc n) w t = elim (List-cases t.write_queue) [
    | inl e ↦ rw (loop_idle n w t e) (Wrote-nothing io w t again)
    | inr (m, rest, e) ↦ round n w t m rest e (writer_loop-Wrote n)
  ]
