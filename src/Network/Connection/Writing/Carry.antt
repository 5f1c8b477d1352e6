-- ===== src/Network/Connection/Writing/Carry.antt =====
-- The writing loop of one end and the reading loop of the other, joined by a conn.
use control_protocol.Prelude.{
  ℕ, ◌+◌, ◌<◌, ◌≡◌, refl, sym, ap, subst, ◌∙◌, false, Bool-cases, inl, inr, List, [], ◌∷◌, ◌++◌,
  map, append-nil, append_assoc, arith, ltb, length, length-append, take, All, All-append,
  All-split, drop, length-drop, take-append-drop, ltb→lt, ltb→le, take_all,
}
use control_protocol.Wire.Writer.{Writer}
use control_protocol.Wire.Stream.{Stream, contents, IsSound}
use control_protocol.Message.{Message}
use control_protocol.Message.Format.{encode, received, IsWellFormed}
use control_protocol.Network.Connection.{BaseConnection, Next, stopped, writer_loop, reader_loop}
use control_protocol.Network.Connection.Reading.{encode_all, nothing, part_of, reader_loop-delivers}
use control_protocol.Network.Connection.Writing.{first_bytes}
use control_protocol.Network.Connection.Writing.Loop.{writer_loop-Wrote}

encode_all-append :
    (ms : List Message) (m : Message) → encode_all (ms ++ m ∷ []) ≡ encode_all ms ++ encode m
encode_all-append [] m = append-nil (encode m)
encode_all-append (x ∷ ms) m =
    ap (◌++◌ (encode x)) (encode_all-append ms m)
    ∙ sym (append_assoc (encode x) (encode_all ms) (encode m))

-- The messages that arrived: those that left the queue of the sender, and at most the next one,
-- which the conn took whole before it failed.
pub data Arrived (written kept ms : List Message) : Type 0 where
  those : ms ≡ written → Arrived written kept ms
  one_more_of :
      (m : Message) (rest : List Message)
      → kept ≡ m ∷ rest
      → ms ≡ written ++ m ∷ []
      → Arrived written kept ms

pub record Carries (written kept : List Message) (u : BaseConnection) (r : BaseConnection × Next)
    : Type 0 where
  pub messages : List Message
  pub arrived : Arrived written kept messages
  pub delivered : r ≡ (record u { read_queue = u.read_queue ++ map received messages }, stopped)

carries :
    (written kept : List Message) (k n : ℕ) (s : Stream) (u : BaseConnection)
    → All IsWellFormed written
    → All IsWellFormed kept
    → IsSound s
    → contents s ≡ encode_all written ++ take k (first_bytes kept)
    → length written + 1 < n
    → Carries written kept u (reader_loop n (λ i. false) s u)
carries written [] k n s u v v' h e lt = record {
  messages = written;
  arrived = those refl;
  delivered =
      reader_loop-delivers written n s u (take k []) v h e (nothing (take_all k [] (omega arith)))
        (omega arith);
}
carries written (m ∷ rest) k n s u v v' h e lt = elim (Bool-cases (ltb k (length (encode m)))) [
  | inl part ↦ record {
    messages = written;
    arrived = those refl;
    delivered =
        reader_loop-delivers written n s u (take k (encode m)) v h e
          (part_of m (drop k (encode m)) v'.0 (sym (take-append-drop k (encode m)))
            (omega (arith, length-drop k (encode m), ltb→lt _ _ part)))
          (omega arith);
  }
  | inr whole ↦ record {
    messages = written ++ m ∷ [];
    arrived = one_more_of m rest refl refl;
    delivered =
        reader_loop-delivers (written ++ m ∷ []) n s u []
          (All-append IsWellFormed written (m ∷ []) v (v'.0, tt)) h
          (e
            ∙ ap (◌++◌ (encode_all written)) (take_all k (encode m) (ltb→le _ _ whole))
            ∙ sym (encode_all-append written m)
            ∙ sym (append-nil (encode_all (written ++ m ∷ []))))
          (nothing refl) (omega (arith, length-append written (m ∷ [])));
  }
]

module _ {ℓ} {W : Type ℓ} (io : Writer W) where
  -- Two ends joined by a fresh conn: the writing loop of one runs for some rounds and signals no
  -- error, and the reading loop of the other, with its context open, sees the bytes that the conn
  -- took, in any parts. It gets just the messages that left the sender's queue, in order and each
  -- once, and perhaps the next one, whose write failed behind its last byte.
  pub loops-carry :
      (n k : ℕ) (w : W) (t u : BaseConnection) (s : Stream)
      → Writer.sent io w ≡ []
      → All IsWellFormed t.write_queue
      → length (writer_loop io n w t).1.errors ≡ length t.errors
      → IsSound s
      → contents s ≡ Writer.sent io (writer_loop io n w t).0
      → length t.write_queue + 1 < k
      → Carries
          (writer_loop-Wrote io n w t).written
          (writer_loop io n w t).1.write_queue
          u
          (reader_loop k (λ i. false) s u)
  loops-carry n k w t u s fresh v quiet h e lt =
      let d = writer_loop-Wrote io n w t in
      let kept = (writer_loop io n w t).1.write_queue in
      let (j, there) = d.on_conn quiet in
      let (front, back) =
        All-split IsWellFormed d.written kept (subst (All IsWellFormed) d.taken_in_order v) in
      carries d.written kept j k s u front back h
        (e ∙ there ∙ ap (λ b. b ++ encode_all d.written ++ take j (first_bytes kept)) fresh)
        (omega (arith, ap length d.taken_in_order, length-append d.written kept))
