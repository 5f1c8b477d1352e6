-- ===== src/Network/Connection/Reading.antt =====
-- What the reading loop puts into the read queue.
use control_protocol.Prelude.{
  ℕ, zero, suc, ◌<◌, ◌≡◌, sym, ap, subst, ◌∙◌, Bool, true, false, some, List, [], ◌∷◌, ◌++◌, map,
  append-nil, append_assoc, arith, length, All, ◌-◌,
}
use control_protocol.Errors.{Error, ok, err, is_eof, is_transient_error, net_error}
use control_protocol.Wire.Stream.{chunk, failure, fill, read_full, Stream, contents, IsSound}
use control_protocol.Message.{Message, zero_message, zero_header, read_from}
use control_protocol.Message.Format.{encode, IsWellFormed, received}
use control_protocol.Message.RoundTrip.{read_from-encode}
use control_protocol.Message.Truncated.{IsCut, read_from-IsCut, IsCut-in_header}
use control_protocol.Network.Connection.{
  BaseConnection, conn_read, after_read_of, stopped, reader_loop,
}

abbrev pub encode_all : List Message → List ℕ
encode_all [] = []
encode_all (m ∷ ms) = encode m ++ encode_all ms

conn_read-encode :
    (m : Message) (rest : List ℕ) (s : Stream)
    → IsWellFormed m
    → IsSound s
    → contents s ≡ encode m ++ rest
    → ((conn_read s).result ≡ ok (received m))
      × (contents (conn_read s).rest ≡ rest)
      × IsSound (conn_read s).rest
unfolding conn_read received
conn_read-encode m rest s v h e =
    let r = read_from-encode m zero_header rest s v h e in
    (ground (arith, r), r.left, r.still_sound)

-- What is left of a message that was cut off, or nothing.
pub data IsTail (cut : List ℕ) : Type 0 where
  nothing : cut ≡ [] → IsTail cut
  part_of :
      (m : Message) (missing : List ℕ)
      → IsWellFormed m
      → encode m ≡ cut ++ missing
      → 0 < length missing
      → IsTail cut

conn_read-IsCut :
    (s : Stream)
    → IsCut s (read_from zero_message s)
    → (e : Error) × ((conn_read s).result ≡ err e) × (is_eof e ≡ true)
unfolding conn_read
conn_read-IsCut s c = (c.reason, ground (arith, c), c.at_end)

conn_read-IsTail :
    (s : Stream)
    → IsSound s
    → IsTail (contents s)
    → (e : Error) × ((conn_read s).result ≡ err e) × (is_eof e ≡ true)
conn_read-IsTail s h (nothing e) =
    conn_read-IsCut s (IsCut-in_header zero_message s h (rw e (omega arith)))
conn_read-IsTail s h (part_of m missing v e pos) =
    conn_read-IsCut s (read_from-IsCut m zero_header s missing v h e pos)

reader_ends :
    (n : ℕ) (s : Stream) (t : BaseConnection)
    → IsSound s
    → IsTail (contents s)
    → reader_loop (suc n) (λ i. false) s t ≡ (t, stopped)
unfolding reader_loop after_read_of
reader_ends n s t h tail = ground (arith, conn_read-IsTail s h tail)

reader_round :
    (n : ℕ) (s : Stream) (t : BaseConnection) (m : Message) (rest : List ℕ)
    → IsWellFormed m
    → IsSound s
    → contents s ≡ encode m ++ rest
    → reader_loop (suc n) (λ i. false) s t
      ≡ reader_loop n
          (λ i. false)
          (conn_read s).rest
          (record t { read_queue = t.read_queue ++ received m ∷ [] })
unfolding reader_loop after_read_of
reader_round n s t m rest v h e = ground (arith, conn_read-encode m rest s v h e)

-- The reading loop over a conn that carries the wire format of some messages, one behind the other,
-- in whatever parts the bytes arrive, and then ends, between two messages or within one: it puts
-- those messages on the read queue, in order and each once, signals no error, and stops.
pub reader_loop-delivers :
    (ms : List Message) (n : ℕ) (s : Stream) (t : BaseConnection) (cut : List ℕ)
    → All IsWellFormed ms
    → IsSound s
    → contents s ≡ encode_all ms ++ cut
    → IsTail cut
    → length ms < n
    → reader_loop n (λ i. false) s t
      ≡ (record t { read_queue = t.read_queue ++ map received ms }, stopped)
reader_loop-delivers ms zero s t cut v h e tail lt = absurd (omega arith)
reader_loop-delivers [] (suc n) s t cut v h e tail lt =
    reader_ends n s t h (subst IsTail (sym e) tail)
    ∙ ap (λ q. (record t { read_queue = q }, stopped)) (sym (append-nil t.read_queue))
reader_loop-delivers (m ∷ ms) (suc n) s t cut v h e tail lt =
    let first = e ∙ append_assoc (encode m) (encode_all ms) cut in
    let (_, left, sound) = conn_read-encode m (encode_all ms ++ cut) s v.0 h first in
    reader_round n s t m (encode_all ms ++ cut) v.0 h first
    ∙ reader_loop-delivers ms n (conn_read s).rest
        (record t { read_queue = t.read_queue ++ received m ∷ [] }) cut v.1 sound left tail
        (omega arith)
    ∙ ap (λ q. (record t { read_queue = q }, stopped))
        (append_assoc t.read_queue (received m ∷ []) (map received ms))

-- With `t.ctx` closed the loop takes no more than one message, and stops behind it.
pub reader_loop_closed :
    (n : ℕ) (s : Stream) (t : BaseConnection) (m : Message) (rest : List ℕ)
    → IsWellFormed m
    → IsSound s
    → contents s ≡ encode m ++ rest
    → reader_loop (suc n) (λ i. true) s t
      ≡ (record t { read_queue = t.read_queue ++ received m ∷ [] }, stopped)
unfolding reader_loop after_read_of
reader_loop_closed n s t m rest v h e = ground (arith, conn_read-encode m rest s v h e)

fill_failure :
    (n : ℕ) (e : Error) (s : Stream)
    → 0 < n
    → fill n (failure e ∷ s) ≡ record { got = []; error = some e; rest = s }
unfolding fill
fill_failure n e s h = ground arith

read_full_failure :
    (n : ℕ) (p : List ℕ) (text : List ℕ) (temporary timeout : Bool) (s : Stream)
    → length p < n
    → read_full n (chunk p ∷ failure (net_error temporary timeout text) ∷ s)
      ≡ record { got = p; error = some (net_error temporary timeout text); rest = s }
unfolding read_full fill
read_full_failure n p text temporary timeout s h =
    ground (arith, append-nil p, fill_failure (n - length p) (net_error temporary timeout text) s)

-- The loop takes up the stream behind a transient failure, and what had been read of the header by
-- then is dropped: the bytes that come next are read as a new header, wherever in a message they
-- stand.
pub reader_loop_transient :
    (n : ℕ) (p text : List ℕ) (timeout : Bool) (s : Stream) (t : BaseConnection)
    → length p < 24
    → length t.errors < 10
    → reader_loop (suc n) (λ i. false) (chunk p ∷ failure (net_error true timeout text) ∷ s) t
      ≡ reader_loop n
          (λ i. false)
          s
          (record t { errors = t.errors ++ net_error true timeout text ∷ [] })
unfolding reader_loop after_read_of conn_read read_from is_eof is_transient_error
reader_loop_transient n p text timeout s t h k =
    ground (arith, read_full_failure 24 p text true timeout s)
