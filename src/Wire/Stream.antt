-- ===== src/Wire/Stream.antt =====
-- io: a reader as the sequence of what its `Read` calls will see, and `io.ReadAtLeast` over an
-- `io.LimitReader` with one number for the limit, the buffer and the minimum.
pub mod Laws
pub mod Bytes
use control_protocol.Prelude.{
  ℕ, zero, suc, ◌+◌, ◌-◌, ◌≤◌, ◌≡◌, refl, Bool, true, false, Option, none, some, List, [], ◌∷◌,
  ◌++◌, arith, ltb, ◌==ℕ◌, if◌then◌else◌, length, take, drop,
}
use control_protocol.Errors.{Error, eof, unexpected_eof}

-- One arrival: bytes, which a `Read` with a small buffer takes in parts, or a failed `Read`. After
-- the last arrival each `Read` returns `io.EOF`.
pub data Arrival : Type 0 where
  chunk : List ℕ → Arrival
  failure : Error → Arrival

abbrev pub Stream : Type 0
Stream = List Arrival

pub record ReadResult : Type 0 where
  pub got : List ℕ
  pub error : Option Error
  pub rest : Stream

abbrev pub prepend_read : List ℕ → ReadResult → ReadResult
prepend_read bs r = record r { got = bs ++ r.got }

-- The loop of `io.ReadAtLeast`, with `n` bytes of the buffer still to fill.
unfoldable pub fill : ℕ → Stream → ReadResult
fill n [] =
    if n ==ℕ 0
    then record { got = []; error = none; rest = [] }
    else record { got = []; error = some eof; rest = [] }
fill n (failure e ∷ s) =
    if n ==ℕ 0
    then record { got = []; error = none; rest = failure e ∷ s }
    else record { got = []; error = some e; rest = s }
fill n (chunk bs ∷ s) =
    let more = prepend_read bs (fill (n - length bs) s) in
    if n ==ℕ 0
    then record { got = []; error = none; rest = chunk bs ∷ s }
    else (if ltb n (length bs)
        then record { got = take n bs; error = none; rest = chunk (drop n bs) ∷ s }
        else more)

-- An end of the stream behind the first byte is `io.ErrUnexpectedEOF`.
abbrev pub at_least_error : ℕ → Option Error → Option Error
at_least_error n none = none
at_least_error n (some eof) = if n ==ℕ 0 then some eof else some unexpected_eof
at_least_error n (some e) = some e

unfoldable pub read_full : ℕ → Stream → ReadResult
unfolding fill
read_full n s = let r = fill n s in record r { error = at_least_error (length r.got) r.error }

-- The bytes that arrive before the first failure.
abbrev pub contents : Stream → List ℕ
contents [] = []
contents (chunk bs ∷ s) = bs ++ contents s
contents (failure e ∷ s) = []

-- No `Read` fails but at the end.
abbrev pub IsSound : Stream → Type 0
IsSound [] = Unit {0}
IsSound (chunk bs ∷ s) = IsSound s
IsSound (failure e ∷ s) = ⊥
