-- ===== src/Wire/Stream/Bytes.antt =====
-- Reads from a stream on which only bytes arrive, also where they fail.
use control_protocol.Prelude.{
  ℕ, zero, suc, ◌-◌, ◌<◌, ◌≤◌, ◌^◌, length-take, List, [], ◌∷◌, arith, length, take, drop,
  replicate, get_or, All-append, if_both, ltb, ◌==ℕ◌, length-append,
}
use control_protocol.Wire.BigEndian.{IsByte, AreBytes, uint32}
use control_protocol.Wire.Stream.{chunk, failure, Stream, ReadResult, fill, read_full}

-- All that arrives is bytes.
abbrev pub Brings : Stream → Type 0
Brings [] = Unit {0}
Brings (chunk bs ∷ s) = AreBytes bs × Brings s
Brings (failure e ∷ s) = Brings s

take-AreBytes : (n : ℕ) (bs : List ℕ) → AreBytes bs → AreBytes (take n bs)
take-AreBytes zero bs h = tt
take-AreBytes (suc n) [] h = tt
take-AreBytes (suc n) (b ∷ bs) (here, rest) = (here, take-AreBytes n bs rest)

pub drop-AreBytes : (n : ℕ) (bs : List ℕ) → AreBytes bs → AreBytes (drop n bs)
drop-AreBytes zero bs h = h
drop-AreBytes (suc n) [] h = tt
drop-AreBytes (suc n) (b ∷ bs) (here, rest) = drop-AreBytes n bs rest

pub replicate-AreBytes : (n : ℕ) → AreBytes (replicate n 0)
replicate-AreBytes zero = tt
replicate-AreBytes (suc n) = (omega arith, replicate-AreBytes n)

pub get_or-IsByte : (bs : List ℕ) (i : ℕ) → AreBytes bs → IsByte (get_or bs i 0)
get_or-IsByte [] i h = omega arith
get_or-IsByte (b ∷ bs) zero h = h.0
get_or-IsByte (b ∷ bs) (suc i) h = get_or-IsByte bs i h.1

pub uint32-AreBytes : (bs : List ℕ) → AreBytes bs → uint32 bs < 2 ^ 32
unfolding uint32
uint32-AreBytes bs h =
    omega (
      arith,
      get_or-IsByte bs 0 h,
      get_or-IsByte bs 1 h,
      get_or-IsByte bs 2 h,
      get_or-IsByte bs 3 h,
    )

-- A read gives bytes and leaves bytes.
pub record Gives (r : ReadResult) : Type 0 where
  pub gets : AreBytes r.got
  pub brings : Brings r.rest

fill-Gives : (n : ℕ) (s : Stream) → Brings s → Gives (fill n s)
unfolding fill
fill-Gives n [] h =
    if_both Gives (n ==ℕ 0) (record { gets = tt; brings = tt }) (record { gets = tt; brings = tt })
fill-Gives n (failure e ∷ s) h =
    if_both Gives (n ==ℕ 0) (record { gets = tt; brings = h }) (record { gets = tt; brings = h })
fill-Gives n (chunk bs ∷ s) (b, h) =
    let more = fill-Gives (n - length bs) s h in
    if_both Gives (n ==ℕ 0) (record { gets = tt; brings = (b, h) })
      (if_both Gives (ltb n (length bs))
        (record { gets = take-AreBytes n bs b; brings = (drop-AreBytes n bs b, h) })
        (record {
          gets = All-append IsByte bs (fill (n - length bs) s).got b more.gets;
          brings = more.brings;
        }))

pub read_full-Gives : (n : ℕ) (s : Stream) → Brings s → Gives (read_full n s)
unfolding read_full
read_full-Gives n s h = let r = fill-Gives n s h in record { gets = r.gets; brings = r.brings }

-- A read never gives more than was asked for.
fill_count : (n : ℕ) (s : Stream) → length (fill n s).got ≤ n
unfolding fill
fill_count n [] = ground arith
fill_count n (failure e ∷ s) = ground arith
fill_count n (chunk bs ∷ s) = ground (
  arith,
  length-take n bs,
  fill_count (n - length bs) s,
  length-append bs (fill (n - length bs) s).got,
)

pub read_full_count : (n : ℕ) (s : Stream) → length (read_full n s).got ≤ n
unfolding read_full
read_full_count n s = fill_count n s
