-- ===== src/Wire/Stream/Laws.antt =====
-- What a read of `n` bytes takes of a stream.
use control_protocol.Prelude.{
  ℕ, zero, suc, ◌-◌, ◌≤◌, ◌<◌, ◌≡◌, refl, none, some, List, [], ◌∷◌, arith, length, take, drop,
  take-append_le, drop-append_le, take-append_ge, drop-append_ge, length-append, inl, inr,
  Bool-cases, true, ◌==ℕ◌, ◌++◌, take-append, drop-append, ap, ◌∙◌,
}
use control_protocol.Errors.{Error, eof, unexpected_eof, is_eof}
use control_protocol.Wire.Stream.{
  chunk, failure, Stream, ReadResult, fill, read_full, contents, IsSound,
}

-- What a read of `n` bytes gives, when `n` bytes arrive.
pub record Fills (n : ℕ) (s : Stream) (r : ReadResult) : Type 0 where
  pub no_error : r.error ≡ none
  pub all_got : r.got ≡ take n (contents s)
  pub left : contents r.rest ≡ drop n (contents s)
  pub still_sound : IsSound r.rest

fill_zero : (s : Stream) → IsSound s → Fills 0 s (fill 0 s)
unfolding fill
fill_zero [] h = record { no_error = refl; all_got = refl; left = refl; still_sound = tt }
fill_zero (chunk bs ∷ s) h = record {
  no_error = refl;
  all_got = refl;
  left = refl;
  still_sound = h;
}
fill_zero (failure e ∷ s) h = absurd h

fill_chunk :
    (n : ℕ) (bs : List ℕ) (s : Stream)
    → IsSound s
    → Fills (n - length bs) s (fill (n - length bs) s)
    → Fills n (chunk bs ∷ s) (fill n (chunk bs ∷ s))
unfolding fill
fill_chunk zero bs s h f = fill_zero (chunk bs ∷ s) h
fill_chunk (suc n) bs s h f = ground (
  arith,
  take-append_le (suc n) bs (contents s),
  drop-append_le (suc n) bs (contents s),
  take-append_ge (suc n) bs (contents s),
  drop-append_ge (suc n) bs (contents s),
)

pub fill-Fills : (n : ℕ) (s : Stream) → IsSound s → n ≤ length (contents s) → Fills n s (fill n s)
unfolding fill
fill-Fills zero [] h le = fill_zero [] h
fill-Fills (suc n) [] h le = absurd (omega arith)
fill-Fills n (failure e ∷ s) h le = absurd h
fill-Fills n (chunk bs ∷ s) h le =
    fill_chunk n bs s h
      (fill-Fills (n - length bs) s h (omega (arith, length-append bs (contents s))))

-- A stream that ends before `n` bytes gives what it has, and the end.
pub fill_short :
    (n : ℕ) (s : Stream)
    → IsSound s
    → length (contents s) < n
    → ((fill n s).error ≡ some eof) × ((fill n s).got ≡ contents s)
unfolding fill
fill_short n [] h lt = ground arith
fill_short n (failure e ∷ s) h lt = absurd h
fill_short n (chunk bs ∷ s) h lt =
    ground (arith, length-append bs (contents s), fill_short (n - length bs) s h)

-- `n` bytes that arrive in any parts are read whole, in order, and what follows them stays.
pub read_full-Fills :
    (n : ℕ) (s : Stream) → IsSound s → n ≤ length (contents s) → Fills n s (read_full n s)
unfolding read_full
read_full-Fills n s h le = ground (arith, fill-Fills n s h le)

pub read_full_end :
    (n : ℕ) (s : Stream) → IsSound s → contents s ≡ [] → 0 < n → (read_full n s).error ≡ some eof
unfolding read_full
read_full_end n s h e pos = ground (arith, fill_short n s h)

pub read_full_short :
    (n : ℕ) (s : Stream)
    → IsSound s
    → 0 < length (contents s)
    → length (contents s) < n
    → ((read_full n s).error ≡ some unexpected_eof) × ((read_full n s).got ≡ contents s)
unfolding read_full
read_full_short n s h pos lt = ground (arith, fill_short n s h lt)

-- The bytes of `xs` in front of the stream are what a read of their number gives.
pub record Splits (xs ys : List ℕ) (r : ReadResult) : Type 0 where
  pub no_error : r.error ≡ none
  pub all_got : r.got ≡ xs
  pub left : contents r.rest ≡ ys
  pub still_sound : IsSound r.rest

pub read_full-Splits :
    (n : ℕ) (xs ys : List ℕ) (s : Stream)
    → n ≡ length xs
    → IsSound s
    → contents s ≡ xs ++ ys
    → Splits xs ys (read_full n s)
read_full-Splits n xs ys s e h c =
    let f = read_full-Fills n s h (omega (arith, ap length c, length-append xs ys)) in
    record {
      no_error = f.no_error;
      all_got = f.all_got ∙ rw (e, c) (take-append xs ys);
      left = f.left ∙ rw (e, c) (drop-append xs ys);
      still_sound = f.still_sound;
    }

-- A read of more bytes than there are gives those there are, and an error that means the end.
pub record EndsEarly (s : Stream) (r : ReadResult) : Type 0 where
  pub all_got : r.got ≡ contents s
  pub reason : Error
  pub failed : r.error ≡ some reason
  pub at_end : is_eof reason ≡ true

pub read_full-EndsEarly :
    (n : ℕ) (s : Stream) → IsSound s → length (contents s) < n → EndsEarly s (read_full n s)
unfolding read_full is_eof
read_full-EndsEarly n s h lt = elim (Bool-cases (length (contents s) ==ℕ 0)) [
  | inl none_there ↦ record {
    all_got = (fill_short n s h lt).1;
    reason = eof;
    failed = ground (arith, fill_short n s h lt);
    at_end = refl;
  }
  | inr some_there ↦ record {
    all_got = (fill_short n s h lt).1;
    reason = unexpected_eof;
    failed = ground (arith, fill_short n s h lt);
    at_end = refl;
  }
]
