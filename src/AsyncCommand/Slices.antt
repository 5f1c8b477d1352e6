-- ===== src/AsyncCommand/Slices.antt =====
-- What `UnmarshalBinary` sees at the offsets that it slices at.
use control_protocol.Prelude.{
  ℕ, ◌+◌, ◌-◌, ◌<◌, ◌^◌, ◌≡◌, refl, ap, ◌∙◌, sym, List, [], ◌++◌, arith, append_assoc, ltb,
  if◌then◌else◌, length, length-append, take-append, drop-append,
}
use control_protocol.Wire.BigEndian.{put_uint32, u32, uint32, uint32-put_uint32, length-put_uint32}
use control_protocol.AsyncCommand.{
  AsyncCommandResult, returns, panics, ◌>>=◌, slice, unmarshal_error, unmarshal_binary,
}
use control_protocol.AsyncCommand.Marshal.{block}

add-sub_self : (n m : ℕ) → n + m - n ≡ m
add-sub_self n m = omega arith

pub slice-append :
    (b p q r : List ℕ) (lo hi : ℕ)
    → b ≡ p ++ q ++ r
    → lo ≡ length p
    → hi ≡ length p + length q
    → slice b lo hi ≡ returns q
slice-append b p q r lo hi e h k =
    rw
      (
        e,
        h,
        k,
        add-sub_self (length p) (length q),
        append_assoc p q r,
        drop-append p (q ++ r),
        take-append q r,
      )
      (ground (arith, length-append p (q ++ r), length-append q r))

pub slice_short : (b : List ℕ) (lo hi : ℕ) → length b < hi → slice b lo hi ≡ panics
slice_short b lo hi h = ground arith

module _ (id : List ℕ) (rest : List ℕ) (fits : length id < 2 ^ 32) where
  pub prefix_four : length (put_uint32 (u32 (length id))) ≡ 4
  prefix_four = length-put_uint32 _

  pub prefix_value : uint32 (put_uint32 (u32 (length id))) ≡ length id
  prefix_value =
      ap (λ n. uint32 (put_uint32 n)) {x = u32 (length id)} (omega arith)
      ∙ uint32-put_uint32 (length id) fits

  pub slice_prefix : slice (block id ++ rest) 0 4 ≡ returns (put_uint32 (u32 (length id)))
  slice_prefix =
      slice-append _ [] _ (id ++ rest) 0 4 (append_assoc _ id rest) refl
        (omega (arith, prefix_four))

  slice_content : slice (block id ++ rest) 4 (4 + length id) ≡ returns id
  slice_content =
      slice-append _ (put_uint32 (u32 (length id))) id rest 4 (4 + length id) refl (sym prefix_four)
        (omega (arith, prefix_four))

  pub length-block : length (block id) ≡ 4 + length id
  length-block = length-append _ id ∙ omega (arith, prefix_four)

pub unmarshal_found :
    (k : AsyncCommandResult) (id rest : List ℕ)
    → length id < 2 ^ 32
    → unmarshal_binary k (block id ++ rest) ≡ (
        if ltb (4 + length id) (length (block id ++ rest))
        then unmarshal_error (record k { command_id = id }) (block id ++ rest) (4 + length id)
        else returns (record k { command_id = id }))
unfolding unmarshal_binary
unmarshal_found k id rest fits =
    rw (slice_prefix id rest fits, ◌>>=◌, prefix_value id rest fits, slice_content id rest fits)
