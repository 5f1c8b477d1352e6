-- ===== src/AsyncCommand/Truncated.antt =====
-- `ParseAsyncCommandResult` on data that was cut off.
use control_protocol.Prelude.{
  ℕ, ◌+◌, ◌<◌, ◌^◌, ◌≡◌, refl, ap, ◌∙◌, sym, subst, Bool-cases, inl, inr, List, [], ◌∷◌, ◌++◌,
  arith, append-nil, append_assoc, append_split, ltb, lt→ltb, ltb→lt, ltb→le, length, length-append,
  drop,
}
use control_protocol.Errors.{Text, ok}
use control_protocol.Wire.BigEndian.{put_uint32, u32, length-put_uint32}
use control_protocol.AsyncCommand.{
  AsyncCommandResult, zero_result, returns, panics, ◌>>=◌, slice, marshal_binary, unmarshal_error,
  unmarshal_binary, parse_async_command_result,
}
use control_protocol.AsyncCommand.Marshal.{block, layout, marshal_binary-layout}
use control_protocol.AsyncCommand.RoundTrip.{Fits, parse-marshal_binary}
use control_protocol.AsyncCommand.Slices.{
  slice-append, slice_short, prefix_value, length-block, unmarshal_found,
}

short_head : (k : AsyncCommandResult) (b : List ℕ) → length b < 4 → unmarshal_binary k b ≡ panics
unfolding unmarshal_binary
short_head k b h = rw (slice_short b 0 4 h)

short_id :
    (k : AsyncCommandResult) (id q : List ℕ)
    → length id < 2 ^ 32
    → length q < length id
    → unmarshal_binary k (put_uint32 (u32 (length id)) ++ q) ≡ panics
unfolding unmarshal_binary
short_id k id q fits h = rw (size_there, ◌>>=◌, prefix_value id [] fits, id_missing)
  where
    len : List ℕ
    len = put_uint32 (u32 (length id))

    four : length len ≡ 4
    four = length-put_uint32 _

    size_there : slice (len ++ q) 0 4 ≡ returns len
    size_there = slice-append _ [] len q 0 4 refl refl (omega (arith, four))

    id_missing : slice (len ++ q) 4 (4 + length id) ≡ panics
    id_missing = slice_short (len ++ q) 4 (4 + length id) (omega (arith, four, length-append len q))

short_size :
    (k : AsyncCommandResult) (p q : List ℕ)
    → length q < 4
    → unmarshal_error k (p ++ q) (length p) ≡ panics
unfolding unmarshal_error
short_size k p q h =
    rw (slice_short (p ++ q) (length p) (length p + 4) (omega (arith, length-append p q)))

short_text :
    (k : AsyncCommandResult) (p q : List ℕ) (text : Text)
    → length text < 2 ^ 32
    → length q < length text
    → unmarshal_error k (p ++ (put_uint32 (u32 (length text)) ++ q)) (length p) ≡ panics
unfolding unmarshal_error
short_text k p q text fits h = rw (size_there, ◌>>=◌, prefix_value text [] fits, text_missing)
  where
    len : List ℕ
    len = put_uint32 (u32 (length text))

    four : length len ≡ 4
    four = length-put_uint32 _

    size_there : slice (p ++ (len ++ q)) (length p) (length p + 4) ≡ returns len
    size_there =
        slice-append _ p len q (length p) (length p + 4) (sym (append_assoc p len q)) refl
          (omega (arith, four))

    text_missing : slice (p ++ (len ++ q)) (length p + 4) (length p + 4 + length text) ≡ panics
    text_missing =
        slice_short (p ++ (len ++ q)) (length p + 4) (length p + 4 + length text)
          (omega (arith, four, length-append p (len ++ q), length-append len q))

-- A cut within the block of the error text.
short_error :
    (k : AsyncCommandResult) (p q missing : List ℕ) (text : Text)
    → length text < 2 ^ 32
    → q ++ missing ≡ block text
    → 0 < length missing
    → unmarshal_error k (p ++ q) (length p) ≡ panics
short_error k p q missing text fits e pos = elim (Bool-cases (ltb (length q) 4)) [
  | inl short ↦ short_size k p q (ltb→lt _ _ short)
  | inr long ↦
      let (front, back) =
        append_split len text q missing e (omega (arith, four, ltb→le _ _ long)) in
      ap (λ b. unmarshal_error k (p ++ b) (length p)) front
      ∙ short_text k p (drop (length len) q) text fits
          (omega (arith, ap length back, length-append (drop (length len) q) missing))
]
  where
    len : List ℕ
    len = put_uint32 (u32 (length text))

    four : length len ≡ 4
    four = length-put_uint32 _

-- A cut within the block of the command id.
short_block :
    (k : AsyncCommandResult) (id rest b missing : List ℕ)
    → length id < 2 ^ 32
    → b ++ missing ≡ block id ++ rest
    → length b < 4 + length id
    → unmarshal_binary k b ≡ panics
short_block k id rest b missing fits e lt = elim (Bool-cases (ltb (length b) 4)) [
  | inl short ↦ short_head k b (ltb→lt _ _ short)
  | inr long ↦
      let (front, back) =
        append_split len (id ++ rest) b missing (e ∙ append_assoc len id rest)
          (omega (arith, four, ltb→le _ _ long)) in
      ap (unmarshal_binary k) front
      ∙ short_id k id (drop (length len) b) fits
          (omega (arith, four, ap length front, length-append len (drop (length len) b)))
]
  where
    len : List ℕ
    len = put_uint32 (u32 (length id))

    four : length len ≡ 4
    four = length-put_uint32 _

-- A result cut off behind its command id is a result with no error text.
pub data Cut (r : AsyncCommandResult) (b : List ℕ) : Type 0 where
  crashes : parse_async_command_result b ≡ panics → Cut r b
  loses_error :
      b ≡ block r.command_id
      → parse_async_command_result b
        ≡ returns (ok (record { command_id = r.command_id; error = [] }))
      → Cut r b

parse_panics :
    (b : List ℕ) → unmarshal_binary zero_result b ≡ panics → parse_async_command_result b ≡ panics
unfolding parse_async_command_result
parse_panics b h = rw (h, ◌>>=◌)

parse_block :
    (id : List ℕ)
    → length id < 2 ^ 32
    → parse_async_command_result (block id) ≡ returns (ok (record { command_id = id; error = [] }))
parse_block id fits =
    ap parse_async_command_result (sym (marshal_binary-layout none_failed))
    ∙ parse-marshal_binary none_failed (record { id_fits = fits; text_fits = omega arith })
  where
    none_failed : AsyncCommandResult
    none_failed = record { command_id = id; error = [] }

Cut-behind_id :
    (id q missing : List ℕ) (c : ℕ) (text : Text)
    → Fits id (c ∷ text)
    → q ++ missing ≡ block (c ∷ text)
    → 0 < length missing
    → Cut (record { command_id = id; error = c ∷ text }) (block id ++ q)
Cut-behind_id id [] missing c text f e pos =
    loses_error (append-nil (block id))
      (ap parse_async_command_result (append-nil (block id)) ∙ parse_block id f.id_fits)
Cut-behind_id id (x ∷ q) missing c text f e pos = crashes (
    parse_panics (block id ++ (x ∷ q)) (
      unmarshal_found zero_result id (x ∷ q) f.id_fits
      ∙ rw
          (lt→ltb (4 + length id) (length (block id ++ (x ∷ q)))
            (omega (arith, length-append (block id) (x ∷ q), length-block id [] f.id_fits)))
          (rw (← length-block id [] f.id_fits) (
            short_error (record zero_result { command_id = id }) (block id) (x ∷ q) missing
              (c ∷ text) f.text_fits e pos))))

Cut-layout :
    (id : List ℕ) (text : Text) (b missing : List ℕ)
    → Fits id text
    → b ++ missing ≡ layout id text
    → 0 < length missing
    → Cut (record { command_id = id; error = text }) b
Cut-layout id [] b missing f e pos = crashes (
    parse_panics b (
      short_block zero_result id [] b missing f.id_fits (e ∙ sym (append-nil (block id)))
        (omega (arith, ap length e, length-append b missing, length-block id [] f.id_fits))))
Cut-layout id (c ∷ text) b missing f e pos = elim (Bool-cases (ltb (length b) (4 + length id))) [
  | inl short ↦ crashes (
      parse_panics b
        (short_block zero_result id (block (c ∷ text)) b missing f.id_fits e (ltb→lt _ _ short)))
  | inr long ↦
      let (front, back) =
        append_split (block id) (block (c ∷ text)) b missing e
          (omega (arith, length-block id [] f.id_fits, ltb→le _ _ long)) in
      subst (Cut (record { command_id = id; error = c ∷ text })) (sym front)
        (Cut-behind_id id (drop (length (block id)) b) missing c text f back pos)
]

-- Data that stops before the end of a marshalled result makes `ParseAsyncCommandResult` panic on a
-- slice out of range, whatever byte it stops at, but for one: where it stops just behind the
-- command id, the result of a failed command parses as that of a successful one.
pub parse-Cut :
    (r : AsyncCommandResult) (b missing : List ℕ)
    → Fits r.command_id r.error
    → b ++ missing ≡ marshal_binary r
    → 0 < length missing
    → Cut r b
parse-Cut r b missing f e pos =
    Cut-layout r.command_id r.error b missing f (e ∙ marshal_binary-layout r) pos
