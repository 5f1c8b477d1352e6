-- ===== src/AsyncCommand/RoundTrip.antt =====
-- `UnmarshalBinary` on what `MarshalBinary` produces.
use control_protocol.Prelude.{
  ℕ, ◌+◌, ◌<◌, ◌^◌, ◌≡◌, refl, ap, ◌∙◌, sym, List, [], ◌∷◌, ◌++◌, arith, append-nil, append_assoc,
  lt→ltb, le→ltb, length, length-append,
}
use control_protocol.Errors.{Text, ok}
use control_protocol.Wire.BigEndian.{put_uint32, u32, length-put_uint32}
use control_protocol.AsyncCommand.{
  AsyncCommandResult, zero_result, returns, ◌>>=◌, slice, marshal_binary, unmarshal_error,
  unmarshal_binary, parse_async_command_result,
}
use control_protocol.AsyncCommand.Marshal.{block, layout, marshal_binary-layout}
use control_protocol.AsyncCommand.Slices.{slice-append, prefix_value, length-block, unmarshal_found}

-- The lengths fit their 32 bits.
pub record Fits (id : List ℕ) (text : Text) : Type 0 where
  pub id_fits : length id < 2 ^ 32
  pub text_fits : length text < 2 ^ 32

unmarshal_error_found :
    (k : AsyncCommandResult) (p : List ℕ) (text : Text)
    → length text < 2 ^ 32
    → unmarshal_error k (p ++ block text) (length p) ≡ returns (record k { error = text })
unfolding unmarshal_error
unmarshal_error_found k p text fits = rw (size_there, ◌>>=◌, prefix_value text [] fits, text_there)
  where
    len : List ℕ
    len = put_uint32 (u32 (length text))

    four : length len ≡ 4
    four = length-put_uint32 _

    size_there : slice (p ++ block text) (length p) (length p + 4) ≡ returns len
    size_there =
        slice-append _ p len text (length p) (length p + 4) (sym (append_assoc p len text)) refl
          (omega (arith, four))

    text_there : slice (p ++ block text) (length p + 4) (length p + 4 + length text) ≡ returns text
    text_there =
        slice-append _ (p ++ len) text [] (length p + 4) (length p + 4 + length text)
          (sym (append_assoc p len text) ∙ sym (append-nil (p ++ len ++ text)))
          (omega (arith, four, length-append p len)) (omega (arith, four, length-append p len))

-- The result that was marshalled, read into `k`. An empty error text leaves the one in `k`.
abbrev pub merged : AsyncCommandResult → List ℕ → Text → AsyncCommandResult
merged k id [] = record k { command_id = id }
merged k id (c ∷ text) = record { command_id = id; error = c ∷ text }

unmarshal_binary-layout :
    (k : AsyncCommandResult) (id : List ℕ) (text : Text)
    → Fits id text
    → unmarshal_binary k (layout id text) ≡ returns (merged k id text)
unmarshal_binary-layout k id [] f =
    ap (unmarshal_binary k) (sym (append-nil (block id)))
    ∙ unmarshal_found k id [] f.id_fits
    ∙ rw (
        le→ltb (4 + length id) (length (block id ++ []))
          (omega (arith, length-append (block id) [], length-block id [] f.id_fits)))
unmarshal_binary-layout k id (c ∷ text) f =
    unmarshal_found k id (block (c ∷ text)) f.id_fits
    ∙ rw
        (lt→ltb (4 + length id) (length (block id ++ block (c ∷ text))) (
          omega (
            arith,
            length-append (block id) (block (c ∷ text)),
            length-block id [] f.id_fits,
            length-block (c ∷ text) [] f.text_fits,
          )))
        (rw (← length-block id [] f.id_fits)
          (unmarshal_error_found (record k { command_id = id }) (block id) (c ∷ text) f.text_fits))

-- `UnmarshalBinary` undoes `MarshalBinary`, whatever it reads into: the command id comes back, and
-- so does the error text; where there is none, the error that was there before stays.
pub unmarshal_binary-marshal_binary :
    (k r : AsyncCommandResult)
    → Fits r.command_id r.error
    → unmarshal_binary k (marshal_binary r) ≡ returns (merged k r.command_id r.error)
unmarshal_binary-marshal_binary k r f =
    ap (unmarshal_binary k) (marshal_binary-layout r)
    ∙ unmarshal_binary-layout k r.command_id r.error f

merged_zero :
    (id : List ℕ) (text : Text)
    → merged zero_result id text ≡ record { command_id = id; error = text }
merged_zero id [] = refl
merged_zero id (c ∷ text) = refl

-- `ParseAsyncCommandResult` gives back each result that was marshalled.
pub parse-marshal_binary :
    (r : AsyncCommandResult)
    → Fits r.command_id r.error
    → parse_async_command_result (marshal_binary r) ≡ returns (ok r)
unfolding parse_async_command_result
parse-marshal_binary r f =
    rw (unmarshal_binary-marshal_binary zero_result r f, ◌>>=◌, merged_zero r.command_id r.error)
