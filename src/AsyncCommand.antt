-- ===== src/AsyncCommand.antt =====
-- pkg/message: the result of an asynchronous command and its binary form, and command ids.
pub mod Marshal
mod Slices
pub mod RoundTrip
pub mod Truncated
pub mod CommandId
use control_protocol.Prelude.{
  ℕ, zero, suc, ◌+◌, ◌-◌, Bool, true, false, ◌&&◌, not, Option, none, some, List, [], ◌∷◌, ◌++◌,
  ltb, leb, ◌==ℕ◌, if◌then◌else◌, length, take, drop, replicate,
}
use control_protocol.Errors.{Text, Result, ok, err}
use control_protocol.Wire.BigEndian.{put_uint32, uint32, u32}

-- A call that may panic on a slice out of range.
pub data Call {ℓ} (A : Type ℓ) : Type ℓ where
  returns : A → Call A
  panics : Call A

infixl 5 ◌>>=◌
abbrev pub ◌>>=◌ {ℓ κ} : {A : Type ℓ} {B : Type κ} → Call A → (A → Call B) → Call B
returns a >>= f = f a
panics >>= f = panics

pub record AsyncCommandResult : Type 0 where
  pub command_id : List ℕ
  pub error : Text

abbrev pub zero_result : AsyncCommandResult
zero_result = record { command_id = []; error = [] }

unfoldable pub is_failed : AsyncCommandResult → Bool
is_failed k = not (length k.error ==ℕ 0)

-- `copy(b[i:], bs)`, for a `b` that is long enough.
unfoldable pub overwrite : ℕ → List ℕ → List ℕ → List ℕ
overwrite i bs b = take i b ++ bs ++ drop (i + length bs) b

-- A new buffer of `n` bytes with the command id, behind its length, at the front.
unfoldable pub with_command_id : List ℕ → ℕ → List ℕ
with_command_id id n = overwrite 4 id (overwrite 0 (put_uint32 (u32 (length id))) (replicate n 0))

-- The error text, behind its length, from index `i` on.
unfoldable pub with_error : Text → ℕ → List ℕ → List ℕ
with_error text i b = overwrite (i + 4) text (overwrite i (put_uint32 (u32 (length text))) b)

unfoldable pub marshal_binary : AsyncCommandResult → List ℕ
unfolding is_failed
marshal_binary k =
    let bytes_number = 4 + length k.command_id in
    let total = if is_failed k then bytes_number + 4 + length k.error else bytes_number in
    let b = with_command_id k.command_id total in
    if is_failed k then with_error k.error (4 + length k.command_id) b else b

-- `b[lo:hi]`, for a slice whose capacity is its length.
abbrev pub slice : List ℕ → ℕ → ℕ → Call (List ℕ)
slice b lo hi =
    if leb lo hi && leb hi (length b) then returns (take (hi - lo) (drop lo b)) else panics

pub unmarshal_error : AsyncCommandResult → List ℕ → ℕ → Call AsyncCommandResult
unmarshal_error k b at = do
  length_bytes ← slice b at (at + 4)
  text ← slice b (at + 4) (at + 4 + uint32 length_bytes)
  returns (record k { error = text })

-- The error is set if anything follows the command id. The returned `error` is always nil.
unfoldable pub unmarshal_binary : AsyncCommandResult → List ℕ → Call AsyncCommandResult
unfolding unmarshal_error
unmarshal_binary k b = do
  length_bytes ← slice b 0 4
  let id_end = 4 + uint32 length_bytes
  id ← slice b 4 id_end
  let found = record k { command_id = id }
  if ltb id_end (length b) then unmarshal_error found b id_end else returns found

-- `ParseAsyncCommandResult`: no input makes it return an error.
unfoldable pub parse_async_command_result : List ℕ → Call (Result AsyncCommandResult)
unfolding unmarshal_binary
parse_async_command_result b = do acr ← unmarshal_binary zero_result b; returns (ok acr)
