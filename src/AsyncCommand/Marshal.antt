-- ===== src/AsyncCommand/Marshal.antt =====
-- pkg/message/async_command_result.go: the buffer that `MarshalBinary` fills, field by field.
use control_protocol.Prelude.{
  ◌↔◌, ℕ, zero, suc, ◌+◌, ◌-◌, ◌≤◌, ◌≡◌, refl, ap, ◌∙◌, sym, true, false, List, [], ◌∷◌, ◌++◌,
  arith, append-nil, append_assoc, length, length-append, drop, replicate, take-append,
  drop-append_ge, eq-nil_of_length,
}
use control_protocol.Errors.{Text}
use control_protocol.Wire.BigEndian.{put_uint32, u32, length-put_uint32}
use control_protocol.AsyncCommand.{
  AsyncCommandResult, is_failed, overwrite, marshal_binary, with_command_id, with_error,
}

add-sub_self : (n m : ℕ) → n + m - n ≡ m
add-sub_self n m = omega arith

-- A block of a length and that many bytes.
abbrev pub block : List ℕ → List ℕ
block b = put_uint32 (u32 (length b)) ++ b

-- The command id, and the error text if there is one.
abbrev pub layout : List ℕ → Text → List ℕ
layout id [] = block id
layout id (c ∷ text) = block id ++ block (c ∷ text)

drop-replicate : (k n : ℕ) → drop k (replicate {A = ℕ} n 0) ≡ replicate (n - k) 0
drop-replicate zero n = ap (λ m. replicate {A = ℕ} m 0) (omega arith)
drop-replicate (suc k) zero = ap (λ m. replicate {A = ℕ} m 0) {x = 0} {y = 0 - suc k} (omega arith)
drop-replicate (suc k) (suc n) =
    drop-replicate k n
    ∙ ap (λ m. replicate {A = ℕ} m 0) {x = n - k} {y = suc n - suc k} (omega arith)

-- Free space of `n` bytes behind `p`: `bs` is written at its start.
overwrite_free :
    (p bs : List ℕ) (i n : ℕ)
    → i ≡ length p
    → length bs ≤ n
    → overwrite i bs (p ++ replicate n 0) ≡ p ++ bs ++ replicate (n - length bs) 0
unfolding overwrite
overwrite_free p bs i n e h = rw (
  e,
  take-append p (replicate n 0),
  drop-append_ge (length p + length bs) p (replicate n 0) (omega arith),
  add-sub_self (length p) (length bs),
  drop-replicate (length bs) n,
)

with_command_id-block :
    (id : List ℕ) (n : ℕ) → with_command_id id (4 + length id + n) ≡ block id ++ replicate n 0
unfolding with_command_id
with_command_id-block id n =
    ap (overwrite 4 id) (overwrite_free [] len 0 (4 + length id + n) refl (omega (arith, four)))
    ∙ overwrite_free len id 4 (4 + length id + n - length len) (sym four) (omega (arith, four))
    ∙ ap (λ m. block id ++ replicate m 0) (omega (arith, four))
  where
    len : List ℕ
    len = put_uint32 (u32 (length id))

    four : length len ≡ 4
    four = length-put_uint32 _

with_error-block :
    (p : List ℕ) (text : Text)
    → with_error text (length p) (p ++ replicate (4 + length text) 0) ≡ p ++ block text
unfolding with_error
with_error-block p text =
    ap (overwrite (length p + 4) text)
      (overwrite_free p len (length p) (4 + length text) refl (omega (arith, four)))
    ∙ overwrite_free (p ++ len) text (length p + 4) (4 + length text - length len)
        (omega (arith, four, length-append p len)) (omega (arith, four))
    ∙ ap (λ m. p ++ len ++ text ++ replicate m 0) {y = 0} (omega (arith, four))
    ∙ append-nil (p ++ len ++ text)
    ∙ append_assoc p len text
  where
    len : List ℕ
    len = put_uint32 (u32 (length text))

    four : length len ≡ 4
    four = length-put_uint32 _

pub is_failed_iff : (k : AsyncCommandResult) → (is_failed k ≡ false) ↔ (k.error ≡ [])
unfolding is_failed
is_failed_iff k = (λ h. eq-nil_of_length k.error (ground arith), λ e. rw e refl)

marshal_success : (id : List ℕ) → marshal_binary (record { command_id = id; error = [] }) ≡ block id
unfolding marshal_binary
marshal_success id =
    ap (with_command_id id) {y = 4 + length id + 0} (omega arith)
    ∙ with_command_id-block id 0
    ∙ append-nil (block id)

failed :
    (id : List ℕ) (c : ℕ) (text : Text)
    → is_failed (record { command_id = id; error = c ∷ text }) ≡ true
unfolding is_failed
failed id c text = ground arith

marshal_failure :
    (id : List ℕ) (c : ℕ) (text : Text)
    → marshal_binary (record { command_id = id; error = c ∷ text }) ≡ block id ++ block (c ∷ text)
marshal_failure id c text =
    steps
    ∙ ap (with_error (c ∷ text) (4 + length id))
        (ap (with_command_id id) (omega arith) ∙ with_command_id-block id (4 + length (c ∷ text)))
    ∙ ap (λ i. with_error (c ∷ text) i (block id ++ replicate (4 + length (c ∷ text)) 0))
        (omega (
          arith,
          length-append {0} (put_uint32 (u32 (length id))) id,
          length-put_uint32 (u32 (length id)),
        ))
    ∙ with_error-block (block id) (c ∷ text)
  where
    steps :
        marshal_binary (record { command_id = id; error = c ∷ text })
        ≡ with_error
            (c ∷ text)
            (4 + length id)
            (with_command_id id (4 + length id + 4 + length (c ∷ text)))
    steps = unfold marshal_binary in ground (arith, failed id c text)

-- `MarshalBinary` fills a buffer of just the right size: the block of the command id, and then the
-- block of the error text if the text is not empty.
pub marshal_binary-layout :
    (k : AsyncCommandResult) → marshal_binary k ≡ layout k.command_id k.error
marshal_binary-layout k = by_error k.command_id k.error
  where
    by_error :
        (id : List ℕ) (text : Text)
        → marshal_binary (record { command_id = id; error = text }) ≡ layout id text
    by_error id [] = marshal_success id
    by_error id (c ∷ text) = marshal_failure id c text
