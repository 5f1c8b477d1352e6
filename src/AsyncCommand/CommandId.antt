-- ===== src/AsyncCommand/CommandId.antt =====
-- pkg/message/async_command.go: command ids made of numbers.
use control_protocol.Prelude.{ℕ, ◌-◌, ◌<◌, ◌^◌, ◌≡◌, ap, List, arith, ◌↔◌}
use control_protocol.Wire.BigEndian.{u64, put_uint64, put_uint64_injective}

-- `negsuc n` is -(n + 1).
pub data ℤ : Type 0 where
  pos : ℕ → ℤ
  negsuc : ℕ → ℤ

-- The values of an `int64`.
abbrev pub IsInt64 : ℤ → Type 0
IsInt64 (pos n) = n < 2 ^ 63
IsInt64 (negsuc n) = n < 2 ^ 63

-- The conversion `uint64(id)`, in two's complement.
unfoldable pub uint64_of : ℤ → ℕ
uint64_of (pos n) = u64 n
uint64_of (negsuc n) = 2 ^ 64 - 1 - u64 n

unfoldable pub int64_command_id : ℤ → List ℕ
unfolding uint64_of
int64_command_id id = put_uint64 (uint64_of id)

uint64_of-lt : (id : ℤ) → uint64_of id < 2 ^ 64
unfolding uint64_of
uint64_of-lt (pos n) = omega arith
uint64_of-lt (negsuc n) = omega arith

uint64_of_injective : (a b : ℤ) → IsInt64 a → IsInt64 b → uint64_of a ≡ uint64_of b → a ≡ b
unfolding uint64_of
uint64_of_injective (pos n) (pos m) h k e = ap pos (omega arith)
uint64_of_injective (pos n) (negsuc m) h k e = absurd (omega arith)
uint64_of_injective (negsuc n) (pos m) h k e = absurd (omega arith)
uint64_of_injective (negsuc n) (negsuc m) h k e = ap negsuc (omega arith)

-- Two `int64` numbers, negative ones included, have the same command id just when they are the
-- same number, so that a result is never matched to the command of another generation.
pub int64_command_id_injective :
    (a b : ℤ) → IsInt64 a → IsInt64 b → (int64_command_id a ≡ int64_command_id b) ↔ (a ≡ b)
unfolding int64_command_id
int64_command_id_injective a b h k = (
  λ e. uint64_of_injective a b h k (put_uint64_injective _ _ (uint64_of-lt a) (uint64_of-lt b) e),
  λ e. ap (λ id. put_uint64 (uint64_of id)) e,
)
