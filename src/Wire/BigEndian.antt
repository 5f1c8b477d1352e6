-- ===== src/Wire/BigEndian.antt =====
-- encoding/binary: `binary.BigEndian.PutUint32`, `Uint32` and `PutUint64`. A byte is a number below
-- 256, and a slice the list of its bytes.
use control_protocol.Prelude.{
  ℕ, ◌+◌, ◌*◌, ◌/◌, ◌%◌, ◌^◌, ◌<◌, ◌≡◌, refl, List, [], ◌∷◌, arith, length, get_or, All,
}

abbrev pub IsByte : ℕ → Type 0
IsByte b = b < 256

abbrev pub AreBytes : List ℕ → Type 0
AreBytes = All IsByte

abbrev pub u8 : ℕ → ℕ
u8 n = n % 2 ^ 8

abbrev pub u32 : ℕ → ℕ
u32 n = n % 2 ^ 32

abbrev pub u64 : ℕ → ℕ
u64 n = n % 2 ^ 64

unfoldable pub put_uint32 : ℕ → List ℕ
put_uint32 v = u8 (v / 2 ^ 24) ∷ u8 (v / 2 ^ 16) ∷ u8 (v / 2 ^ 8) ∷ u8 v ∷ []

-- The value of four bytes; a shorter slice is a fault that callers test before.
unfoldable pub uint32 : List ℕ → ℕ
uint32 b = get_or b 0 0 * 2 ^ 24 + get_or b 1 0 * 2 ^ 16 + get_or b 2 0 * 2 ^ 8 + get_or b 3 0

unfoldable pub put_uint64 : ℕ → List ℕ
put_uint64 v =
    u8 (v / 2 ^ 56)
    ∷ u8 (v / 2 ^ 48)
    ∷ u8 (v / 2 ^ 40)
    ∷ u8 (v / 2 ^ 32)
    ∷ u8 (v / 2 ^ 24)
    ∷ u8 (v / 2 ^ 16)
    ∷ u8 (v / 2 ^ 8)
    ∷ u8 v
    ∷ []

pub uint32-put_uint32 : (v : ℕ) → v < 2 ^ 32 → uint32 (put_uint32 v) ≡ v
unfolding uint32 put_uint32
uint32-put_uint32 v h = omega arith

pub put_uint32-AreBytes : (v : ℕ) → AreBytes (put_uint32 v)
unfolding put_uint32
put_uint32-AreBytes v = omega arith

pub length-put_uint32 : (v : ℕ) → length (put_uint32 v) ≡ 4
unfolding put_uint32
length-put_uint32 v = refl

pub length-put_uint64 : (v : ℕ) → length (put_uint64 v) ≡ 8
unfolding put_uint64
length-put_uint64 v = refl

pub uint32-lt : (a b c d : ℕ) → AreBytes (a ∷ b ∷ c ∷ d ∷ []) → uint32 (a ∷ b ∷ c ∷ d ∷ []) < 2 ^ 32
unfolding uint32
uint32-lt a b c d h = omega arith

-- Two 64-bit values with the same eight bytes are the same value.
pub put_uint64_injective : (v w : ℕ) → v < 2 ^ 64 → w < 2 ^ 64 → put_uint64 v ≡ put_uint64 w → v ≡ w
unfolding put_uint64
put_uint64_injective v w hv hw e = ground arith
