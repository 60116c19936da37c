-- ===== src/Prelude/Bits.antt =====
-- Machine words, and the bound on a masked word.
use Prim.Native.Nat.{
  ℕ, zero, suc, ◌+◌, ◌-◌, ◌/◌, ◌%◌, ◌^◌, ◌≤◌, min, bit_and, digits, bit_and-bitwise,
}
use native.Mathlib.Omega.{arith}

-- uint64_t and uint32_t arithmetic is modulo these.
abbrev pub u64 : ℕ → ℕ
u64 n = n % 2 ^ 64

abbrev pub u32 : ℕ → ℕ
u32 n = n % 2 ^ 32

-- a - b on uint64_t
abbrev pub sub_u64 : ℕ → ℕ → ℕ
sub_u64 a b = (a + 2 ^ 64 - b) % 2 ^ 64

-- The bits that `n` rounds compare.
abbrev common_bits : ℕ → ℕ → ℕ → ℕ
common_bits rounds value mask = digits (λ m. zero) min rounds value mask

common_bits-le : (n a b : ℕ) → common_bits n a b ≤ b
common_bits-le zero a b = omega arith
common_bits-le (suc n) zero b = omega arith
common_bits-le (suc n) (suc a) b = omega (arith, common_bits-le n (suc a / 2) (b / 2))

-- A mask bounds what it lets through.
pub bit_and-le : (a b : ℕ) → bit_and a b ≤ b
bit_and-le a b = omega (arith, bit_and-bitwise a b, common_bits-le a a b)
