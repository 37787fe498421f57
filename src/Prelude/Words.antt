-- ===== src/Prelude/Words.antt =====
-- Unsigned machine words of C as native numbers: a value is a plain number, and each operation that
-- can leave the range reduces its result.
use Prim.Native.Nat.{ℕ, ◌+◌, ◌-◌, ◌*◌, ◌%◌, ◌^◌, ◌<◌, ◌≤◌}
use mathlib.Core.Path.{◌≡◌}
use native.Mathlib.Nat.{mul-le-mul}
use native.Mathlib.Omega.{arith}

abbrev pub u8_mod : ℕ
u8_mod = 2 ^ 8

abbrev pub u32_mod : ℕ
u32_mod = 2 ^ 32

abbrev pub u64_mod : ℕ
u64_mod = 2 ^ 64

-- The conversion to `uint8_t`, `unsigned` and `uint64_t` (`size_t` has 64 bits on the target).
abbrev pub u8 : ℕ → ℕ
u8 x = x % u8_mod

abbrev pub u32 : ℕ → ℕ
u32 x = x % u32_mod

abbrev pub u64 : ℕ → ℕ
u64 x = x % u64_mod

-- `a - b` at 64 bits and at 32 bits, for operands in range.
abbrev pub sub64 : ℕ → ℕ → ℕ
sub64 a b = (a + u64_mod - b) % u64_mod

abbrev pub sub32 : ℕ → ℕ → ℕ
sub32 a b = (a + u32_mod - b) % u32_mod

-- An operation whose true result fits does not wrap.
pub u32_fits : {x : ℕ} → x < u32_mod → u32 x ≡ x
u32_fits h = omega arith

pub u64_fits : {x : ℕ} → x < u64_mod → u64 x ≡ x
u64_fits h = omega arith

pub sub64_fits : {a b : ℕ} → a < u64_mod → b ≤ a → sub64 a b ≡ a - b
sub64_fits h p = omega arith

-- The product of two 32-bit values fits 64 bits.
pub mul-lt-u64 : (a b : ℕ) → a < u32_mod → b < u32_mod → a * b < u64_mod
mul-lt-u64 a b ha hb = omega (
  arith,
  mul-le-mul {n₁ = a} {m₁ = b} {n₂ = u32_mod - 1} {m₂ = u32_mod - 1} (omega arith) (omega arith),
)
