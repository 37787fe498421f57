-- ===== src/Prelude/Bits.antt =====
-- The bits of a number, and what the native `bit_and` does to them.
use Prim.Native.Nat.{ℕ, zero, suc, ◌+◌, ◌*◌, ◌/◌, ◌%◌, ◌≤◌, min, bit_and, digits, bit_and-bitwise}
use mathlib.Core.Path.{◌≡◌, refl, ◌∙◌, ap}
use native.Mathlib.Omega.{arith}

-- bit `i` of `x`, that is `(x >> i) & 1`
abbrev pub bit : ℕ → ℕ → ℕ
bit x zero = x % 2
bit x (suc i) = bit (x / 2) i

bit_of_zero : (i : ℕ) → bit 0 i ≡ 0
bit_of_zero zero = refl
bit_of_zero (suc i) = bit_of_zero i

-- the native operation walks the digits of its first operand; enough steps reach them all
bit-digits :
    (i steps x y : ℕ) → x ≤ steps → bit (digits (λ y. 0) min steps x y) i ≡ min (bit x i) (bit y i)
bit-digits i zero zero y enough = omega (arith, bit_of_zero i)
bit-digits i zero (suc x) y enough = absurd (omega arith)
bit-digits i (suc steps) zero y enough = omega (arith, bit_of_zero i)
bit-digits zero (suc steps) (suc x) y enough = omega arith
bit-digits (suc i) (suc steps) (suc x) y enough =
    let later = digits (λ y. 0) min steps (suc x / 2) (y / 2) in
    let shifted : (later * 2 + min (suc x % 2) (y % 2)) / 2 ≡ later = omega arith in
    ap (λ t. bit t i) shifted ∙ bit-digits i steps (suc x / 2) (y / 2) (omega arith)

-- `&` acts on each bit
pub bit-bit_and : (a b i : ℕ) → bit (bit_and a b) i ≡ min (bit a i) (bit b i)
bit-bit_and a b i = ap (λ t. bit t i) (bit_and-bitwise a b) ∙ bit-digits i a a b (omega arith)

pub bit-le-one : (x i : ℕ) → bit x i ≤ 1
bit-le-one x zero = omega arith
bit-le-one x (suc i) = bit-le-one (x / 2) i

-- a mask that is part of another has no bit that the other lacks
pub bit_of_subset : (a b i : ℕ) → bit_and a b ≡ a → bit a i ≡ 1 → bit b i ≡ 1
bit_of_subset a b i sub set_in =
    omega (arith, bit-bit_and a b i, ap (λ x. bit x i) sub, bit-le-one b i)

pub bit-zero : (x i : ℕ) → x ≡ 0 → bit x i ≡ 0
bit-zero x zero e = omega arith
bit-zero x (suc i) e = bit-zero (x / 2) i (omega arith)
