-- ===== src/Prelude/Radix.antt =====
-- Numbers written in a mixed radix.
use Prim.Native.Nat.{ℕ, suc, ◌+◌, ◌*◌, ◌<◌}
use mathlib.Core.Path.{◌≡◌, ap}
use native.Mathlib.Decide.{dec_lt}
use native.Mathlib.Nat.{mul-le-mul_right}
use native.Mathlib.Omega.{arith}

digit-lt : (w a b x y : ℕ) → x < w → y < w → a < b → a * w + x < b * w + y
digit-lt w a b x y hx hy h = omega (arith, mul-le-mul_right {m = suc a} {n = b} w h)

-- two numbers of a mixed radix are equal digit by digit
pub radix_injective : (w a b x y : ℕ) → x < w → y < w → a * w + x ≡ b * w + y → (a ≡ b) × (x ≡ y)
radix_injective w a b x y hx hy e = elim (dec_lt a b) [
  | yes p ↦ absurd (omega (arith, digit-lt w a b x y hx hy p))
  | no p ↦ elim (dec_lt b a) [
    | yes q ↦ absurd (omega (arith, digit-lt w b a y x hy hx q))
    | no q ↦ let same : a ≡ b = omega arith in (same, omega (arith, ap (λ (t : ℕ). t * w) same))
  ]
]

-- the number of a digit `a` below `b` and a rest below the radix is below `b` radices
pub radix-lt : (w a b x : ℕ) → x < w → a < b → a * w + x < b * w
radix-lt w a b x hx h = omega (arith, mul-le-mul_right {m = suc a} {n = b} w h)
