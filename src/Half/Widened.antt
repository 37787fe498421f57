-- ===== src/Half/Widened.antt =====
-- A half that is widened by charsiu_half_to_float of src/job.c and converted back by charsiu_f2h.
use charsiu.Prelude.{
  Bool-cases, ap, arith, false, if◌then◌else◌, inl, inr, leb, refl, suc, true, zero, ℕ, ◌%◌, ◌*◌,
  ◌+◌, ◌-◌, ◌/◌, ◌<◌, ◌==◌, ◌^◌, ◌∙◌, ◌≡◌, ◌≤◌,
}
use charsiu.Half.{f2h, half_to_float, normalise}

-- `man` doubled `fuel` times
shifted : ℕ → ℕ → ℕ
shifted zero man = man
shifted (suc fuel) man = shifted fuel (man * 2)

-- the loop leaves the leading bit at its place, and the exponent never grows
normalise-leads :
    (fuel man e : ℕ)
    → 1024 ≤ shifted fuel man
    → man < 2048
    → (1024 ≤ (normalise fuel man e).0)
      × ((normalise fuel man e).0 < 2048)
      × ((normalise fuel man e).1 ≤ e)
unfolding normalise shifted
normalise-leads zero man e h k = (h, k, omega arith)
normalise-leads (suc fuel) man e h k = elim (Bool-cases (man / 2 ^ 10 % 2 == 1)) [
  | inl y ↦ rw y (ground arith, k, omega arith)
  | inr n ↦
      let small : man < 1024 = ground arith in
      let (lo, hi, less) = normalise-leads fuel (man * 2) (e - 1) h (omega arith) in
      rw n (lo, hi, omega arith)
]

-- a mantissa below the leading bit takes a round at least
normalise-subnormal :
    (man : ℕ)
    → 1 ≤ man
    → man < 1024
    → (1024 ≤ (normalise 10 man 113).0)
      × ((normalise 10 man 113).0 < 2048)
      × ((normalise 10 man 113).1 ≤ 112)
unfolding normalise shifted
normalise-subnormal man h k =
    let open_bit : (man / 2 ^ 10 % 2 == 1) ≡ false = ground arith in
    rw open_bit (normalise-leads 9 (man * 2) 112 (omega arith) (omega arith))

flushed :
    (s e m : ℕ)
    → s < 2
    → e ≤ 112
    → m < 1024
    → f2h (s * 2 ^ 31 + e * 2 ^ 23 + m * 2 ^ 13) ≡ s * 2 ^ 15
unfolding f2h
flushed s e m a b c =
    let field : (s * 2 ^ 31 + e * 2 ^ 23 + m * 2 ^ 13) / 2 ^ 23 % 2 ^ 8 ≡ e = omega arith in
    let flush : leb e 112 ≡ true = ground arith in
    let sign : (s * 2 ^ 31 + e * 2 ^ 23 + m * 2 ^ 13) / 2 ^ 31 % 2 ≡ s = omega arith in
    rw (field, flush) (ap (λ (x : ℕ). x * 2 ^ 15) sign)

pub widened_subnormal :
    (h : ℕ)
    → (h / 2 ^ 10 % 2 ^ 5 == 0) ≡ true
    → (h % 2 ^ 10 == 0) ≡ false
    → half_to_float h
      ≡ h / 2 ^ 15 % 2 * 2 ^ 31
        + (normalise 10 (h % 2 ^ 10) 113).1 * 2 ^ 23
        + (normalise 10 (h % 2 ^ 10) 113).0 % 2 ^ 10 * 2 ^ 13
unfolding half_to_float
widened_subnormal h y z = rw (y, z) refl

subnormal-flushed :
    (h : ℕ)
    → h < 2 ^ 16
    → (h / 2 ^ 10 % 2 ^ 5 == 0) ≡ true
    → (h % 2 ^ 10 == 0) ≡ false
    → f2h (half_to_float h) ≡ h / 2 ^ 15 * 2 ^ 15
subnormal-flushed h b y z =
    let some_bit : 1 ≤ h % 2 ^ 10 = ground arith in
    let (lo, hi, less) = normalise-subnormal (h % 2 ^ 10) some_bit (omega arith) in
    ap f2h (widened_subnormal h y z)
    ∙ flushed (h / 2 ^ 15 % 2) (normalise 10 (h % 2 ^ 10) 113).1
        ((normalise 10 (h % 2 ^ 10) 113).0 % 2 ^ 10) (omega arith) less (omega arith)
    ∙ omega arith

-- Converting back what was widened gives the half again: every normal half, with its sign, is the same. A
-- zero and a subnormal half become the zero of their sign, which is what charsiu_f2h flushes to, and an
-- infinite half, or one that is not a number, the infinite one of its sign.
pub f2h-half_to_float :
    (h : ℕ)
    → h < 2 ^ 16
    → f2h (half_to_float h) ≡ (
        if h / 2 ^ 10 % 2 ^ 5 == 0
        then h / 2 ^ 15 * 2 ^ 15
        else if h / 2 ^ 10 % 2 ^ 5 == 0x1f
        then h / 2 ^ 15 * 2 ^ 15 + 0x7c00
        else h)
unfolding f2h half_to_float
f2h-half_to_float h b = elim (Bool-cases (h / 2 ^ 10 % 2 ^ 5 == 0)) [
  | inr n ↦ rw n (ground arith)
  | inl y ↦ elim (Bool-cases (h % 2 ^ 10 == 0)) [
    | inl z ↦ rw (y, z) (ground arith)
    | inr z ↦
        let zero_of_sign : h / 2 ^ 15 * 2 ^ 15 ≡ (
            if h / 2 ^ 10 % 2 ^ 5 == 0
            then h / 2 ^ 15 * 2 ^ 15
            else if h / 2 ^ 10 % 2 ^ 5 == 0x1f
            then h / 2 ^ 15 * 2 ^ 15 + 0x7c00
            else h) =
          rw y refl in
        subnormal-flushed h b y z ∙ zero_of_sign
  ]
]
