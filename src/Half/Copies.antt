-- ===== src/Half/Copies.antt =====
-- The two copies of the conversion from half to float, in src/job.c and in src/gguf.c, side by side.
use charsiu.Prelude.{
  Bool-cases, ap, arith, false, inl, inr, refl, sub32, suc, sym, true, u32, zero, ℕ, ◌%◌, ◌*◌, ◌+◌,
  ◌-◌, ◌/◌, ◌<◌, ◌==◌, ◌^◌, ◌∙◌, ◌≡◌,
}
use charsiu.Half.Widened.{widened_subnormal}
use charsiu.Half.{normalise, half_to_float, renormalise, gguf_half_to_float}

-- the loops keep in step, 112 apart, although one of the exponents wraps below 0
in_step :
    (fuel man e f : ℕ)
    → e ≡ u32 (f + 112)
    → f < 2 ^ 32
    → fuel < e
    → e < 2 ^ 8
    → man < 2048
    → ((renormalise fuel man f).0 ≡ (normalise fuel man e).0)
      × (u32 ((renormalise fuel man f).1 + 112) ≡ (normalise fuel man e).1)
      × ((normalise fuel man e).1 < 2 ^ 8)
unfolding normalise renormalise
in_step zero man e f h k l b m = (refl, sym h, b)
in_step (suc fuel) man e f h k l b m = elim (Bool-cases (man / 2 ^ 10 % 2 == 1)) [
  | inl y ↦ rw y (refl, sym h, b)
  | inr n ↦
      let small : man < 1024 = ground arith in
      let double : u32 (man * 2) ≡ man * 2 = omega arith in
      rw (n, double)
        (in_step fuel (man * 2) (e - 1) (sub32 f 1) (omega arith) (omega arith) (omega arith)
          (omega arith) (omega arith))
]

joined :
    (s n f m e : ℕ)
    → s < 2
    → n ≡ m
    → u32 (f + 112) ≡ e
    → e < 2 ^ 8
    → u32 (s * 2 ^ 31) + u32 (u32 (f + (127 - 15)) * 2 ^ 23) + n % 2 ^ 10 * 2 ^ 13
      ≡ s * 2 ^ 31 + e * 2 ^ 23 + m % 2 ^ 10 * 2 ^ 13
joined s n f m e a b c d =
    let field : u32 (u32 (f + (127 - 15)) * 2 ^ 23) ≡ e * 2 ^ 23 = omega arith in
    let sign : u32 (s * 2 ^ 31) ≡ s * 2 ^ 31 = omega arith in rw (field, sign, b) refl

renormalised :
    (h : ℕ)
    → (h / 2 ^ 10 % 2 ^ 5 == 0) ≡ true
    → (h % 2 ^ 10 == 0) ≡ false
    → gguf_half_to_float h
      ≡ u32 (h / 2 ^ 15 * 2 ^ 31)
        + u32 (u32 ((renormalise 10 (h % 2 ^ 10) 1).1 + (127 - 15)) * 2 ^ 23)
        + (renormalise 10 (h % 2 ^ 10) 1).0 % 2 ^ 10 * 2 ^ 13
unfolding gguf_half_to_float
renormalised h y z = rw (y, z) refl

subnormal_same :
    (h : ℕ)
    → h < 2 ^ 16
    → (h / 2 ^ 10 % 2 ^ 5 == 0) ≡ true
    → (h % 2 ^ 10 == 0) ≡ false
    → gguf_half_to_float h ≡ half_to_float h
subnormal_same h b y z =
    let (mantissa, exponent, small) =
      in_step 10 (h % 2 ^ 10) 113 1 (omega arith) (omega arith) (omega arith) (omega arith)
        (omega arith) in
    let sign : h / 2 ^ 15 % 2 ≡ h / 2 ^ 15 = omega arith in
    renormalised h y z
    ∙ joined (h / 2 ^ 15) (renormalise 10 (h % 2 ^ 10) 1).0 (renormalise 10 (h % 2 ^ 10) 1).1
        (normalise 10 (h % 2 ^ 10) 113).0 (normalise 10 (h % 2 ^ 10) 113).1 (omega arith) mantissa
        exponent small
    ∙ ap
        (λ (s : ℕ).
          s * 2 ^ 31
          + (normalise 10 (h % 2 ^ 10) 113).1 * 2 ^ 23
          + (normalise 10 (h % 2 ^ 10) 113).0 % 2 ^ 10 * 2 ^ 13)
        (sym sign)
    ∙ sym (widened_subnormal h y z)

-- Reading a half gives the same float in the model reader and in the job descriptors, for every pattern of 16
-- bits.
pub gguf_half_to_float-half_to_float : (h : ℕ) → h < 2 ^ 16 → gguf_half_to_float h ≡ half_to_float h
unfolding gguf_half_to_float half_to_float
gguf_half_to_float-half_to_float h b = elim (Bool-cases (h / 2 ^ 10 % 2 ^ 5 == 0)) [
  | inr n ↦ rw n (ground arith)
  | inl y ↦ elim (Bool-cases (h % 2 ^ 10 == 0)) [
    | inl z ↦ rw (y, z) (omega arith)
    | inr z ↦ subnormal_same h b y z
  ]
]
