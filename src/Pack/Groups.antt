-- ===== src/Pack/Groups.antt =====
-- Blocks that move up in one buffer, the last one first: block `g` from `g * old` to `g * new`, `len g`
-- halves of it, with zeros behind them up to `blk g`. This is the loop of charsiu_fp16_regrow_vcols of
-- src/regcmd.c where the destination is the source, without the shapes.
use charsiu.Prelude.{
  Bool-cases, ap, arith, false, if◌then◌else◌, inl, inr, leb, ltb, refl, subst, suc, sym, true,
  zero, ℕ, ℕ_discrete, ◌&&◌, ◌*◌, ◌+◌, ◌-◌, ◌<◌, ◌∙◌, ◌≡◌, ◌≤◌, ◌⊎◌,
}
use native.Mathlib.Nat.{mul-le-mul_right, mul-le-mul_left}
use charsiu.Pack.{memmove, memset_zero}

unfoldable pub shift_block : ℕ → ℕ → (ℕ → ℕ) → (ℕ → ℕ) → ℕ → (ℕ → ℕ) → (ℕ → ℕ)
unfolding memmove memset_zero
shift_block old new len blk g m =
    let moved = memmove m (g * new) m (g * old) (len g) in
    if ltb (len g) (blk g) then memset_zero moved (g * new + len g) (blk g - len g) else moved

unfoldable pub shift_blocks : ℕ → ℕ → (ℕ → ℕ) → (ℕ → ℕ) → ℕ → (ℕ → ℕ) → (ℕ → ℕ)
unfolding shift_block
shift_blocks old new len blk zero m = m
shift_blocks old new len blk (suc g) m =
    shift_blocks old new len blk g (shift_block old new len blk g m)

memmove_in :
    (dst : ℕ → ℕ) (at : ℕ) (src : ℕ → ℕ) (from len i : ℕ)
    → i < len
    → memmove dst at src from len (at + i) ≡ src (from + i)
unfolding memmove
memmove_in dst at src from len i h =
    let t : (leb at (at + i) && ltb (at + i) (at + len)) ≡ true = ground arith in
    rw t (ap src (omega arith))

memmove_out :
    (dst : ℕ → ℕ) (at : ℕ) (src : ℕ → ℕ) (from len j : ℕ)
    → (j < at) ⊎ (at + len ≤ j)
    → memmove dst at src from len j ≡ dst j
unfolding memmove
memmove_out dst at src from len j h =
    let t : (leb at j && ltb j (at + len)) ≡ false = ground arith in rw t refl

memset_zero_in : (dst : ℕ → ℕ) (at len j : ℕ) → at ≤ j → j < at + len → memset_zero dst at len j ≡ 0
unfolding memset_zero
memset_zero_in dst at len j h k =
    let t : (leb at j && ltb j (at + len)) ≡ true = ground arith in rw t refl

memset_zero_out :
    (dst : ℕ → ℕ) (at len j : ℕ) → (j < at) ⊎ (at + len ≤ j) → memset_zero dst at len j ≡ dst j
unfolding memset_zero
memset_zero_out dst at len j h =
    let t : (leb at j && ltb j (at + len)) ≡ false = ground arith in rw t refl

module _ (old new : ℕ) (len blk : ℕ → ℕ) where
  shift_block-moved :
      (g : ℕ) (m : ℕ → ℕ) (i : ℕ)
      → i < len g
      → shift_block old new len blk g m (g * new + i) ≡ m (g * old + i)
  unfolding shift_block
  shift_block-moved g m i h = elim (Bool-cases (ltb (len g) (blk g))) [
    | inl y ↦ rw y (
        memset_zero_out (memmove m (g * new) m (g * old) (len g)) (g * new + len g) (blk g - len g)
          (g * new + i) (inl (omega arith))
        ∙ memmove_in m (g * new) m (g * old) (len g) i h)
    | inr n ↦ rw n (memmove_in m (g * new) m (g * old) (len g) i h)
  ]

  shift_block-cleared :
      (g : ℕ) (m : ℕ → ℕ) (i : ℕ)
      → len g ≤ i
      → i < blk g
      → shift_block old new len blk g m (g * new + i) ≡ 0
  unfolding shift_block
  shift_block-cleared g m i h k =
      let y : ltb (len g) (blk g) ≡ true = ground arith in
      rw y (
        memset_zero_in (memmove m (g * new) m (g * old) (len g)) (g * new + len g) (blk g - len g)
          (g * new + i) (omega arith) (omega arith))

  shift_block-below :
      (g : ℕ) (m : ℕ → ℕ) (j : ℕ) → j < g * new → shift_block old new len blk g m j ≡ m j
  unfolding shift_block
  shift_block-below g m j h = elim (Bool-cases (ltb (len g) (blk g))) [
    | inl y ↦ rw y (
        memset_zero_out (memmove m (g * new) m (g * old) (len g)) (g * new + len g) (blk g - len g)
          j (inl (omega arith))
        ∙ memmove_out m (g * new) m (g * old) (len g) j (inl h))
    | inr n ↦ rw n (memmove_out m (g * new) m (g * old) (len g) j (inl h))
  ]

  shift_block-above :
      (g : ℕ) (m : ℕ → ℕ) (j : ℕ)
      → len g ≤ new
      → blk g ≤ new
      → (g + 1) * new ≤ j
      → shift_block old new len blk g m j ≡ m j
  unfolding shift_block
  shift_block-above g m j small fits h = elim (Bool-cases (ltb (len g) (blk g))) [
    | inl y ↦ rw y (
        memset_zero_out (memmove m (g * new) m (g * old) (len g)) (g * new + len g) (blk g - len g)
          j (inr (ground arith))
        ∙ memmove_out m (g * new) m (g * old) (len g) j (inr (omega arith)))
    | inr n ↦ rw n (memmove_out m (g * new) m (g * old) (len g) j (inr (omega arith)))
  ]

  module _ (grows : old ≤ new) (small : (g : ℕ) → len g ≤ old) (fits : (g : ℕ) → blk g ≤ new) where
    shift_blocks-above :
        (g : ℕ) (m : ℕ → ℕ) (j : ℕ) → g * new ≤ j → shift_blocks old new len blk g m j ≡ m j
    unfolding shift_blocks
    shift_blocks-above zero m j h = refl
    shift_blocks-above (suc g) m j h =
        shift_blocks-above g (shift_block old new len blk g m) j (omega arith)
        ∙ shift_block-above g m j (omega (arith, small g)) (fits g) (omega arith)

    pub shift_blocks-moved :
        (g : ℕ) (m : ℕ → ℕ) (h i : ℕ)
        → h < g
        → i < len h
        → shift_blocks old new len blk g m (h * new + i) ≡ m (h * old + i)
    unfolding shift_blocks
    shift_blocks-moved zero m h i b k = grind arith
    shift_blocks-moved (suc g) m h i b k = elim (ℕ_discrete h g) [
      | yes e ↦
          let T : ℕ → Type 0 = λ n.
            i < len n
            → shift_blocks old new len blk g (shift_block old new len blk g m) (n * new + i)
              ≡ m (n * old + i) in
          subst T (sym e)
            (λ k.
              shift_blocks-above g (shift_block old new len blk g m) (g * new + i) (omega arith)
              ∙ shift_block-moved g m i k)
            k
      | no e ↦
          let below : (h + 1) * old ≤ g * old = mul-le-mul_right old (omega arith) in
          let up : g * old ≤ g * new = mul-le-mul_left g grows in
          shift_blocks-moved g (shift_block old new len blk g m) h i (omega arith) k
          ∙ shift_block-below g m (h * old + i) (omega (arith, small h))
    ]

    pub shift_blocks-cleared :
        (g : ℕ) (m : ℕ → ℕ) (h i : ℕ)
        → h < g
        → len h ≤ i
        → i < blk h
        → shift_blocks old new len blk g m (h * new + i) ≡ 0
    unfolding shift_blocks
    shift_blocks-cleared zero m h i b k l = grind arith
    shift_blocks-cleared (suc g) m h i b k l = elim (ℕ_discrete h g) [
      | yes e ↦
          let T : ℕ → Type 0 = λ n.
            len n ≤ i
            → i < blk n
            → shift_blocks old new len blk g (shift_block old new len blk g m) (n * new + i) ≡ 0 in
          subst T (sym e)
            (λ k l.
              shift_blocks-above g (shift_block old new len blk g m) (g * new + i) (omega arith)
              ∙ shift_block-cleared g m i k l)
            k l
      | no e ↦ shift_blocks-cleared g (shift_block old new len blk g m) h i (omega arith) k l
    ]
