-- ===== src/Pack/Input/Pieces.antt =====
-- What each part of the vector path of the packed fp16 input of src/regcmd.c leaves in each cell: the full
-- groups, the clearing behind them and the columns left over.
use charsiu.Prelude.{
  Bool-cases, arith, dec_lt, false, if◌then◌else◌, inl, inr, leb, ltb, refl, subst, suc, sym, true,
  zero, ℕ, ℕ_discrete, ◌%◌, ◌&&◌, ◌*◌, ◌+◌, ◌-◌, ◌/◌, ◌<◌, ◌∙◌, ◌≡◌, ◌≤◌,
}
use native.Mathlib.Nat.{mul-le-mul_right}
use charsiu.Half.{f2h, f2h_lane}
use charsiu.Pack.{memset_zero}
use charsiu.Pack.Writes.{write_rows}
use charsiu.Pack.Input.{clear_behind, pack_tail, pack_groups}
use charsiu.Pack.Input.Cells.{cell, value, lanes, filled, row_at, row_other, row_rest}

clear_same :
    (dst : ℕ → ℕ) (base j size : ℕ)
    → base ≤ j
    → (if ltb base size
          then (λ (i : ℕ). if leb base i && ltb i (base + (size - base)) then 0 else dst i)
          else dst)
        j
      ≡ (if leb 0 j && ltb j (0 + size) then 0 else dst j)
clear_same dst base j size h = elim (dec_lt j size) [
  | yes q ↦
      let some_left : ltb base size ≡ true = ground arith in
      let left : (leb base j && ltb j (base + (size - base))) ≡ true = ground arith in
      let right : (leb 0 j && ltb j (0 + size)) ≡ true = ground arith in
      rw (some_left, left, right) refl
  | no q ↦
      let right : (leb 0 j && ltb j (0 + size)) ≡ false = ground arith in
      let left : (leb base j && ltb j (base + (size - base))) ≡ false = ground arith in
      elim (Bool-cases (ltb base size)) [
        | inl y ↦ rw (y, left, right) refl
        | inr n ↦ rw (n, right) refl
      ]
]

-- what is cleared holds what clearing the whole buffer leaves
pub clear_behind-filled :
    (dst : ℕ → ℕ) (base j size : ℕ) → base ≤ j → clear_behind base size dst j ≡ filled size dst j
unfolding clear_behind memset_zero
clear_behind-filled dst base j size h = clear_same dst base j size h

module _ (m k : ℕ) (src : ℕ → ℕ) (stride size : ℕ) (dst : ℕ → ℕ) where
  pub groups_before :
      (g count i c h : ℕ) (mem : ℕ → ℕ)
      → i < m
      → c < 8
      → h < g
      → pack_groups m src stride g count mem (cell m h i c) ≡ mem (cell m h i c)
  unfolding pack_groups
  groups_before g zero i c h mem a b l = refl
  groups_before g (suc count) i c h mem a b l =
      groups_before (suc g) count i c h _ a b (omega arith)
      ∙ row_other (g * m * 8) m 8 (lanes src stride g) mem (cell m h i c)
          (inl (before h g i c l a b)) (omega arith)
    where
      before : (h g i c : ℕ) → h < g → i < m → c < 8 → h * m * 8 + (i * 8 + c) < g * m * 8
      before h g i c l a b = omega (arith, mul-le-mul_right {m = suc h} {n = g} m l)

  pub groups_after :
      (g count i c h : ℕ) (mem : ℕ → ℕ)
      → g + count ≤ h
      → pack_groups m src stride g count mem (cell m h i c) ≡ mem (cell m h i c)
  unfolding pack_groups
  groups_after g zero i c h mem l = refl
  groups_after g (suc count) i c h mem l =
      groups_after (suc g) count i c h _ (omega arith)
      ∙ row_other (g * m * 8) m 8 (lanes src stride g) mem (cell m h i c)
          (inr (behind h g i c (omega arith))) (omega arith)
    where
      behind : (h g i c : ℕ) → suc g ≤ h → g * m * 8 + m * 8 ≤ h * m * 8 + (i * 8 + c)
      behind h g i c l = omega (arith, mul-le-mul_right {m = suc g} {n = h} m l)

  pub groups_in :
      (g count i c h : ℕ) (mem : ℕ → ℕ)
      → i < m
      → c < 8
      → g ≤ h
      → h < g + count
      → pack_groups m src stride g count mem (cell m h i c)
        ≡ f2h_lane (src (i * stride + (h * 8 + c)))
  unfolding pack_groups
  groups_in g zero i c h mem a b lo hi = grind arith
  groups_in g (suc count) i c h mem a b lo hi = elim (ℕ_discrete h g) [
    | no e ↦ groups_in (suc g) count i c h _ a b (omega arith) (omega arith)
    | yes e ↦
        groups_before (suc g) count i c h _ a b (omega arith)
        ∙ subst
            (λ (x : ℕ).
              write_rows (λ i c. g * m * 8 + (i * 8 + c)) (lanes src stride g) (λ i. 8) 0 m mem
                (cell m x i c)
              ≡ lanes src stride x i c)
            (sym e) (row_at (g * m * 8) m 8 (lanes src stride g) mem i c a b (omega arith))
  ]

  pub clear_in :
      (j : ℕ) → k / 8 * m * 8 ≤ j → clear_behind (k / 8 * m * 8) size dst j ≡ filled size dst j
  clear_in j h = clear_behind-filled dst (k / 8 * m * 8) j size h

  -- the tail, over any buffer
  pub tail_before :
      (g i c : ℕ) (mem : ℕ → ℕ)
      → i < m
      → c < 8
      → g < k / 8
      → pack_tail m k src stride mem (cell m g i c) ≡ mem (cell m g i c)
  unfolding pack_tail
  tail_before g i c mem a b h =
      row_other (k / 8 * m * 8) m (k % 8) (λ i c. f2h (src (i * stride + (k / 8 * 8 + c)))) mem
        (cell m g i c) (inl (omega (arith, mul-le-mul_right {m = suc g} {n = k / 8} m h)))
        (omega arith)

  pub tail_in :
      (i c : ℕ) (mem : ℕ → ℕ)
      → i < m
      → c < k % 8
      → pack_tail m k src stride mem (cell m (k / 8) i c) ≡ value src stride i (k / 8 * 8 + c)
  unfolding pack_tail
  tail_in i c mem a b =
      row_at (k / 8 * m * 8) m (k % 8) (λ i c. f2h (src (i * stride + (k / 8 * 8 + c)))) mem i c a b
        (omega arith)

  pub tail_out :
      (g i c : ℕ) (mem : ℕ → ℕ)
      → i < m
      → c < 8
      → k ≤ g * 8 + c
      → pack_tail m k src stride mem (cell m g i c) ≡ mem (cell m g i c)
  unfolding pack_tail
  tail_out g i c mem a b h = elim (ℕ_discrete g (k / 8)) [
    | yes e ↦
        subst
          (λ (x : ℕ).
            write_rows (λ i c. k / 8 * m * 8 + (i * 8 + c))
              (λ i c. f2h (src (i * stride + (k / 8 * 8 + c)))) (λ i. k % 8) 0 m mem (cell m x i c)
            ≡ mem (cell m x i c))
          (sym e)
          (row_rest (k / 8 * m * 8) m (k % 8) (λ i c. f2h (src (i * stride + (k / 8 * 8 + c)))) mem
            i c (omega arith) b)
    | no e ↦
        row_other (k / 8 * m * 8) m (k % 8) (λ i c. f2h (src (i * stride + (k / 8 * 8 + c)))) mem
          (cell m g i c)
          (inr (omega (arith, mul-le-mul_right {m = suc (k / 8)} {n = g} m (omega arith))))
          (omega arith)
  ]
