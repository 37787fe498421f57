-- ===== src/Pack/Input/Cells.antt =====
-- The cells of the packed fp16 input of src/regcmd.c, and what the scalar loop leaves in each.
use charsiu.Prelude.{ap₂, arith, inl, inr, sym, ℕ, ◌%◌, ◌*◌, ◌+◌, ◌/◌, ◌<◌, ◌∙◌, ◌≡◌, ◌≤◌, ◌⊎◌}
use charsiu.Prelude.Radix.{radix_injective}
use charsiu.Half.{f2h, f2h_lane}
use charsiu.Pack.{memset_zero}
use charsiu.Pack.Writes.{write_rows, write_rows_at, write_rows_other}
use charsiu.Pack.Input.{pack_scalar}

-- rows of 8 cells from `base` on, of which `count` are written
pub row_at :
    (base m count : ℕ) (val : ℕ → ℕ → ℕ) (mem : ℕ → ℕ) (i c : ℕ)
    → i < m
    → c < count
    → count ≤ 8
    → write_rows (λ i c. base + (i * 8 + c)) val (λ i. count) 0 m mem (base + (i * 8 + c)) ≡ val i c
row_at base m count val mem i c h k l =
    write_rows_at (λ i c. base + (i * 8 + c)) val (λ i. count) 0 m mem i c (omega arith)
      (omega arith) k (λ p q a b d e. (omega arith, omega arith))

pub row_other :
    (base m count : ℕ) (val : ℕ → ℕ → ℕ) (mem : ℕ → ℕ) (j : ℕ)
    → (j < base) ⊎ (base + m * 8 ≤ j)
    → count ≤ 8
    → write_rows (λ i c. base + (i * 8 + c)) val (λ i. count) 0 m mem j ≡ mem j
row_other base m count val mem j h l =
    write_rows_other (λ i c. base + (i * 8 + c)) val (λ i. count) 0 m mem j
      (λ q i a b d e. outside base m j q i h (omega arith) (omega arith) e)
  where
    outside :
        (base m j q i : ℕ)
        → (j < base) ⊎ (base + m * 8 ≤ j)
        → q < m
        → i < 8
        → j ≡ base + (q * 8 + i)
        → ⊥
    outside base m j q i (inl h) a b e = omega arith
    outside base m j q i (inr h) a b e = omega arith

pub row_rest :
    (base m count : ℕ) (val : ℕ → ℕ → ℕ) (mem : ℕ → ℕ) (i c : ℕ)
    → count ≤ c
    → c < 8
    → write_rows (λ i c. base + (i * 8 + c)) val (λ i. count) 0 m mem (base + (i * 8 + c))
      ≡ mem (base + (i * 8 + c))
row_rest base m count val mem i c h k =
    write_rows_other (λ i c. base + (i * 8 + c)) val (λ i. count) 0 m mem (base + (i * 8 + c))
      (λ q d a b l e. beside base q d i c count l h k e)
  where
    beside :
        (base q d i c count : ℕ)
        → d < count
        → count ≤ c
        → c < 8
        → base + (i * 8 + c) ≡ base + (q * 8 + d)
        → ⊥
    beside base q d i c count l h k e = omega arith

-- the cell of group `g`, row `i`, column `c` of the group
abbrev pub cell : ℕ → ℕ → ℕ → ℕ → ℕ
cell m g i c = g * m * 8 + (i * 8 + c)

abbrev pub value : (ℕ → ℕ) → ℕ → ℕ → ℕ → ℕ
value src stride i kk = f2h (src (i * stride + kk))

abbrev pub lanes : (ℕ → ℕ) → ℕ → ℕ → ℕ → ℕ → ℕ
lanes src stride g i c = f2h_lane (src (i * stride + (g * 8 + c)))

abbrev pub filled : ℕ → (ℕ → ℕ) → ℕ → ℕ
filled size dst j = memset_zero dst 0 size j

same_cell :
    (m g i c h q d : ℕ)
    → i < m
    → c < 8
    → q < m
    → d < 8
    → cell m g i c ≡ cell m h q d
    → (g ≡ h) × (i ≡ q) × (c ≡ d)
same_cell m g i c h q d a b e f s =
    let (groups, rest) =
      radix_injective (m * 8) g h (i * 8 + c) (q * 8 + d) (omega arith) (omega arith)
        (omega arith) in
    (groups, omega arith, omega arith)

module _ (m k : ℕ) (src : ℕ → ℕ) (stride size : ℕ) (dst : ℕ → ℕ) where
  pub scalar_in :
      (g i c : ℕ)
      → i < m
      → c < 8
      → g * 8 + c < k
      → pack_scalar m k src stride size dst (cell m g i c) ≡ value src stride i (g * 8 + c)
  unfolding pack_scalar
  scalar_in g i c a b h =
      let group : (g * 8 + c) / 8 ≡ g = omega arith in
      let column : (g * 8 + c) % 8 ≡ c = omega arith in
      ap₂
        (λ (x : ℕ) (y : ℕ).
          write_rows (λ i kk. kk / 8 * m * 8 + (i * 8 + kk % 8)) (value src stride) (λ i. k) 0 m
            (memset_zero dst 0 size) (x * m * 8 + (i * 8 + y)))
        (sym group) (sym column)
      ∙ write_rows_at (λ i kk. kk / 8 * m * 8 + (i * 8 + kk % 8)) (value src stride) (λ i. k) 0 m
          (memset_zero dst 0 size) i (g * 8 + c) (omega arith) (omega arith) h
          (λ p q l u w e.
            let (groups, rows, columns) =
              same_cell m (q / 8) p (q % 8) ((g * 8 + c) / 8) i ((g * 8 + c) % 8) (omega arith)
                (omega arith) a (omega arith) e in
            (rows, omega arith))

  pub scalar_out :
      (g i c : ℕ)
      → i < m
      → c < 8
      → k ≤ g * 8 + c
      → pack_scalar m k src stride size dst (cell m g i c) ≡ filled size dst (cell m g i c)
  unfolding pack_scalar
  scalar_out g i c a b h =
      write_rows_other (λ i kk. kk / 8 * m * 8 + (i * 8 + kk % 8)) (value src stride) (λ i. k) 0 m
        (memset_zero dst 0 size) (cell m g i c)
        (λ p q l u w e.
          let (groups, rows, columns) =
            same_cell m g i c (q / 8) p (q % 8) a b (omega arith) (omega arith) e in
          past_end k g c q groups columns h w)
    where
      past_end : (k g c q : ℕ) → g ≡ q / 8 → c ≡ q % 8 → k ≤ g * 8 + c → q < k → ⊥
      past_end k g c q a b h w = omega arith
