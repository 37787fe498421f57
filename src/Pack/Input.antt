-- ===== src/Pack/Input.antt =====
-- The fp16 input of a matmul, src/regcmd.c: charsiu_pack_input_f16_stride with its scalar loop and its loop
-- over groups of 8 columns, and the pieces charsiu_pack_input_f16_edges and charsiu_pack_input_f16_groups
-- that several threads may share. The buffer is a function from the index of a half; `size` is its length
-- in halves, and the floats are their bits.
pub mod Cells
pub mod Pieces
pub mod OneRow
pub mod Paths
use charsiu.Prelude.{Bool, if◌then◌else◌, ltb, suc, zero, ℕ, ◌%◌, ◌*◌, ◌+◌, ◌-◌, ◌/◌, ◌==◌}
use charsiu.Half.{f2h, f2h_lane}
use charsiu.Pack.{memset_zero}
use charsiu.Pack.Writes.{write_rows}

-- the scalar loop, for `m` rows of `k` columns
unfoldable pub pack_scalar : ℕ → ℕ → (ℕ → ℕ) → ℕ → ℕ → (ℕ → ℕ) → (ℕ → ℕ)
unfolding f2h memset_zero write_rows
pack_scalar m k src stride size dst =
    write_rows (λ i kk. kk / 8 * m * 8 + (i * 8 + kk % 8)) (λ i kk. f2h (src (i * stride + kk)))
      (λ i. k) 0 m (memset_zero dst 0 size)

-- what is behind the whole groups is cleared
unfoldable pub clear_behind : ℕ → ℕ → (ℕ → ℕ) → (ℕ → ℕ)
unfolding memset_zero
clear_behind base size dst = if ltb base size then memset_zero dst base (size - base) else dst

-- the columns behind the whole groups
unfoldable pub pack_tail : ℕ → ℕ → (ℕ → ℕ) → ℕ → (ℕ → ℕ) → (ℕ → ℕ)
unfolding f2h write_rows
pack_tail m k src stride dst =
    write_rows (λ i c. k / 8 * m * 8 + (i * 8 + c))
      (λ i c. f2h (src (i * stride + (k / 8 * 8 + c)))) (λ i. k % 8) 0 m dst

-- charsiu_pack_input_f16_edges
unfoldable pub pack_edges : ℕ → ℕ → (ℕ → ℕ) → ℕ → ℕ → (ℕ → ℕ) → (ℕ → ℕ)
unfolding clear_behind pack_tail
pack_edges m k src stride size dst =
    pack_tail m k src stride (clear_behind (k / 8 * m * 8) size dst)

-- charsiu_pack_input_f16_groups, the groups from `g` on
unfoldable pub pack_groups : ℕ → (ℕ → ℕ) → ℕ → ℕ → ℕ → (ℕ → ℕ) → (ℕ → ℕ)
unfolding f2h_lane write_rows
pack_groups m src stride g zero dst = dst
pack_groups m src stride g (suc count) dst = pack_groups m src stride (suc g) count (
    write_rows (λ i c. g * m * 8 + (i * 8 + c)) (λ i c. f2h_lane (src (i * stride + (g * 8 + c))))
      (λ i. 8) 0 m dst)

-- the case of one row: four columns at a time, and those that are left
unfoldable pub pack_one_row : ℕ → (ℕ → ℕ) → ℕ → (ℕ → ℕ) → (ℕ → ℕ)
unfolding clear_behind f2h f2h_lane write_rows
pack_one_row k src size dst =
    write_rows (λ i c. k / 4 * 4 + c) (λ i c. f2h (src (k / 4 * 4 + c))) (λ i. k % 4) 0 1
      (write_rows (λ q c. q * 4 + c) (λ q c. f2h_lane (src (q * 4 + c))) (λ q. 4) 0 (k / 4)
        (clear_behind k size dst))

-- the case of more rows: the groups of 8 columns, and the columns that are left
unfoldable pub pack_rows_vector : ℕ → ℕ → (ℕ → ℕ) → ℕ → ℕ → (ℕ → ℕ) → (ℕ → ℕ)
unfolding clear_behind pack_groups pack_tail
pack_rows_vector m k src stride size dst =
    pack_tail m k src stride
      (pack_groups m src stride 0 (k / 8) (clear_behind (k / 8 * m * 8) size dst))

-- charsiu_pack_input_f16_stride where there are vectors and CHARSIU_NPU_PLAIN is not set
unfoldable pub pack_vector : ℕ → ℕ → (ℕ → ℕ) → ℕ → ℕ → (ℕ → ℕ) → (ℕ → ℕ)
unfolding pack_one_row pack_rows_vector pack_scalar
pack_vector m k src stride size dst =
    if m == 1
    then pack_one_row k src size dst
    else if ltb 1 m
    then pack_rows_vector m k src stride size dst
    else pack_scalar m k src stride size dst

-- the edges, and the groups in two pieces that two threads take: those below `cut`, and those from it on
unfoldable pub pack_pieces : ℕ → ℕ → (ℕ → ℕ) → ℕ → ℕ → ℕ → Bool → (ℕ → ℕ) → (ℕ → ℕ)
unfolding pack_edges pack_groups
pack_pieces m k src stride size cut upper_first dst =
    let edges = pack_edges m k src stride size dst in
    if upper_first
    then pack_groups m src stride 0 cut (pack_groups m src stride cut (k / 8 - cut) edges)
    else pack_groups m src stride cut (k / 8 - cut) (pack_groups m src stride 0 cut edges)
