-- ===== src/Pack/Input/OneRow.antt =====
-- The case of one row in charsiu_pack_input_f16_stride of src/regcmd.c, against the scalar loop.
use charsiu.Prelude.{
  ap, arith, dec_lt, subst, sym, ℕ, ◌%◌, ◌*◌, ◌+◌, ◌-◌, ◌/◌, ◌<◌, ◌^◌, ◌∙◌, ◌≡◌, ◌≤◌,
}
use charsiu.Half.{f2h, f2h_lane}
use charsiu.Half.Lanes.{f2h_lane-f2h}
use charsiu.Pack.Writes.{write_rows, write_rows_at, write_rows_other}
use charsiu.Pack.Input.{pack_one_row, pack_scalar, clear_behind}
use charsiu.Pack.Input.Cells.{cell, filled, scalar_in, scalar_out}
use charsiu.Pack.Input.Pieces.{clear_behind-filled}

module _ (k : ℕ) (src : ℕ → ℕ) (size : ℕ) (dst : ℕ → ℕ) where
  abbrev quads : ℕ → ℕ
  quads =
      write_rows (λ q c. q * 4 + c) (λ q c. f2h_lane (src (q * 4 + c))) (λ q. 4) 0 (k / 4)
        (clear_behind k size dst)

  quads_in : (q c : ℕ) → q < k / 4 → c < 4 → quads (q * 4 + c) ≡ f2h_lane (src (q * 4 + c))
  quads_in q c a b =
      write_rows_at (λ q c. q * 4 + c) (λ q c. f2h_lane (src (q * 4 + c))) (λ q. 4) 0 (k / 4)
        (clear_behind k size dst) q c (omega arith) (omega arith) b
        (λ p d l u w e. (omega arith, omega arith))

  quads_out : (j : ℕ) → k / 4 * 4 ≤ j → quads j ≡ clear_behind k size dst j
  quads_out j h =
      write_rows_other (λ q c. q * 4 + c) (λ q c. f2h_lane (src (q * 4 + c))) (λ q. 4) 0 (k / 4)
        (clear_behind k size dst) j (λ p d l u w e. omega arith)

  one_row_in :
      ((i : ℕ) → src i < 2 ^ 32) → (j : ℕ) → j < k → pack_one_row k src size dst j ≡ f2h (src j)
  unfolding pack_one_row
  one_row_in bits j h = elim (dec_lt j (k / 4 * 4)) [
    | yes quad ↦
        let same : j / 4 * 4 + j % 4 ≡ j = omega arith in
        write_rows_other (λ i c. k / 4 * 4 + c) (λ i c. f2h (src (k / 4 * 4 + c))) (λ i. k % 4) 0 1
          quads j (λ p d l u w e. omega arith)
        ∙ subst (λ (i : ℕ). quads i ≡ f2h_lane (src i)) same
            (quads_in (j / 4) (j % 4) (omega arith) (omega arith))
        ∙ f2h_lane-f2h (src j) (bits j)
    | no left ↦
        let same : k / 4 * 4 + (j - k / 4 * 4) ≡ j = omega arith in
        subst
          (λ (i : ℕ).
            write_rows (λ i c. k / 4 * 4 + c) (λ i c. f2h (src (k / 4 * 4 + c))) (λ i. k % 4) 0 1
              quads i
            ≡ f2h (src i))
          same
          (write_rows_at (λ i c. k / 4 * 4 + c) (λ i c. f2h (src (k / 4 * 4 + c))) (λ i. k % 4) 0 1
            quads 0 (j - k / 4 * 4) (omega arith) (omega arith) (omega arith)
            (λ p d l u w e. (omega arith, omega arith)))
  ]

  one_row_out : (j : ℕ) → k ≤ j → pack_one_row k src size dst j ≡ filled size dst j
  unfolding pack_one_row
  one_row_out j h =
      write_rows_other (λ i c. k / 4 * 4 + c) (λ i c. f2h (src (k / 4 * 4 + c))) (λ i. k % 4) 0 1
        quads j (λ p d l u w e. omega arith)
      ∙ quads_out j (omega arith)
      ∙ clear_behind-filled dst k j size h

-- at every index
pub pack_one_row-pack_scalar :
    (k : ℕ) (src : ℕ → ℕ) (stride size : ℕ) (dst : ℕ → ℕ) (j : ℕ)
    → ((i : ℕ) → src i < 2 ^ 32)
    → pack_one_row k src size dst j ≡ pack_scalar 1 k src stride size dst j
pack_one_row-pack_scalar k src stride size dst j bits =
    let same : cell 1 (j / 8) 0 (j % 8) ≡ j = omega arith in
    let col : 0 * stride + (j / 8 * 8 + j % 8) ≡ j = omega arith in
    subst (λ (i : ℕ). pack_one_row k src size dst j ≡ pack_scalar 1 k src stride size dst i) same
      (elim (dec_lt j k) [
        | yes h ↦
            one_row_in k src size dst bits j h
            ∙ ap (λ (i : ℕ). f2h (src i)) (sym col)
            ∙ sym (
                scalar_in 1 k src stride size dst (j / 8) 0 (j % 8) (omega arith) (omega arith)
                  (omega arith))
        | no h ↦
            one_row_out k src size dst j (omega arith)
            ∙ ap (λ (i : ℕ). filled size dst i) (sym same)
            ∙ sym (
                scalar_out 1 k src stride size dst (j / 8) 0 (j % 8) (omega arith) (omega arith)
                  (omega arith))
      ])
