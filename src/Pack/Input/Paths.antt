-- ===== src/Pack/Input/Paths.antt =====
-- The ways to pack the fp16 input of src/regcmd.c, against the scalar loop.
use charsiu.Prelude.{
  Bool, arith, dec_lt, false, ltb, refl, subst, sym, true, ℕ, ℕ_discrete, ◌%◌, ◌*◌, ◌+◌, ◌-◌, ◌/◌,
  ◌<◌, ◌==◌, ◌^◌, ◌∙◌, ◌≡◌, ◌≤◌,
}
use native.Mathlib.Nat.{mul-le-mul_right, div-add-mod, mod-lt}
use charsiu.Half.Lanes.{f2h_lane-f2h}
use charsiu.Pack.Input.{
  pack_pieces, pack_scalar, clear_behind, pack_tail, pack_edges, pack_groups, pack_rows_vector,
  pack_vector,
}
use charsiu.Pack.Input.OneRow.{pack_one_row-pack_scalar}
use charsiu.Pack.Input.Cells.{cell, value, lanes, filled, scalar_in, scalar_out}
use charsiu.Pack.Input.Pieces.{
  groups_before, groups_after, groups_in, clear_in, tail_before, tail_in, tail_out,
}

module _ (m k : ℕ) (src : ℕ → ℕ) (stride size : ℕ) (dst : ℕ → ℕ)
    (bits : (i : ℕ) → src i < 2 ^ 32) where
  vector_in :
      (g i c : ℕ)
      → i < m
      → c < 8
      → g * 8 + c < k
      → pack_rows_vector m k src stride size dst (cell m g i c) ≡ value src stride i (g * 8 + c)
  unfolding pack_rows_vector
  vector_in g i c a b h = elim (dec_lt g (k / 8)) [
    | yes p ↦
        tail_before m k src stride size dst g i c _ a b p
        ∙ groups_in m k src stride size dst 0 (k / 8) i c g (clear_behind (k / 8 * m * 8) size dst)
            a b (omega arith) (omega arith)
        ∙ f2h_lane-f2h (src (i * stride + (g * 8 + c))) (bits (i * stride + (g * 8 + c)))
    | no p ↦
        let last : g ≡ k / 8 = omega arith in
        subst
          (λ (x : ℕ).
            pack_tail m k src stride
              (pack_groups m src stride 0 (k / 8) (clear_behind (k / 8 * m * 8) size dst))
              (cell m x i c)
            ≡ value src stride i (x * 8 + c))
          (sym last) (tail_in m k src stride size dst i c _ a (omega arith))
  ]

  vector_out :
      (g i c : ℕ)
      → i < m
      → c < 8
      → k ≤ g * 8 + c
      → pack_rows_vector m k src stride size dst (cell m g i c) ≡ filled size dst (cell m g i c)
  unfolding pack_rows_vector
  vector_out g i c a b h =
      let past : k / 8 ≤ g = omega arith in
      tail_out m k src stride size dst g i c _ a b h
      ∙ groups_after m k src stride size dst 0 (k / 8) i c g (clear_behind (k / 8 * m * 8) size dst)
          (omega arith)
      ∙ clear_in m k src stride size dst (cell m g i c)
          (omega (arith, mul-le-mul_right {m = k / 8} {n = g} m past))

  vector_cell :
      (g i c : ℕ)
      → i < m
      → c < 8
      → pack_rows_vector m k src stride size dst (cell m g i c)
        ≡ pack_scalar m k src stride size dst (cell m g i c)
  vector_cell g i c a b = elim (dec_lt (g * 8 + c) k) [
    | yes h ↦ vector_in g i c a b h ∙ sym (scalar_in m k src stride size dst g i c a b h)
    | no h ↦
        vector_out g i c a b (omega arith)
        ∙ sym (scalar_out m k src stride size dst g i c a b (omega arith))
  ]

  -- the group, the row and the column of an index
  decoded : (j : ℕ) → 1 ≤ m → cell m (j / (m * 8)) (j % (m * 8) / 8) (j % (m * 8) % 8) ≡ j
  decoded j h = omega (arith, div-add-mod j (m * 8), div-add-mod (j % (m * 8)) 8)

  edges_cell :
      (g i c : ℕ)
      → i < m
      → c < 8
      → k / 8 ≤ g
      → pack_edges m k src stride size dst (cell m g i c)
        ≡ pack_scalar m k src stride size dst (cell m g i c)
  unfolding pack_edges
  edges_cell g i c a b past = elim (dec_lt (g * 8 + c) k) [
    | yes h ↦
        let last : g ≡ k / 8 = omega arith in
        subst
          (λ (x : ℕ).
            pack_tail m k src stride (clear_behind (k / 8 * m * 8) size dst) (cell m x i c)
            ≡ value src stride i (x * 8 + c))
          (sym last)
          (tail_in m k src stride size dst i c (clear_behind (k / 8 * m * 8) size dst) a
            (omega arith))
        ∙ sym (scalar_in m k src stride size dst g i c a b h)
    | no h ↦
        tail_out m k src stride size dst g i c (clear_behind (k / 8 * m * 8) size dst) a b
          (omega arith)
        ∙ clear_in m k src stride size dst (cell m g i c)
            (omega (arith, mul-le-mul_right {m = k / 8} {n = g} m past))
        ∙ sym (scalar_out m k src stride size dst g i c a b (omega arith))
  ]

  group_cell :
      (g i c : ℕ)
      → i < m
      → c < 8
      → g < k / 8
      → lanes src stride g i c ≡ pack_scalar m k src stride size dst (cell m g i c)
  group_cell g i c a b h =
      f2h_lane-f2h (src (i * stride + (g * 8 + c))) (bits (i * stride + (g * 8 + c)))
      ∙ sym (scalar_in m k src stride size dst g i c a b (omega arith))

  pieces_cell :
      (cut : ℕ) (upper_first : Bool) (g i c : ℕ)
      → cut ≤ k / 8
      → i < m
      → c < 8
      → pack_pieces m k src stride size cut upper_first dst (cell m g i c)
        ≡ pack_scalar m k src stride size dst (cell m g i c)
  unfolding pack_pieces
  pieces_cell cut true g i c small a b = elim (dec_lt g cut) [
    | yes h ↦
        groups_in m k src stride size dst 0 cut i c g _ a b (omega arith) (omega arith)
        ∙ group_cell g i c a b (omega arith)
    | no h ↦
        groups_after m k src stride size dst 0 cut i c g
          (pack_groups m src stride cut (k / 8 - cut) (pack_edges m k src stride size dst))
          (omega arith)
        ∙ elim (dec_lt g (k / 8)) [
          | yes l ↦
              groups_in m k src stride size dst cut (k / 8 - cut) i c g
                (pack_edges m k src stride size dst) a b (omega arith) (omega arith)
              ∙ group_cell g i c a b l
          | no l ↦
              groups_after m k src stride size dst cut (k / 8 - cut) i c g
                (pack_edges m k src stride size dst) (omega arith)
              ∙ edges_cell g i c a b (omega arith)
        ]
  ]
  pieces_cell cut false g i c small a b = elim (dec_lt g cut) [
    | yes h ↦
        groups_before m k src stride size dst cut (k / 8 - cut) i c g
          (pack_groups m src stride 0 cut (pack_edges m k src stride size dst)) a b h
        ∙ groups_in m k src stride size dst 0 cut i c g (pack_edges m k src stride size dst) a b
            (omega arith) (omega arith)
        ∙ group_cell g i c a b (omega arith)
    | no h ↦ elim (dec_lt g (k / 8)) [
      | yes l ↦
          groups_in m k src stride size dst cut (k / 8 - cut) i c g _ a b (omega arith)
            (omega arith)
          ∙ group_cell g i c a b l
      | no l ↦
          groups_after m k src stride size dst cut (k / 8 - cut) i c g
            (pack_groups m src stride 0 cut (pack_edges m k src stride size dst)) (omega arith)
          ∙ groups_after m k src stride size dst 0 cut i c g (pack_edges m k src stride size dst)
              (omega arith)
          ∙ edges_cell g i c a b (omega arith)
    ]
  ]

pack_rows_vector-pack_scalar :
    (m k : ℕ) (src : ℕ → ℕ) (stride size : ℕ) (dst : ℕ → ℕ) (j : ℕ)
    → ((i : ℕ) → src i < 2 ^ 32)
    → 1 ≤ m
    → pack_rows_vector m k src stride size dst j ≡ pack_scalar m k src stride size dst j
pack_rows_vector-pack_scalar m k src stride size dst j bits some_row =
    let row : j % (m * 8) < m * 8 = mod-lt j (omega arith) in
    subst
      (λ (x : ℕ).
        pack_rows_vector m k src stride size dst x ≡ pack_scalar m k src stride size dst x)
      (decoded m k src stride size dst bits j some_row)
      (vector_cell m k src stride size dst bits (j / (m * 8)) (j % (m * 8) / 8) (j % (m * 8) % 8)
        (omega arith) (omega arith))

-- The vector path of charsiu_pack_input_f16_stride leaves the very buffer that the scalar loop leaves, at
-- every index, for any number of rows, width and stride, for a buffer of any size and whatever it held,
-- where the floats are patterns of 32 bits.
pub pack_vector-pack_scalar :
    (m k : ℕ) (src : ℕ → ℕ) (stride size : ℕ) (dst : ℕ → ℕ) (j : ℕ)
    → ((i : ℕ) → src i < 2 ^ 32)
    → pack_vector m k src stride size dst j ≡ pack_scalar m k src stride size dst j
unfolding pack_vector
pack_vector-pack_scalar m k src stride size dst j bits = elim (ℕ_discrete m 1) [
  | yes one ↦
      let t : (m == 1) ≡ true = ground arith in
      rw t (rw one (pack_one_row-pack_scalar k src stride size dst j bits))
  | no other ↦
      let f : (m == 1) ≡ false = ground arith in
      elim (dec_lt 1 m) [
        | yes more ↦
            let t : ltb 1 m ≡ true = ground arith in
            rw (f, t) (pack_rows_vector-pack_scalar m k src stride size dst j bits (omega arith))
        | no none_there ↦ let g : ltb 1 m ≡ false = ground arith in rw (f, g) refl
      ]
]

-- Two threads that share the groups of the input between them at any place, after the edges are done, leave
-- what the scalar loop leaves, at every index and whichever of them is first.
pub pack_pieces-pack_scalar :
    (m k : ℕ) (src : ℕ → ℕ) (stride size cut : ℕ) (upper_first : Bool) (dst : ℕ → ℕ) (j : ℕ)
    → ((i : ℕ) → src i < 2 ^ 32)
    → 1 ≤ m
    → cut ≤ k / 8
    → pack_pieces m k src stride size cut upper_first dst j ≡ pack_scalar m k src stride size dst j
pack_pieces-pack_scalar m k src stride size cut upper_first dst j bits some_row small =
    let row : j % (m * 8) < m * 8 = mod-lt j (omega arith) in
    subst
      (λ (x : ℕ).
        pack_pieces m k src stride size cut upper_first dst x
        ≡ pack_scalar m k src stride size dst x)
      (decoded m k src stride size dst bits j some_row)
      (pieces_cell m k src stride size dst bits cut upper_first (j / (m * 8)) (j % (m * 8) / 8)
        (j % (m * 8) % 8) small (omega arith) (omega arith))
