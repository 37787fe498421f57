-- ===== src/Pack/Columns/Placed.antt =====
-- Where the packers of src/regcmd.c write, against the tile.
use charsiu.Prelude.{
  Bool-cases, ap, ap₂, arith, false, inl, inr, leb, ltb, refl, some, sub64, suc, sym, zero, ℕ, ◌%◌,
  ◌*◌, ◌+◌, ◌-◌, ◌/◌, ◌<◌, ◌^◌, ◌||◌, ◌∙◌, ◌≡◌, ◌≤◌, ◌⊎◌,
}
use native.Mathlib.Nat.{mul-le-mul}
use charsiu.Matmul.{Environment, Matmul, k_eff, n_pad, align_up}
use charsiu.Matmul.Sizes.{k_eff_bounds}
use charsiu.Matmul.Tile.{min2, tile_index, w_group_index, group, w16_element, w16_offset}
use charsiu.Matmul.Tile.Injective.{w_group_index_packs}
use charsiu.Pack.{vcols}
use charsiu.Pack.Writes.{store, write_cells, write_rows, write_rows_at}
use charsiu.Pack.Columns.{run_of, krows, krow_tiles, pack_krow, stride_of, vcol_groups, pack_vcol}

write_cells-cong :
    (at other val : ℕ → ℕ) (count : ℕ) (m : ℕ → ℕ)
    → ((i : ℕ) → i < count → at i ≡ other i)
    → write_cells at val count m ≡ write_cells other val count m
unfolding write_cells
write_cells-cong at other val zero m h = refl
write_cells-cong at other val (suc i) m h =
    ap₂ (λ (r : ℕ → ℕ) (a : ℕ). store r a (val i))
      (write_cells-cong at other val i m (λ k b. h k (omega arith))) (h i (omega arith))

offset_of :
    (env : Environment) (mm : Matmul) (n k : ℕ)
    → n < n_pad mm
    → k < mm.k
    → w16_offset env mm n k group ≡ some (w_group_index env mm n k * 2)
unfolding w16_offset w16_element
offset_of env mm n k hn hk =
    let guard : (leb (n_pad mm) n || leb mm.k k) ≡ false = ground arith in rw guard refl

-- the columns of one tile are next to one another, and the channels of one group a step apart
column_step :
    (ke np n t i : ℕ)
    → i < 32
    → tile_index 16 32 np ke n (t * 32) + i ≡ tile_index 16 32 np ke n (t * 32 + i)
unfolding tile_index
column_step ke np n t i h =
    let a : (t * 32 + i) / 32 ≡ t = omega arith in
    let b : (t * 32 + i) % 32 ≡ i = omega arith in
    let c : t * 32 / 32 ≡ t = omega arith in
    let d : t * 32 % 32 ≡ 0 = omega arith in rw (a, b, c, d) (omega arith)

shuffle : (a b i s r : ℕ) → a + b + i * s + r ≡ a + b + 0 * s + r + i * s
shuffle a b i s r = omega arith

channel_step :
    (ke np g i k : ℕ)
    → i < 16
    → tile_index 16 32 np ke (g * 16 + i) k
      ≡ tile_index 16 32 np ke (g * 16) k + i * min2 (ke - k / 32 * 32) 32
unfolding tile_index
channel_step ke np g i k h =
    let a : (g * 16 + i) / 16 ≡ g = omega arith in
    let b : (g * 16 + i) % 16 ≡ i = omega arith in
    let c : g * 16 / 16 ≡ g = omega arith in
    let d : g * 16 % 16 ≡ 0 = omega arith in
    rw (a, b, c, d)
      (shuffle (g * 16 * ke) (k / 32 * 32 * min2 (np - g * 16) 16) i (min2 (ke - k / 32 * 32) 32)
        (k % 32))

module _ (env : Environment) (f2h : ℕ → ℕ) (hd nk pos : ℕ) (k : ℕ → ℕ)
    (inside : pos < align_up nk 2) where
  abbrev krow_at : ℕ → ℕ → ℕ
  krow_at t i = w_group_index env (krows hd nk) pos (t * 32 + i)

  krow_tile :
      (t : ℕ) (m : ℕ → ℕ)
      → write_cells
          (λ i. w_group_index env (krows hd nk) pos (t * 32) * 2 / 2 + i)
          (λ i. f2h (k (t * 32 + i)))
          (run_of hd (t * 32) 32)
          m
        ≡ write_cells (krow_at t) (λ i. f2h (k (t * 32 + i))) (run_of hd (t * 32) 32) m
  unfolding w_group_index
  krow_tile t m =
      let half : w_group_index env (krows hd nk) pos (t * 32) * 2 / 2
          ≡ w_group_index env (krows hd nk) pos (t * 32) =
        omega arith in
      write_cells-cong (λ i. w_group_index env (krows hd nk) pos (t * 32) * 2 / 2 + i) (krow_at t)
        (λ i. f2h (k (t * 32 + i))) (run_of hd (t * 32) 32) m
        (λ i b.
          ap (λ (w : ℕ). w + i) half
          ∙ column_step (k_eff env (krows hd nk)) (align_up nk 2) pos t i (ground arith))

  krow_tiles-rows :
      (t tiles : ℕ) (m : ℕ → ℕ)
      → (t + tiles) * 32 < hd + 32
      → krow_tiles env f2h hd nk pos k t tiles m
        ≡ write_rows krow_at (λ t i. f2h (k (t * 32 + i))) (λ t. run_of hd (t * 32) 32) t tiles m
  unfolding krow_tiles write_rows
  krow_tiles-rows t zero m h = refl
  krow_tiles-rows t (suc tiles) m h =
      rw (offset_of env (krows hd nk) pos (t * 32) inside (omega arith), krow_tiles)
        (ap (krow_tiles env f2h hd nk pos k (suc t) tiles) (krow_tile t m)
          ∙ krow_tiles-rows (suc t) tiles
              (write_cells (krow_at t) (λ i. f2h (k (t * 32 + i))) (run_of hd (t * 32) 32) m)
              (omega arith))

run_bounds : (total at size i : ℕ) → i < run_of total at size → (i < size) × (at + i < total)
run_bounds total at size i h = ground arith

tile_unique : (p i q r : ℕ) → i < 32 → r < 32 → p * 32 + i ≡ q * 32 + r → (p ≡ q) × (i ≡ r)
tile_unique p i q r a b e = (omega arith, omega arith)

-- charsiu_fp16_pack_krow puts every channel of a position at its place in the K surface, for a position
-- of the surface and heads of up to 2 ^ 20 channels, whole tiles or not.
pub pack_krow-placed :
    (env : Environment) (f2h : ℕ → ℕ) (dst : ℕ → ℕ) (hd nk pos : ℕ) (k : ℕ → ℕ) (c : ℕ)
    → hd ≤ 2 ^ 20
    → pos < align_up nk 2
    → c < hd
    → pack_krow env f2h dst hd nk pos k (w_group_index env (krows hd nk) pos c) ≡ f2h (k c)
unfolding pack_krow
pack_krow-placed env f2h dst hd nk pos k c small inside hc =
    let (fits, _) = k_eff_bounds env (krows hd nk) small in
    let back : c / 32 * 32 + c % 32 ≡ c = omega arith in
    ap (λ (m : ℕ → ℕ). m (w_group_index env (krows hd nk) pos c))
      (krow_tiles-rows env f2h hd nk pos k inside 0 ((hd + 31) / 32) dst (omega arith))
    ∙ ap
        (λ (x : ℕ).
          write_rows (krow_at env f2h hd nk pos k inside) (λ t i. f2h (k (t * 32 + i)))
            (λ t. run_of hd (t * 32) 32) 0 ((hd + 31) / 32) dst
            (w_group_index env (krows hd nk) pos x))
        (sym back)
    ∙ write_rows_at (krow_at env f2h hd nk pos k inside) (λ t i. f2h (k (t * 32 + i)))
        (λ t. run_of hd (t * 32) 32) 0 ((hd + 31) / 32) dst (c / 32) (c % 32) (omega arith)
        (omega arith) (ground arith)
        (λ p i lo hi b e.
          let (low, in_row) = run_bounds hd (p * 32) 32 i b in
          tile_unique p i (c / 32) (c % 32) low (omega arith)
            ((w_group_index_packs env (krows hd nk) pos (p * 32 + i) pos (c / 32 * 32 + c % 32)
                inside (omega arith) inside (omega arith)).1
              e).1)
    ∙ ap (λ (x : ℕ). f2h (k x)) back

module _ (env : Environment) (f2h : ℕ → ℕ) (kv hd pos : ℕ) (v : ℕ → ℕ) (inside : pos < kv)
    (kv_small : kv ≤ 2 ^ 20) (hd_small : hd ≤ 2 ^ 20) where
  abbrev vcol_at : ℕ → ℕ → ℕ
  vcol_at g i = w_group_index env (vcols kv hd) (g * 16 + i) pos

  abbrev step : ℕ
  step = min2 (k_eff env (vcols kv hd) - pos / 32 * 32) 32

  vcol_at-step :
      (g i : ℕ) → i < 16 → vcol_at g i ≡ w_group_index env (vcols kv hd) (g * 16) pos + i * step
  unfolding w_group_index
  vcol_at-step g i h = channel_step (k_eff env (vcols kv hd)) (align_up hd 2) g i pos h

  -- an index is far below 2 ^ 63
  index_small : (n : ℕ) → n < align_up hd 2 → w_group_index env (vcols kv hd) n pos < 2 ^ 42
  index_small n h =
      let (lo, hi) = k_eff_bounds env (vcols kv hd) kv_small in
      let (bound, _) =
        w_group_index_packs env (vcols kv hd) n pos n pos h (omega arith) h (omega arith) in
      let whole =
        mul-le-mul {n₁ = align_up hd 2} {m₁ = k_eff env (vcols kv hd)} {n₂ = 2 ^ 21} {m₂ = 2 ^ 21}
          (omega arith) (omega arith) in
      omega arith

  stride_of-step :
      (g : ℕ)
      → g * 16 < hd
      → (stride_of env kv hd (g * 16) pos (w_group_index env (vcols kv hd) (g * 16) pos * 2)
          ≡ some step)
        ⊎ ((stride_of env kv hd (g * 16) pos (w_group_index env (vcols kv hd) (g * 16) pos * 2)
              ≡ some 0)
            × (run_of hd (g * 16) 16 ≡ 1))
  unfolding stride_of
  stride_of-step g h = elim (Bool-cases (ltb 1 (run_of hd (g * 16) 16))) [
    | inr n ↦ inr (rw n refl, ground arith)
    | inl y ↦
        let more : g * 16 + 1 < hd = ground arith in
        let next = vcol_at-step g 1 (omega arith) in
        let small = index_small (g * 16 + 1) (omega arith) in
        let gap : sub64 (w_group_index env (vcols kv hd) (g * 16 + 1) pos * 2)
                (w_group_index env (vcols kv hd) (g * 16) pos * 2)
              / 2
            ≡ step =
          omega arith in
        inl (
          rw (y, offset_of env (vcols kv hd) (g * 16 + 1) pos (omega arith) inside, stride_of)
            (ap (λ (x : ℕ). some x) gap))
  ]

  vcol_cells :
      (g stride : ℕ) (m : ℕ → ℕ)
      → (stride ≡ step) ⊎ ((stride ≡ 0) × (run_of hd (g * 16) 16 ≡ 1))
      → write_cells
          (λ i. w_group_index env (vcols kv hd) (g * 16) pos * 2 / 2 + i * stride)
          (λ i. f2h (v (g * 16 + i)))
          (run_of hd (g * 16) 16)
          m
        ≡ write_cells (vcol_at g) (λ i. f2h (v (g * 16 + i))) (run_of hd (g * 16) 16) m
  vcol_cells g stride m h =
      let base = w_group_index env (vcols kv hd) (g * 16) pos in
      let half : base * 2 / 2 ≡ base = omega arith in
      write_cells-cong (λ i. base * 2 / 2 + i * stride) (vcol_at g) (λ i. f2h (v (g * 16 + i)))
        (run_of hd (g * 16) 16) m
        (λ i b.
          let (low, _) = run_bounds hd (g * 16) 16 i b in
          ap (λ (w : ℕ). w + i * stride) half
          ∙ elim h [
            | inl e ↦ ap (λ (w : ℕ). base + i * w) e
            | inr (e, one) ↦ let first : i ≡ 0 = omega arith in rw (e, first) (omega arith)
          ]
          ∙ sym (vcol_at-step g i low))

  vcol_groups-rows :
      (g groups : ℕ) (m : ℕ → ℕ)
      → (g + groups) * 16 < hd + 16
      → vcol_groups env f2h kv hd pos v g groups m
        ≡ write_rows vcol_at (λ g i. f2h (v (g * 16 + i))) (λ g. run_of hd (g * 16) 16) g groups m
  unfolding vcol_groups write_rows
  vcol_groups-rows g zero m h = refl
  vcol_groups-rows g (suc groups) m h =
      let base = w_group_index env (vcols kv hd) (g * 16) pos in
      let here = offset_of env (vcols kv hd) (g * 16) pos (omega arith) inside in
      let cells = write_cells (vcol_at g) (λ i. f2h (v (g * 16 + i))) (run_of hd (g * 16) 16) m in
      let later = vcol_groups-rows (suc g) groups cells (omega arith) in
      elim (stride_of-step g (omega arith)) [
        | inl e ↦
            rw (here, e, vcol_groups)
              (ap (vcol_groups env f2h kv hd pos v (suc g) groups) (vcol_cells g step m (inl refl))
                ∙ later)
        | inr (e, one) ↦
            rw (here, e, vcol_groups)
              (ap (vcol_groups env f2h kv hd pos v (suc g) groups)
                  (vcol_cells g 0 m (inr (refl, one)))
                ∙ later)
      ]

channel_unique : (p i q r : ℕ) → i < 16 → r < 16 → p * 16 + i ≡ q * 16 + r → (p ≡ q) × (i ≡ r)
channel_unique p i q r a b e = (omega arith, omega arith)

-- charsiu_fp16_pack_vcol puts every channel of a position at its place in the V surface, for a position of a
-- surface of up to 2 ^ 20 positions and heads of up to 2 ^ 20 channels: the step that it measures between two
-- channels of a group is that of the tile, and a group of a single channel needs none.
pub pack_vcol-placed :
    (env : Environment) (f2h : ℕ → ℕ) (dst : ℕ → ℕ) (kv hd pos : ℕ) (v : ℕ → ℕ) (c : ℕ)
    → pos < kv
    → kv ≤ 2 ^ 20
    → hd ≤ 2 ^ 20
    → c < hd
    → pack_vcol env f2h dst kv hd pos v (w_group_index env (vcols kv hd) c pos) ≡ f2h (v c)
unfolding pack_vcol
pack_vcol-placed env f2h dst kv hd pos v c inside kv_small hd_small hc =
    let (fits, _) = k_eff_bounds env (vcols kv hd) kv_small in
    let back : c / 16 * 16 + c % 16 ≡ c = omega arith in
    let at = vcol_at env f2h kv hd pos v inside kv_small hd_small in
    let rows =
      write_rows at (λ g i. f2h (v (g * 16 + i))) (λ g. run_of hd (g * 16) 16) 0 ((hd + 15) / 16)
        dst in
    ap (λ (m : ℕ → ℕ). m (w_group_index env (vcols kv hd) c pos))
      (vcol_groups-rows env f2h kv hd pos v inside kv_small hd_small 0 ((hd + 15) / 16) dst
        (omega arith))
    ∙ ap (λ (x : ℕ). rows (w_group_index env (vcols kv hd) x pos)) (sym back)
    ∙ write_rows_at at (λ g i. f2h (v (g * 16 + i))) (λ g. run_of hd (g * 16) 16) 0 ((hd + 15) / 16)
        dst (c / 16) (c % 16) (omega arith) (omega arith) (ground arith)
        (λ p i lo hi b e.
          let (low, in_group) = run_bounds hd (p * 16) 16 i b in
          channel_unique p i (c / 16) (c % 16) low (omega arith)
            ((w_group_index_packs env (vcols kv hd) (p * 16 + i) pos (c / 16 * 16 + c % 16) pos
                (omega arith) (omega arith) (omega arith) (omega arith)).1
              e).0)
    ∙ ap (λ (x : ℕ). f2h (v x)) back
