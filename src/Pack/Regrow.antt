-- ===== src/Pack/Regrow.antt =====
-- charsiu_fp16_regrow_vcols of src/regcmd.c in place: what the longer surface holds.
use charsiu.Prelude.{
  Option, ap, arith, false, ltb, none, not, refl, some, suc, sym, zero, ℕ, ◌%◌, ◌*◌, ◌+◌, ◌-◌, ◌/◌,
  ◌<◌, ◌==◌, ◌^◌, ◌||◌, ◌∙◌, ◌≡◌, ◌≤◌,
}
use native.Mathlib.Nat.{mul-le-mul_right, mul-le-mul}
use charsiu.Matmul.{Environment, k_eff, align_up}
use charsiu.Matmul.Sizes.{k_eff_bounds}
use charsiu.Matmul.Tile.{w_group_index}
use charsiu.Pack.{vcols, group_size, regrow_group, regrow_groups, regrow_vcols}
use charsiu.Pack.Groups.{shift_block, shift_blocks, shift_blocks-moved, shift_blocks-cleared}
use charsiu.Pack.Place.{
  rounded, base_of, cell_place, w_group_index-cell_place, cell_place-lt, cell_place-ge,
  cell_place-lt_block,
}

module _ (env : Environment) (kv_new kv_old hd live : ℕ) where
  abbrev old : ℕ
  old = 16 * k_eff env (vcols kv_old hd)

  abbrev new : ℕ
  new = 16 * k_eff env (vcols kv_new hd)

  abbrev len : ℕ → ℕ
  len g = rounded live * group_size (align_up hd 2) (g * 16)

  abbrev blk : ℕ → ℕ
  blk g = group_size (align_up hd 2) (g * 16) * k_eff env (vcols kv_new hd)

  module _ (some_old : 0 < kv_old) (some_new : 0 < kv_new) where
    regrow_group-shift :
        (g : ℕ) (m : ℕ → ℕ)
        → g * 16 < align_up hd 2
        → regrow_group env kv_new kv_old hd live none m (g * 16)
          ≡ some (shift_block old new len blk g m)
    unfolding regrow_group shift_block
    regrow_group-shift g m h =
        let to : g * new * 2 / 2 ≡ g * new = omega arith in
        let from : g * old * 2 / 2 ≡ g * old = omega arith in
        rw (base_of env kv_old hd g some_old h, base_of env kv_new hd g some_new h, regrow_group)
          (rw (to, from) refl)

    regrow_groups-shift :
        (g : ℕ) (m : ℕ → ℕ)
        → g * 16 < align_up hd 2 + 16
        → regrow_groups env kv_new kv_old hd live none g m ≡ some (shift_blocks old new len blk g m)
    unfolding regrow_groups shift_blocks
    regrow_groups-shift zero m h = refl
    regrow_groups-shift (suc g) m h =
        rw (regrow_group-shift g m (omega arith), regrow_groups)
          (regrow_groups-shift g (shift_block old new len blk g m) (omega arith))

-- the half at an index of the surface that a call gives; `none` is -1
abbrev pub half_at : Option (ℕ → ℕ) → ℕ → Option ℕ
half_at none i = none
half_at (some m) i = some (m i)

-- the conditions under which charsiu_fp16_regrow_vcols moves a surface, for axes of up to 2 ^ 20
pub record CanRegrow (env : Environment) (kv_new kv_old hd live : ℕ) : Type 0 where
  pub channels : 1 ≤ hd
  pub channels_small : hd ≤ 2 ^ 20
  pub positions : 1 ≤ live
  pub inside : live ≤ kv_old
  pub grows : kv_old ≤ kv_new
  pub small : kv_new ≤ 2 ^ 20
  pub whole_old : k_eff env (vcols kv_old hd) % 32 ≡ 0
  pub whole_new : k_eff env (vcols kv_new hd) % 32 ≡ 0

guards_pass :
    (kv_new kv_old hd live : ℕ)
    → 1 ≤ hd
    → 1 ≤ live
    → live ≤ kv_old
    → kv_old ≤ kv_new
    → (hd == 0 || live == 0 || ltb kv_new kv_old || ltb kv_old live) ≡ false
guards_pass kv_new kv_old hd live a b c d = ground arith

whole_pass : (x y : ℕ) → x % 32 ≡ 0 → y % 32 ≡ 0 → (not (x % 32 == 0) || not (y % 32 == 0)) ≡ false
whole_pass x y a b = rw (a, b) refl

module _ (env : Environment) (kv_new kv_old hd live : ℕ)
    (c : CanRegrow env kv_new kv_old hd live) where
  abbrev groups : ℕ
  groups = (align_up hd 2 - 1) / 16 + 1

  abbrev moved : (ℕ → ℕ) → (ℕ → ℕ)
  moved m =
      shift_blocks (old env kv_new kv_old hd live) (new env kv_new kv_old hd live)
        (len env kv_new kv_old hd live) (blk env kv_new kv_old hd live) groups m

  regrow_vcols-moved : (m : ℕ → ℕ) → regrow_vcols env m kv_new none kv_old hd live ≡ some (moved m)
  unfolding regrow_vcols
  regrow_vcols-moved m =
      let first = guards_pass kv_new kv_old hd live c.channels c.positions c.inside c.grows in
      let second =
        whole_pass (k_eff env (vcols kv_old hd)) (k_eff env (vcols kv_new hd)) c.whole_old
          c.whole_new in
      let a = c.channels in
      let b = c.channels_small in
      let l = c.positions in
      let i = c.inside in
      let g = c.grows in
      rw (first, second)
        (regrow_groups-shift env kv_new kv_old hd live (omega arith) (omega arith) groups m
          (omega arith))

  sizes :
      (k_eff env (vcols kv_old hd) ≤ k_eff env (vcols kv_new hd))
      × (rounded live ≤ k_eff env (vcols kv_old hd))
      × (live ≤ 2 ^ 20)
  sizes =
      let i = c.inside in
      let g = c.grows in
      let s = c.small in
      let (lo, _) = k_eff_bounds env (vcols kv_old hd) (omega arith) in
      let (ln, _) = k_eff_bounds env (vcols kv_new hd) (omega arith) in
      let o = c.whole_old in
      let n = c.whole_new in
      let (_, ho) = k_eff_bounds env (vcols kv_old hd) (omega arith) in
      (omega arith, omega arith, omega arith)

  group_size-le : (g : ℕ) → group_size (align_up hd 2) g ≤ 16
  group_size-le g = ground arith

  len-le-old : (g : ℕ) → len env kv_new kv_old hd live g ≤ old env kv_new kv_old hd live
  len-le-old g = let (_, r, _) = sizes in omega (arith, mul-le-mul r (group_size-le (g * 16)))

  blk-le-new : (g : ℕ) → blk env kv_new kv_old hd live g ≤ new env kv_new kv_old hd live
  blk-le-new g = mul-le-mul_right (k_eff env (vcols kv_new hd)) (group_size-le (g * 16))

  old-le-new : old env kv_new kv_old hd live ≤ new env kv_new kv_old hd live
  old-le-new = let (g, _, _) = sizes in omega arith

  last_group : (n : ℕ) → n < align_up hd 2 → n / 16 < groups
  last_group n h = omega arith

-- charsiu_fp16_regrow_vcols in place, on a surface of up to 2 ^ 20 positions and channels and with both
-- extents made of whole tiles: every half of a live position is at its place in the longer surface, for each
-- channel, the last group of channels being smaller or not. No block overwrites one that is still to be moved.
pub regrow_vcols-live :
    (env : Environment) (kv_new kv_old hd live : ℕ) (m : ℕ → ℕ) (n k : ℕ)
    → CanRegrow env kv_new kv_old hd live
    → n < align_up hd 2
    → k < live
    → half_at
        (regrow_vcols env m kv_new none kv_old hd live)
        (w_group_index env (vcols kv_new hd) n k)
      ≡ some (m (w_group_index env (vcols kv_old hd) n k))
regrow_vcols-live env kv_new kv_old hd live m n k c hn hk =
    let (wider, inside, small) = sizes env kv_new kv_old hd live c in
    let fits : live ≤ rounded live = omega arith in
    let at_new = w_group_index-cell_place env kv_new hd n k c.whole_new (omega arith) in
    let at_old = w_group_index-cell_place env kv_old hd n k c.whole_old (omega arith) in
    ap (λ (o : Option (ℕ → ℕ)). half_at o (w_group_index env (vcols kv_new hd) n k))
      (regrow_vcols-moved env kv_new kv_old hd live c m)
    ∙ ap some (
        ap (moved env kv_new kv_old hd live c m) at_new
        ∙ shift_blocks-moved _ _ _ _ (old-le-new env kv_new kv_old hd live c)
            (len-le-old env kv_new kv_old hd live c) (blk-le-new env kv_new kv_old hd live c)
            (groups env kv_new kv_old hd live c) m (n / 16) (cell_place (align_up hd 2) n k)
            (last_group env kv_new kv_old hd live c n hn)
            (cell_place-lt (align_up hd 2) n k live hn hk (omega arith))
        ∙ ap m (sym at_old))

-- Under the same conditions the positions behind the live ones, from the next whole tile up to the new
-- extent, hold zeros in every channel: nothing of the shorter surface is left where they are.
pub regrow_vcols-zero :
    (env : Environment) (kv_new kv_old hd live : ℕ) (m : ℕ → ℕ) (n k : ℕ)
    → CanRegrow env kv_new kv_old hd live
    → n < align_up hd 2
    → (live + 31) / 32 * 32 ≤ k
    → k < k_eff env (vcols kv_new hd)
    → half_at
        (regrow_vcols env m kv_new none kv_old hd live)
        (w_group_index env (vcols kv_new hd) n k)
      ≡ some 0
regrow_vcols-zero env kv_new kv_old hd live m n k c hn lo hi =
    let (wider, inside, small) = sizes env kv_new kv_old hd live c in
    let behind : rounded live ≤ k = omega arith in
    let at_new = w_group_index-cell_place env kv_new hd n k c.whole_new hi in
    ap (λ (o : Option (ℕ → ℕ)). half_at o (w_group_index env (vcols kv_new hd) n k))
      (regrow_vcols-moved env kv_new kv_old hd live c m)
    ∙ ap some (
        ap (moved env kv_new kv_old hd live c m) at_new
        ∙ shift_blocks-cleared _ _ _ _ (old-le-new env kv_new kv_old hd live c)
            (len-le-old env kv_new kv_old hd live c) (blk-le-new env kv_new kv_old hd live c)
            (groups env kv_new kv_old hd live c) m (n / 16) (cell_place (align_up hd 2) n k)
            (last_group env kv_new kv_old hd live c n hn)
            (cell_place-ge (align_up hd 2) n k live behind (omega arith))
            (cell_place-lt_block (align_up hd 2) n k (k_eff env (vcols kv_new hd)) hn hi
              c.whole_new))
