-- ===== src/Matmul/Tile/Injective.antt =====
-- The places of the weights in the tile of src/regcmd.c.
use charsiu.Prelude.{ap, arith, sym, ℕ, ◌%◌, ◌*◌, ◌+◌, ◌-◌, ◌/◌, ◌<◌, ◌∙◌, ◌≡◌, ◌≤◌}
use native.Mathlib.Nat.{mod-lt, div-add-mod, mul_comm, mul-le-mul_right}
use charsiu.Prelude.Radix.{radix_injective, radix-lt}
use charsiu.Matmul.{Environment, Matmul, weight_ngroup, weight_kgroup, k_eff, n_pad}
use charsiu.Matmul.Tile.{min2, tile_index, w_group_index}

-- an axis of `total` in groups of `g`: the group of `x` holds `x`, and ends within the axis
pub group_bounds :
    (g total x : ℕ)
    → 0 < g
    → x < total
    → let size = min2 (total - x / g * g) g in
      (x % g < size) × (x / g * g + size ≤ total) × (size ≤ g)
group_bounds g total x pos h = ground (arith, div-add-mod x g, mul_comm g (x / g), mod-lt x pos)

module _ (ng kg np ke : ℕ) (ng_pos : 0 < ng) (kg_pos : 0 < kg) where
  abbrev nsize : ℕ → ℕ
  nsize n = min2 (np - n / ng * ng) ng

  abbrev ksize : ℕ → ℕ
  ksize k = min2 (ke - k / kg * kg) kg

  abbrev in_tile : ℕ → ℕ → ℕ
  in_tile n k = n % ng * ksize k + k % kg

  abbrev in_group : ℕ → ℕ → ℕ
  in_group n k = k / kg * (kg * nsize n) + in_tile n k

  index-eq : (n k : ℕ) → tile_index ng kg np ke n k ≡ n / ng * (ng * ke) + in_group n k
  unfolding tile_index
  index-eq n k = omega arith

  module _ (n k : ℕ) (hn : n < np) (hk : k < ke) where
    in_tile-lt : in_tile n k < nsize n * ksize k
    in_tile-lt =
        radix-lt (ksize k) (n % ng) (nsize n) (k % kg) (group_bounds kg ke k kg_pos hk).0
          (group_bounds ng np n ng_pos hn).0

    in_group-lt : in_group n k < nsize n * ke
    in_group-lt =
        let (_, fits, _) = group_bounds kg ke k kg_pos hk in
        omega
          (arith, in_tile-lt, mul-le-mul_right {m = k / kg * kg + ksize k} {n = ke} (nsize n) fits)

    in_tile-lt-width : in_tile n k < kg * nsize n
    in_tile-lt-width =
        let (_, _, small) = group_bounds kg ke k kg_pos hk in
        omega (arith, in_tile-lt, mul-le-mul_right {m = ksize k} {n = kg} (nsize n) small)

    in_group-lt-width : in_group n k < ng * ke
    in_group-lt-width =
        let (_, _, small) = group_bounds ng np n ng_pos hn in
        omega (arith, in_group-lt, mul-le-mul_right {m = nsize n} {n = ng} ke small)

    -- every weight of the padded tensor lies inside the buffer
    pub tile_index-lt : tile_index ng kg np ke n k < np * ke
    tile_index-lt =
        let (_, fits, _) = group_bounds ng np n ng_pos hn in
        omega (
          arith,
          index-eq n k,
          in_group-lt,
          mul-le-mul_right {m = n / ng * ng + nsize n} {n = np} ke fits,
        )

  -- and two weights never share a place
  pub tile_index_injective :
      (n k n' k' : ℕ)
      → n < np
      → k < ke
      → n' < np
      → k' < ke
      → tile_index ng kg np ke n k ≡ tile_index ng kg np ke n' k'
      → (n ≡ n') × (k ≡ k')
  tile_index_injective n k n' k' hn hk hn' hk' e =
      let (groups, rests) =
        radix_injective (ng * ke) (n / ng) (n' / ng) (in_group n k) (in_group n' k')
          (in_group-lt-width n k hn hk) (in_group-lt-width n' k' hn' hk')
          (sym (index-eq n k) ∙ e ∙ index-eq n' k') in
      let widths : nsize n ≡ nsize n' = ap (λ g. min2 (np - g * ng) ng) groups in
      let (tiles, cells) =
        radix_injective (kg * nsize n) (k / kg) (k' / kg) (in_tile n k) (in_tile n' k')
          (in_tile-lt-width n k hn hk) (rw widths (in_tile-lt-width n' k' hn' hk'))
          (rests ∙ ap (λ w. k' / kg * (kg * w) + in_tile n' k') (sym widths)) in
      let depths : ksize k ≡ ksize k' = ap (λ g. min2 (ke - g * kg) kg) tiles in
      let (channels, columns) =
        radix_injective (ksize k) (n % ng) (n' % ng) (k % kg) (k' % kg)
          (group_bounds kg ke k kg_pos hk).0 (rw depths (group_bounds kg ke k' kg_pos hk').0)
          (cells ∙ ap (λ w. n' % ng * w + k' % kg) (sym depths)) in
      (
        omega (arith, div-add-mod n ng, div-add-mod n' ng, channels, ap (λ (g : ℕ). ng * g) groups),
        omega (arith, div-add-mod k kg, div-add-mod k' kg, columns, ap (λ (g : ℕ). kg * g) tiles),
      )

groups_pos : (mm : Matmul) → (0 < weight_ngroup mm.wdtype) × (0 < weight_kgroup mm.wdtype)
groups_pos mm = ground arith

-- The weight tile is a packing: for every weight type, two weights of the padded tensor that have the
-- same index are the same weight, and each index is below the padded channels times the padded columns.
pub w_group_index_packs :
    (env : Environment) (mm : Matmul) (n k n' k' : ℕ)
    → n < n_pad mm
    → k < k_eff env mm
    → n' < n_pad mm
    → k' < k_eff env mm
    → (w_group_index env mm n k < n_pad mm * k_eff env mm)
      × (w_group_index env mm n k ≡ w_group_index env mm n' k' → (n ≡ n') × (k ≡ k'))
unfolding w_group_index
w_group_index_packs env mm n k n' k' hn hk hn' hk' =
    let (ng_pos, kg_pos) = groups_pos mm in
    (
      tile_index-lt _ _ _ _ ng_pos kg_pos n k hn hk,
      tile_index_injective _ _ _ _ ng_pos kg_pos n k n' k' hn hk hn' hk',
    )
