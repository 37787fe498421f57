-- ===== src/Matmul/Tile.antt =====
-- The weight tile of src/regcmd.c: where the weight of output channel `n` and input column `k` lies in the
-- buffer. The buffer is [N/ng][K/kg][N%ng][K%kg], cut short at the edges.
pub mod Injective
use charsiu.Prelude.{Option, if◌then◌else◌, leb, ltb, none, some, ℕ, ◌%◌, ◌*◌, ◌+◌, ◌-◌, ◌/◌, ◌||◌}
use charsiu.Matmul.{Environment, Matmul, weight_ngroup, weight_kgroup, k_eff, n_pad}

-- MIN2
abbrev pub min2 : ℕ → ℕ → ℕ
min2 a b = if ltb a b then a else b

-- the index of a tile with groups of `ng` channels and `kg` columns, over `np` channels and `ke` columns
unfoldable pub tile_index : ℕ → ℕ → ℕ → ℕ → ℕ → ℕ → ℕ
tile_index ng kg np ke n k =
    let ngi = n / ng in
    let ngsz = min2 (np - ngi * ng) ng in
    let kgi = k / kg in
    let kgsz = min2 (ke - kgi * kg) kg in ngi * ng * ke + kgi * kg * ngsz + n % ng * kgsz + k % kg

-- w_group_index; its products stay in 64 bits for the shapes of `Sizes`
unfoldable pub w_group_index : Environment → Matmul → ℕ → ℕ → ℕ
unfolding tile_index
w_group_index env mm n k =
    tile_index (weight_ngroup mm.wdtype) (weight_kgroup mm.wdtype) (n_pad mm) (k_eff env mm) n k

-- `enum charsiu_w16_layout`
pub data W16Layout : Type 0 where
  dense atom group nlayout : W16Layout

-- charsiu_w16_offset; `none` stands for (size_t)-1
unfoldable pub w16_element : Environment → Matmul → ℕ → ℕ → W16Layout → Option ℕ
unfolding w_group_index
w16_element env mm n k dense = some (n * k_eff env mm + k)
w16_element env mm n k atom = some (k / 8 * n_pad mm * 8 + n * 8 + k % 8)
w16_element env mm n k group = some (w_group_index env mm n k)
w16_element env mm n k nlayout = none

unfoldable pub w16_offset : Environment → Matmul → ℕ → ℕ → W16Layout → Option ℕ
unfolding w16_element
w16_offset env mm n k layout =
    if leb (n_pad mm) n || leb mm.k k
    then none
    else elim (w16_element env mm n k layout) [ none ↦ none | some off ↦ some (off * 2) ]

-- charsiu_w8_offset
unfoldable pub w8_offset : Environment → Matmul → ℕ → ℕ → Option ℕ
unfolding w_group_index
w8_offset env mm n k =
    if leb (n_pad mm) n || leb mm.k k then none else some (w_group_index env mm n k)
