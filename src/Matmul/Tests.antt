-- ===== src/Matmul/Tests.antt =====
-- Runs and instances of the theorems on the geometry of a matmul.
use charsiu.Prelude.{[], arith, false, map, refl, true, ℕ, ◌*◌, ◌<◌, ◌∷◌, ◌≡◌}
use charsiu.Matmul.{Matmul, int4, int8, unset, entries_per_row, k_eff, n_pad}
use charsiu.Matmul.Tile.{w_group_index}
use charsiu.Matmul.Tile.Injective.{w_group_index_packs}
use charsiu.Matmul.Accumulator.{acc_width_ok, acc_index}
use charsiu.Matmul.Accumulator.Bijective.{acc_index_permutes}

-- the vendor's K of 4096 with 4 bit weights has a surface of 128 entries
abbrev wide : Matmul
wide = record { m = 1; k = 4096; n = 33; wdtype = int4; adtype = int8 }

abbrev edge : Matmul
edge = record { m = 1; k = 40; n = 33; wdtype = int8; adtype = int8 }

surface_128 : entries_per_row unset wide ≡ 128
unfolding entries_per_row
surface_128 = refl

-- the last tile is cut short: 34 padded channels, 48 padded columns
edge_places : map (w_group_index unset edge 32) (0 ∷ 31 ∷ 32 ∷ []) ≡ 1536 ∷ 1567 ∷ 1600 ∷ []
unfolding w_group_index k_eff
edge_places = refl

-- row 1 of two, channel 16: the two formats differ
two_orders : acc_index unset 1 16 2 false ∷ acc_index unset 1 16 2 true ∷ [] ≡ 36 ∷ 36 ∷ []
unfolding acc_index
two_orders = refl

w_group_index_packs_example :
    (w_group_index unset edge 32 32 < n_pad edge * k_eff unset edge)
    × (w_group_index unset edge 32 32 ≡ w_group_index unset edge 0 47
        → ◌≡◌ {A = ℕ} 32 0 × ◌≡◌ {A = ℕ} 32 47)
unfolding k_eff
w_group_index_packs_example =
    w_group_index_packs unset edge 32 32 0 47 (omega arith) (omega arith) (omega arith)
      (omega arith)

acc_index_permutes_example :
    (acc_index unset 3 40 4 true < 4 * 64)
    × (acc_index unset 3 40 4 true ≡ acc_index unset 2 8 4 true
        → ◌≡◌ {A = ℕ} 3 2 × ◌≡◌ {A = ℕ} 40 8)
unfolding acc_width_ok
acc_index_permutes_example =
    acc_index_permutes unset 4 64 3 40 2 8 true refl refl (omega arith) (omega arith) refl
      (omega arith) (omega arith) (omega arith) (omega arith)
