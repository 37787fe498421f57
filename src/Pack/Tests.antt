-- ===== src/Pack/Tests.antt =====
-- The packers at concrete inputs.
use charsiu.Prelude.{arith, none, refl, some, true, ℕ, ◌+◌, ◌≡◌}
use charsiu.Matmul.{unset, Matmul, int8, k_eff}
use charsiu.Pack.Input.{pack_scalar, pack_vector, pack_pieces}
use charsiu.Pack.Input.Paths.{pack_vector-pack_scalar, pack_pieces-pack_scalar}
use charsiu.Pack.Columns.{pack_vcol}
use charsiu.Pack.Columns.Placed.{pack_vcol-placed}
use charsiu.Matmul.Tile.{w_group_index}
use charsiu.Pack.{vcols, regrow_vcols}
use charsiu.Pack.Regrow.{half_at, CanRegrow, regrow_vcols-live, regrow_vcols-zero}

-- heads of 100 channels, whose last group has 4; 5 positions of 32 are live, and there is to be room for 64
can_regrow : CanRegrow unset 64 32 100 5
unfolding k_eff
can_regrow = record {
  channels = omega arith;
  channels_small = omega arith;
  positions = omega arith;
  inside = omega arith;
  grows = omega arith;
  small = omega arith;
  whole_old = refl;
  whole_new = refl;
}

abbrev surface : ℕ → ℕ
surface i = i + 1

regrow_vcols-live_example :
    half_at (regrow_vcols unset surface 64 none 32 100 5) (w_group_index unset (vcols 64 100) 98 3)
    ≡ some (surface (w_group_index unset (vcols 32 100) 98 3))
regrow_vcols-live_example =
    regrow_vcols-live unset 64 32 100 5 surface 98 3 can_regrow (omega arith) (omega arith)

regrow_vcols-zero_example :
    half_at (regrow_vcols unset surface 64 none 32 100 5) (w_group_index unset (vcols 64 100) 98 40)
    ≡ some 0
unfolding k_eff
regrow_vcols-zero_example =
    regrow_vcols-zero unset 64 32 100 5 surface 98 40 can_regrow (omega arith) (omega arith)
      (omega arith)

abbrev byte_weights : Matmul
byte_weights = record { m = 1; k = 40; n = 33; wdtype = int8; adtype = int8 }

pack_vcol-placed_example :
    pack_vcol unset (λ x. x + 7) surface 40 97 33 (λ i. i) (w_group_index unset (vcols 40 97) 96 33)
    ≡ 103
pack_vcol-placed_example =
    pack_vcol-placed unset (λ x. x + 7) surface 40 97 33 (λ i. i) 96 (omega arith) (omega arith)
      (omega arith) (omega arith)

-- 3 rows of 19 columns: two groups and a tail of 3
abbrev ones : ℕ → ℕ
ones i = 0x3f800000

pack_vector-pack_scalar_example :
    pack_vector 3 19 ones 20 72 surface 50 ≡ pack_scalar 3 19 ones 20 72 surface 50
pack_vector-pack_scalar_example =
    pack_vector-pack_scalar 3 19 ones 20 72 surface 50 (λ i. omega arith)

pack_pieces-pack_scalar_example :
    pack_pieces 3 19 ones 20 72 1 true surface 30 ≡ pack_scalar 3 19 ones 20 72 surface 30
pack_pieces-pack_scalar_example =
    pack_pieces-pack_scalar 3 19 ones 20 72 1 true surface 30 (λ i. omega arith) (omega arith)
      (omega arith)
