-- ===== src/Half/Lanes.antt =====
-- The vector form of the conversion in include/charsiu.h beside the scalar one.
use charsiu.Prelude.{arith, ℕ, ◌<◌, ◌^◌, ◌≡◌}
use charsiu.Half.{f2h, f2h_lane}

-- A lane of charsiu_f2h_x4 gives what charsiu_f2h gives, for every pattern of 32 bits: subnormal and zero,
-- infinite and not a number too.
pub f2h_lane-f2h : (u : ℕ) → u < 2 ^ 32 → f2h_lane u ≡ f2h u
unfolding f2h f2h_lane
f2h_lane-f2h u h = ground arith
