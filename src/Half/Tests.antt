-- ===== src/Half/Tests.antt =====
-- Conversions of single numbers.
use charsiu.Prelude.{[], arith, if◌then◌else◌, map, refl, ◌%◌, ◌*◌, ◌+◌, ◌/◌, ◌==◌, ◌^◌, ◌∷◌, ◌≡◌}
use charsiu.Half.{f2h, f2h_lane, normalise, half_to_float, gguf_half_to_float}
use charsiu.Half.Lanes.{f2h_lane-f2h}
use charsiu.Half.Widened.{f2h-half_to_float}
use charsiu.Half.Copies.{gguf_half_to_float-half_to_float}

-- 1.0, the least half and -2.0
known_floats :
    map half_to_float (0x3c00 ∷ 0x0001 ∷ 0xc000 ∷ []) ≡ 0x3f800000 ∷ 0x33800000 ∷ 0xc0000000 ∷ []
unfolding half_to_float normalise
known_floats = refl

f2h_lane-f2h_example : f2h_lane 0xc0490fdb ≡ f2h 0xc0490fdb
f2h_lane-f2h_example = f2h_lane-f2h 0xc0490fdb (omega arith)

f2h-half_to_float_example : f2h (half_to_float 0x8123) ≡ (
    if 0x8123 / 2 ^ 10 % 2 ^ 5 == 0
    then 0x8123 / 2 ^ 15 * 2 ^ 15
    else if 0x8123 / 2 ^ 10 % 2 ^ 5 == 0x1f
    then 0x8123 / 2 ^ 15 * 2 ^ 15 + 0x7c00
    else 0x8123)
f2h-half_to_float_example = f2h-half_to_float 0x8123 (omega arith)

gguf_half_to_float-half_to_float_example : gguf_half_to_float 0x0123 ≡ half_to_float 0x0123
gguf_half_to_float-half_to_float_example = gguf_half_to_float-half_to_float 0x0123 (omega arith)
