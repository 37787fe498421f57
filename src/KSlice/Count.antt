-- ===== src/KSlice/Count.antt =====
-- The number of slices that src/npudev.c asks of src/kslice.h.
use charsiu.Prelude.{Bool, ap, arith, u32, u32_mod, u64, ℕ, ◌*◌, ◌+◌, ◌-◌, ◌/◌, ◌<◌, ◌≡◌, ◌≤◌}
use native.Mathlib.Nat.{
  div-add-mod, mod-lt, mul_comm, mul-le-mul_right, le-div_iff_mul-le, le-mul_of_pos_right,
}
use charsiu.KSlice.{slice_count}
use charsiu.KSlice.Tiling.{Tiles, slices, slices-Tiles}

-- division rounding up
div_up_bounds :
    (k width : ℕ)
    → 0 < k
    → 0 < width
    → let q = (k + width - 1) / width in (0 < q) × (q ≤ k) × ((q - 1) * width < k)
div_up_bounds k width hk hw =
    let q = (k + width - 1) / width in
    let split = div-add-mod (k + width - 1) width in
    let rest = mod-lt (k + width - 1) hw in
    let pos : 0 < q = (le-div_iff_mul-le {x = 1} hw).1 (omega arith) in
    let one_less : q ≡ q - 1 + 1 = omega arith in
    let room : (q - 1) * width < k =
      omega (arith, split, rest, pos, mul_comm width q, ap (λ (t : ℕ). t * width) one_less) in
    (pos, omega (arith, room, le-mul_of_pos_right (q - 1) hw), room)

-- at least one slice, and all but the last are full
slice_count_fits :
    (k width kmax : ℕ) (kfit grouped : Bool)
    → 0 < k
    → k < u32_mod
    → 0 < width
    → width < u32_mod
    → let ks = slice_count k width kmax kfit grouped in
      (0 < ks) × (ks < u32_mod) × ((ks - 1) * width < k)
unfolding slice_count
slice_count_fits k width kmax kfit grouped hk small hw wide =
    let (some_slice, few, room) = div_up_bounds k width hk hw in
    let wide_sum : u64 (k + width - 1) ≡ k + width - 1 = omega arith in
    let exact : u32 ((k + width - 1) / width) ≡ (k + width - 1) / width = omega arith in
    rw (wide_sum, exact)
      (ground (
        arith,
        mul-le-mul_right {m = (k + width - 1) / width - 2} {n = (k + width - 1) / width - 1} width,
      ))

-- The slices that charsiu_npu_add makes of a tensor lie side by side over its whole axis and none is
-- empty, for every axis and slice width from 1 up to 32 bits, with or without equal slices and KFIT.
pub slice_count-Tiles :
    (k width kmax : ℕ) (even kfit grouped : Bool)
    → 0 < k
    → k < u32_mod
    → 0 < width
    → width < u32_mod
    → Tiles 0 k (slices k (slice_count k width kmax kfit grouped) width even kfit)
slice_count-Tiles k width kmax even kfit grouped hk small hw wide =
    let (some_slice, hs, room) = slice_count_fits k width kmax kfit grouped hk small hw wide in
    slices-Tiles even kfit small hs wide hw room some_slice
