-- ===== src/KSlice.antt =====
-- src/kslice.h: how the contraction axis of one tensor is cut into slices.
-- `k` is a uint64_t, the counts and widths are `unsigned`, and the flags are booleans.
pub mod Tiling
pub mod Even
pub mod Count
mod Tests
use charsiu.Prelude.{
  Bool, if◌then◌else◌, leb, ltb, not, sub64, u32, u64, ℕ, ◌%◌, ◌&&◌, ◌*◌, ◌+◌, ◌-◌, ◌/◌, ◌==◌, ◌||◌,
}

-- the int4 feature atom
abbrev pub atom : ℕ
atom = 32

-- K over `ks` rounded up to the atom
pub rounded_base : ℕ → ℕ → ℕ
rounded_base k ks = u64 (u64 (k + ks - 1) / ks + (atom - 1)) / atom * atom

-- 0 asks the callers below for the KMAX rule
pub even_k_base : ℕ → ℕ → ℕ → Bool → Bool → ℕ
even_k_base k ks kmax even kfit =
    if not even || kfit || ltb ks 2 || kmax == 0
    then 0
    else let base = rounded_base k ks in
      if ltb kmax base || leb k (u64 ((ks - 1) * base)) then 0 else u32 base

-- `base ? base : kmax`
pub slice_step : ℕ → ℕ → ℕ → Bool → Bool → ℕ
slice_step k ks kmax even kfit =
    let base = even_k_base k ks kmax even kfit in if base == 0 then kmax else base

-- the first column of slice `ki`
pub slice_k0 : ℕ → ℕ → ℕ → ℕ → Bool → Bool → ℕ
slice_k0 k ks ki kmax even kfit = u32 (u64 (ki * slice_step k ks kmax even kfit))

-- the width of slice `ki`
pub slice_kw : ℕ → ℕ → ℕ → ℕ → Bool → Bool → ℕ
slice_kw k ks ki kmax even kfit =
    let step = slice_step k ks kmax even kfit in
    if u32 (ki + 1) == ks then u32 (sub64 k (u64 (ki * step))) else step

-- `ks` of charsiu_npu_add in src/npudev.c: as many slices as `width` (its eff_kmax) asks for; under
-- KFIT a tensor with no groups of its own whose axis KMAX does not divide gets one slice less
pub slice_count : ℕ → ℕ → ℕ → Bool → Bool → ℕ
slice_count k width kmax kfit grouped =
    let ks = u32 (u64 (k + width - 1) / width) in
    if kfit && (ltb 1 ks && (not (k % kmax == 0) && not grouped)) then ks - 1 else ks
