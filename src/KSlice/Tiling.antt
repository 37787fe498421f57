-- ===== src/KSlice/Tiling.antt =====
-- How the slices of src/kslice.h lie on the axis.
use native.Mathlib.Nat.{mul-le-mul_right}
use charsiu.Prelude.{
  Bool, List, [], arith, false, mul-lt-u64, suc, true, u32_mod, zero, ℕ, ◌*◌, ◌+◌, ◌-◌, ◌<◌, ◌∷◌,
  ◌≡◌, ◌≤◌, ◌⊎◌,
}
use charsiu.KSlice.{even_k_base, rounded_base, slice_step, slice_k0, slice_kw}

-- Regions given by start and width that lie side by side from `lo` to `hi`, none of them empty.
abbrev pub Tiles : ℕ → ℕ → List (ℕ × ℕ) → Type 0
Tiles lo hi [] = lo ≡ hi
Tiles lo hi ((start, width) ∷ rest) = (start ≡ lo) × (0 < width) × Tiles (lo + width) hi rest

module _ (k ks kmax : ℕ) (even kfit : Bool) where
  -- the loop of a caller: slices `ki`, `ki + 1`, …, `n` of them
  unfoldable pub slices_from : ℕ → ℕ → List (ℕ × ℕ)
  slices_from zero ki = []
  slices_from (suc n) ki =
      (slice_k0 k ks ki kmax even kfit, slice_kw k ks ki kmax even kfit) ∷ slices_from n (ki + 1)

  unfoldable pub slices : List (ℕ × ℕ)
  slices = slices_from ks 0

-- the even width is used only where it is positive, within KMAX and leaves the last slice some columns
pub even_k_base-cases :
    (k ks kmax : ℕ) (even kfit : Bool)
    → ks < u32_mod
    → kmax < u32_mod
    → let base = even_k_base k ks kmax even kfit in
      (base ≡ 0)
      ⊎ (even ≡ true)
        × (kfit ≡ false)
        × (2 ≤ ks)
        × (base ≡ rounded_base k ks)
        × (base ≤ kmax)
        × ((ks - 1) * base < k)
unfolding even_k_base
even_k_base-cases k ks kmax even kfit hs hm =
    ground (arith, mul-lt-u64 (ks - 1) (rounded_base k ks))

module _ {k ks kmax : ℕ} (even kfit : Bool) (hs : ks < u32_mod) (hm : kmax < u32_mod) where
  -- every slice but the last ends before the axis does, with the even step as with KMAX
  pub slice_step_fits :
      (ks - 1) * kmax < k
      → 0 < kmax
      → ((ks - 1) * slice_step k ks kmax even kfit < k)
        × (0 < slice_step k ks kmax even kfit)
        × (slice_step k ks kmax even kfit ≤ kmax)
  unfolding slice_step
  slice_step_fits room pos = ground (arith, even_k_base-cases k ks kmax even kfit hs hm)

module _ {k ks kmax : ℕ} (even kfit : Bool) (hk : k < u32_mod) (hs : ks < u32_mod)
    (hm : kmax < u32_mod) (pos : 0 < kmax) (room : (ks - 1) * kmax < k) where
  start_le : (ki : ℕ) → ki < ks → ki * slice_step k ks kmax even kfit < k
  start_le ki h = omega (
    arith,
    slice_step_fits even kfit hs hm room pos,
    mul-le-mul_right {m = ki} {n = ks - 1} (slice_step k ks kmax even kfit) (omega arith),
  )

  -- inside the axis nothing wraps: the start of a slice is its number times the step
  pub slice_k0-eq-mul :
      (ki : ℕ) → ki < ks → slice_k0 k ks ki kmax even kfit ≡ ki * slice_step k ks kmax even kfit
  unfolding slice_k0
  slice_k0-eq-mul ki h = omega (arith, start_le ki h)

  pub slice_kw_cases :
      (ki : ℕ)
      → ki < ks
      → (suc ki ≡ ks) × (slice_kw k ks ki kmax even kfit ≡ k - ki * slice_step k ks kmax even kfit)
        ⊎ (suc ki < ks) × (slice_kw k ks ki kmax even kfit ≡ slice_step k ks kmax even kfit)
  unfolding slice_kw
  slice_kw_cases ki h = ground (arith, start_le ki h)

  slices_from-Tiles :
      (n ki lo : ℕ)
      → ki + n ≡ ks
      → 0 < n
      → lo ≡ ki * slice_step k ks kmax even kfit
      → Tiles lo k (slices_from k ks kmax even kfit n ki)
  unfolding slices_from
  slices_from-Tiles zero ki lo e p q = absurd (omega arith)
  slices_from-Tiles (suc zero) ki lo e p q =
      ground (arith, slice_kw_cases ki, slice_k0-eq-mul ki, start_le ki)
  slices_from-Tiles (suc (suc n)) ki lo e p q = (
    omega (arith, slice_k0-eq-mul ki (omega arith)),
    ground (arith, slice_kw_cases ki, slice_step_fits even kfit hs hm room pos),
    slices_from-Tiles (suc n) (ki + 1) _ (omega arith) (omega arith)
        (ground (arith, slice_kw_cases ki)),
  )

  -- For an axis of `k` columns cut in `ks` slices, with a KMAX from 1 on at which all slices but the last are
  -- full and at least one slice, and `k`, `ks` and KMAX below 2 ^ 32, the slices lie side by side from column 0 to column `k` and none is empty: with equal
  -- slices on or off, and with KFIT on or off.
  pub slices-Tiles : 0 < ks → Tiles 0 k (slices k ks kmax even kfit)
  unfolding slices
  slices-Tiles some_slice = slices_from-Tiles ks 0 0 (omega arith) some_slice (omega arith)
