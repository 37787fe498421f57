-- ===== src/KSlice/Even.antt =====
-- How wide the slices of src/kslice.h are.
use charsiu.Prelude.{
  Bool, ap, arith, inl, inr, suc, u32_mod, u64, u64_fits, ℕ, ◌%◌, ◌*◌, ◌+◌, ◌-◌, ◌/◌, ◌<◌, ◌≡◌, ◌≢◌,
  ◌≤◌,
}
use charsiu.KSlice.{atom, even_k_base, rounded_base, slice_step, slice_kw}
use charsiu.KSlice.Tiling.{even_k_base-cases, slice_kw_cases, slice_step_fits}
use native.Mathlib.Nat.{div-add-mod, mul_comm, mul-le-mul_left, div-le_self}

-- nothing wraps
rounded_base_exact :
    (k ks : ℕ)
    → k < u32_mod
    → 0 < ks
    → ks < u32_mod
    → rounded_base k ks ≡ ((k + ks - 1) / ks + 31) / 32 * 32
unfolding rounded_base
rounded_base_exact k ks hk p hs =
    let q = (k + ks - 1) / ks in
    let small : q ≤ k + ks - 1 = omega (arith, div-le_self (k + ks - 1) ks) in
    let e : u64 (k + ks - 1) ≡ k + ks - 1 = u64_fits (omega arith) in
    rw e (rw (u64_fits {x = q + 31} (omega arith)))

-- rounding up to the atom never takes less than the exact share
rounded_base_bounds :
    (k ks : ℕ)
    → k < u32_mod
    → 0 < ks
    → ks < u32_mod
    → (k ≤ ks * rounded_base k ks) × (rounded_base k ks % atom ≡ 0)
unfolding rounded_base
rounded_base_bounds k ks hk p hs =
    let q = (k + ks - 1) / ks in
    let share : k ≤ ks * q = omega (arith, div-add-mod (k + ks - 1) ks, mul_comm ks q) in
    let base = (q + 31) / 32 * 32 in
    let exact : rounded_base k ks ≡ base = rounded_base_exact k ks hk p hs in
    (
      rw exact (omega (arith, share, mul-le-mul_left {m = q} {n = base} ks (omega arith))),
      rw exact (omega arith),
    )

module _ {k ks kmax : ℕ} (even kfit : Bool) (hk : k < u32_mod) (hs : ks < u32_mod)
    (hm : kmax < u32_mod) (pos : 0 < kmax) (room : (ks - 1) * kmax < k) where
  -- what is left for the last slice is no more than one step
  last_share : k ≤ ks * kmax → k ≤ ks * slice_step k ks kmax even kfit
  unfolding slice_step
  last_share enough =
      ground (arith, even_k_base-cases k ks kmax even kfit hs hm, rounded_base_bounds k ks hk)

  slice_kw-le-step :
      (ki : ℕ)
      → ki < ks
      → k ≤ ks * slice_step k ks kmax even kfit
      → slice_kw k ks ki kmax even kfit ≤ slice_step k ks kmax even kfit
  slice_kw-le-step ki h share = elim (slice_kw_cases even kfit hk hs hm pos room ki h) [
    | inl (last, e) ↦ omega (arith, ap (λ (t : ℕ). t * slice_step k ks kmax even kfit) last)
    | inr (_, e) ↦ omega arith
  ]

  -- With as many slices as KMAX asks for and at least one, no slice is wider than KMAX, whether the slices are
  -- equal or not. (Under KFIT there are fewer slices, and the last may be wider.)
  pub slice_kw-le-kmax : k ≤ ks * kmax → (ki : ℕ) → ki < ks → slice_kw k ks ki kmax even kfit ≤ kmax
  slice_kw-le-kmax enough ki h =
      omega
        (arith, slice_kw-le-step ki h (last_share enough), slice_step_fits even kfit hs hm room pos)

  step-eq-base :
      even_k_base k ks kmax even kfit ≢ 0
      → slice_step k ks kmax even kfit ≡ even_k_base k ks kmax even kfit
  unfolding slice_step
  step-eq-base on = ground arith

  -- Where the slices are equal, each one but the last has the even width, a multiple of the atom, and
  -- the last is no wider.
  pub slice_kw_even :
      even_k_base k ks kmax even kfit ≢ 0
      → (ki : ℕ) → ki < ks
      → let base = even_k_base k ks kmax even kfit in
        (base % atom ≡ 0)
        × (suc ki < ks → slice_kw k ks ki kmax even kfit ≡ base)
        × (slice_kw k ks ki kmax even kfit ≤ base)
  slice_kw_even on ki h =
      let base = even_k_base k ks kmax even kfit in
      let step : slice_step k ks kmax even kfit ≡ base = step-eq-base on in
      elim (even_k_base-cases k ks kmax even kfit hs hm) [
        | inl zero_base ↦ absurd (on zero_base)
        | inr (_, _, two, e, _, _) ↦
            let (enough, aligned) = rounded_base_bounds k ks hk (omega arith) hs in
            (
              rw e aligned,
              (λ more. ground (arith, slice_kw_cases even kfit hk hs hm pos room ki h, step)),
              omega (arith, slice_kw-le-step ki h (rw (step, e) enough), step),
            )
      ]
