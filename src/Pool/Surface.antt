-- ===== src/Pool/Surface.antt =====
-- The chunks that rows_fit of src/npupool.c allows, on the slices that src/kslice.h makes of a tensor.
use charsiu.Prelude.{
  Bool, arith, dec_lt, false, inl, inr, min, u32_mod, ℕ, ℕ_discrete, ◌*◌, ◌-◌, ◌<◌, ◌^◌, ◌≡◌, ◌≤◌,
}
use native.Mathlib.Nat.{div-mul-le_self, mul-le-mul, mul-le-mul_right}
use charsiu.KSlice.{slice_kw}
use charsiu.KSlice.Tiling.{slice_kw_cases}
use charsiu.KSlice.Even.{slice_kw-le-kmax}
use charsiu.Pool.{PoolEnvironment}
use charsiu.Pool.Rows.{rows_max, rows_fit}
use charsiu.Pool.Chunks.{le_trans, rows_fit-bounds, rows_fit-quotient}

-- an axis no wider than KMAX is one slice
one_slice : (k ks kmax : ℕ) → k ≤ kmax → 0 < ks → (ks - 1) * kmax < k → ks ≡ 1
one_slice k ks kmax a c d = elim (ℕ_discrete ks 1) [
  | yes e ↦ e
  | no e ↦ absurd (omega (arith, mul-le-mul_right {m = 1} {n = ks - 1} kmax (omega arith)))
]

module _ {k ks kmax : ℕ} (even : Bool) (hk : k < u32_mod) (hs : ks < u32_mod) (hm : kmax < u32_mod)
    (pos : 0 < kmax) (room : (ks - 1) * kmax < k) (enough : k ≤ ks * kmax) where
  slice_kw-le-k : (ki : ℕ) → ki < ks → k ≤ kmax → slice_kw k ks ki kmax even false ≤ k
  slice_kw-le-k ki h small =
      let one = one_slice k ks kmax small (omega arith) room in
      elim (slice_kw_cases even false hk hs hm pos room ki h) [
        | inl (last, e) ↦ omega arith
        | inr (more, e) ↦ omega arith
      ]

  -- Without CHARSIU_NPU_KFIT, of a tensor of 32 columns or more cut at a KMAX of 32 up to 2 ^ 17, no slice
  -- times the rows of a chunk takes more of the input surface than its 8192 entries of 32 columns, whether
  -- the slices are equal or not, and a chunk has a row at least and no more than CHARSIU_NPU_ROWS_MAX says.
  -- The slices are as many as KMAX asks for, and all counts have 32 bits.
  pub rows_fit-surface :
      (env : PoolEnvironment) (ki : ℕ)
      → ki < ks
      → 32 ≤ k
      → 32 ≤ kmax
      → kmax ≤ 2 ^ 17
      → (rows_fit env kmax k * slice_kw k ks ki kmax even false ≤ 8192 * 32)
        × (1 ≤ rows_fit env kmax k)
        × (rows_fit env kmax k ≤ rows_max env)
  rows_fit-surface env ki h lo wide hi =
      let (least, most) = rows_fit-bounds env kmax k in
      let narrow : slice_kw k ks ki kmax even false ≤ min k kmax = elim (dec_lt kmax k) [
        | yes wider ↦ omega (arith, slice_kw-le-kmax even false hk hs hm pos room enough ki h)
        | no fits ↦ omega (arith, slice_kw-le-k ki h (omega arith))
      ] in
      let quotient = rows_fit-quotient env kmax k (omega arith) (omega arith) in
      (
        le_trans _ _ _ (mul-le-mul quotient narrow) (div-mul-le_self (8192 * 32) (min k kmax)),
        least,
        most,
      )
