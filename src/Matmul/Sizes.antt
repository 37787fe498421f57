-- ===== src/Matmul/Sizes.antt =====
-- The sizes that src/regcmd.c computes, against what they have to hold.
use native.Mathlib.Nat.{mul-le-mul}
use charsiu.Prelude.{
  Option-cases, arith, inl, inr, some, u64, ℕ, ◌%◌, ◌*◌, ◌+◌, ◌<◌, ◌^◌, ◌≡◌, ◌≤◌, ◌⊎◌,
}
use charsiu.Matmul.{
  Dtype, int4, int8, fp16, Environment, Matmul, feature_atom, k_padded, effective_adtype,
  entry_atomics, entries_per_row, entries_of, k_eff, weight_bytes_of, weight_bytes, coef_bytes,
  coef_elems_of, n_pad, div_round_up,
}

-- a shape whose axes are below 2 ^ 20, for which no size wraps
pub record IsModest (mm : Matmul) : Type 0 where
  pub m_small : mm.m ≤ 2 ^ 20
  pub k_small : mm.k ≤ 2 ^ 20
  pub n_small : mm.n ≤ 2 ^ 20

atom_bounds : (adt : Dtype) → (0 < feature_atom adt) × (feature_atom adt ≤ 32)
atom_bounds int4 = omega arith
atom_bounds int8 = omega arith
atom_bounds fp16 = omega arith

-- `e` entries of `width` elements are the least number that holds `k`
abbrev IsLeast : ℕ → ℕ → ℕ → Type 0
IsLeast k e width = (k ≤ e * width) × (e * width < k + width)

entries_of_four :
    (k : ℕ) (adt : Dtype)
    → k ≤ 2 ^ 20
    → IsLeast k (entries_of (div_round_up k (feature_atom adt)) 4) (4 * feature_atom adt)
unfolding entries_of
entries_of_four k int4 h = ground arith
entries_of_four k int8 h = ground arith
entries_of_four k fp16 h = ground arith

entries_of_eight :
    (k : ℕ) (adt : Dtype)
    → k ≤ 2 ^ 20
    → IsLeast k (entries_of (div_round_up k (feature_atom adt)) 8) (8 * feature_atom adt)
unfolding entries_of
entries_of_eight k int4 h = ground arith
entries_of_eight k int8 h = ground arith
entries_of_eight k fp16 h = ground arith

entry_atomics-cases : (env : Environment) → (entry_atomics env ≡ 4) ⊎ (entry_atomics env ≡ 8)
unfolding entry_atomics
entry_atomics-cases env = ground arith

-- One row of the input surface has the least number of CBUF entries, of 4 or 8 atoms each, that hold
-- all the atoms of the K axis, for an axis of up to 2 ^ 20.
pub entries_per_row_least :
    (env : Environment) (mm : Matmul)
    → mm.k ≤ 2 ^ 20
    → let entry = entry_atomics env * feature_atom (effective_adtype env mm) in
      (mm.k ≤ entries_per_row env mm * entry) × (entries_per_row env mm * entry < mm.k + entry)
unfolding entries_per_row
entries_per_row_least env mm h = elim (entry_atomics-cases env) [
  | inl four ↦ rw four (entries_of_four mm.k (effective_adtype env mm) h)
  | inr eight ↦ rw eight (entries_of_eight mm.k (effective_adtype env mm) h)
]

-- The K that the hardware reads is the least multiple of the feature atom that holds the
-- axis, for an axis of up to 2 ^ 20.
pub k_padded_least :
    (k : ℕ) (adt : Dtype)
    → k ≤ 2 ^ 20
    → (k ≤ k_padded k adt)
      × (k_padded k adt < k + feature_atom adt)
      × (k_padded k adt % feature_atom adt ≡ 0)
unfolding k_padded
k_padded_least k int4 h = omega arith
k_padded_least k int8 h = omega arith
k_padded_least k fp16 h = omega arith

pub k_eff_bounds :
    (env : Environment) (mm : Matmul)
    → mm.k ≤ 2 ^ 20
    → (mm.k ≤ k_eff env mm) × (k_eff env mm < mm.k + 32)
unfolding k_eff
k_eff_bounds env mm h =
    ground (
      arith,
      k_padded_least mm.k (effective_adtype env mm) h,
      atom_bounds (effective_adtype env mm),
    )

weight_bytes_of_mono :
    (d : Dtype) (a b : ℕ) → a ≤ b → b ≤ 2 ^ 42 → weight_bytes_of d a ≤ weight_bytes_of d b
unfolding weight_bytes_of
weight_bytes_of_mono int4 a b h small = omega arith
weight_bytes_of_mono int8 a b h small = omega arith
weight_bytes_of_mono fp16 a b h small = omega arith

-- the padded elements are at least the plain ones, and no product wraps
padded_elems_bounds :
    (env : Environment) (mm : Matmul)
    → IsModest mm
    → (mm.k * mm.n ≤ u64 (k_eff env mm * n_pad mm)) × (u64 (k_eff env mm * n_pad mm) ≤ 2 ^ 42)
padded_elems_bounds env mm v =
    let (lo, hi) = k_eff_bounds env mm v.k_small in
    omega (
      arith,
      mul-le-mul {n₁ = mm.k} {m₁ = mm.n} {n₂ = k_eff env mm} {m₂ = n_pad mm} lo (omega arith),
      mul-le-mul {n₁ = k_eff env mm} {m₁ = n_pad mm} {n₂ = 2 ^ 21} {m₂ = 2 ^ 21} (omega arith)
          (omega arith),
    )

-- The weight buffer holds every weight of the tensor at its width (half a byte, one or two), for axes
-- of up to 2 ^ 20.
pub weight_bytes_enough :
    (env : Environment) (mm : Matmul)
    → IsModest mm
    → weight_bytes_of mm.wdtype (mm.k * mm.n) ≤ weight_bytes env mm
unfolding weight_bytes
weight_bytes_enough env mm v =
    let (lo, hi) = padded_elems_bounds env mm v in weight_bytes_of_mono mm.wdtype _ _ lo hi

weight_bytes_of-le : (d : Dtype) (a : ℕ) → a ≤ 2 ^ 42 → weight_bytes_of d a ≤ 2 ^ 43
unfolding weight_bytes_of
weight_bytes_of-le int4 a h = omega arith
weight_bytes_of-le int8 a h = omega arith
weight_bytes_of-le fp16 a h = omega arith

pub weight_bytes-le : (env : Environment) (mm : Matmul) → IsModest mm → weight_bytes env mm ≤ 2 ^ 43
unfolding weight_bytes
weight_bytes-le env mm v = weight_bytes_of-le mm.wdtype _ (padded_elems_bounds env mm v).1

pub entries_per_row-le :
    (env : Environment) (mm : Matmul) → mm.k ≤ 2 ^ 20 → entries_per_row env mm ≤ 2 ^ 20 + 2 ^ 8
entries_per_row-le env mm h = grind (
  arith,
  entries_per_row_least env mm h,
  entry_atomics-cases env,
  atom_bounds (effective_adtype env mm),
)

coef_elems_of-le :
    (env : Environment) (mm : Matmul)
    → IsModest mm
    → ((want : ℕ) → env.coef_elems ≡ some want → want ≤ 2 ^ 40)
    → coef_elems_of env mm ≤ 2 ^ 40
unfolding coef_elems_of
coef_elems_of-le env mm v asked = elim (Option-cases env.coef_elems) [
  | inl e ↦ rw e (omega arith)
  | inr (want, e) ↦ rw e (
      ground (
        arith,
        asked want e,
        mul-le-mul {n₁ = mm.k} {m₁ = mm.n} {n₂ = 2 ^ 20} {m₂ = 2 ^ 20} v.k_small v.n_small,
      ))
]

-- at most 2 ^ 40 elements are asked for
pub coef_bytes-le :
    (env : Environment) (mm : Matmul)
    → IsModest mm
    → ((want : ℕ) → env.coef_elems ≡ some want → want ≤ 2 ^ 40)
    → coef_bytes env mm ≤ 2 ^ 43
unfolding coef_bytes
coef_bytes-le env mm v asked = ground (arith, coef_elems_of-le env mm v asked)
