-- ===== src/Pool/Chunks.antt =====
-- How rows_fit and rows_next of src/npupool.c bound the chunks of a batch.
use charsiu.Prelude.{
  Option-cases, arith, if◌then◌else◌, inl, inr, ltb, min, ℕ, ◌*◌, ◌-◌, ◌/◌, ◌<◌, ◌^◌, ◌≡◌, ◌≢◌, ◌≤◌,
}
use native.Mathlib.Nat.{le-div_iff_mul-le, div-lt_iff_lt-mul}
use charsiu.Pool.{PoolEnvironment}
use charsiu.Pool.Rows.{rows_max, rows_fit, rows_next}

rows_max-positive : (env : PoolEnvironment) → 1 ≤ rows_max env
unfolding rows_max
rows_max-positive env = elim (Option-cases env.rows_max) [
  | inl n ↦ rw n (omega arith)
  | inr (v, e) ↦ rw e (ground arith)
]

pub le_trans : (a b c : ℕ) → a ≤ b → b ≤ c → a ≤ c
le_trans a b c p q = omega arith

pub rows_fit-bounds :
    (env : PoolEnvironment) (slice k : ℕ)
    → (1 ≤ rows_fit env slice k) × (rows_fit env slice k ≤ rows_max env)
unfolding rows_fit
rows_fit-bounds env slice k = let cap = rows_max-positive env in (ground arith, ground arith)

pub rows_fit-quotient :
    (env : PoolEnvironment) (slice k : ℕ)
    → 32 ≤ min k slice
    → min k slice ≤ 2 ^ 17
    → rows_fit env slice k ≤ 8192 * 32 / min k slice
unfolding rows_fit
rows_fit-quotient env slice k lo hi =
    let dispatch : (if ltb k slice then k else slice) ≡ min k slice = ground arith in
    let pos : 0 < min k slice = omega arith in
    let two : 2 ≤ 8192 * 32 / min k slice = (le-div_iff_mul-le pos).1 (omega arith) in
    let low : 8192 * 32 / min k slice < 2 ^ 32 = (div-lt_iff_lt-mul pos).1 (omega arith) in
    rw dispatch (ground arith)

pub rows_next-bounds :
    (rem chunk : ℕ)
    → 1 ≤ rem
    → 1 ≤ chunk
    → (1 ≤ rows_next rem chunk) × (rows_next rem chunk ≤ chunk) × (rows_next rem chunk ≤ rem)
unfolding rows_next
rows_next-bounds rem chunk r c = ground arith

pub rows_next-two :
    (rem chunk : ℕ)
    → 2 ≤ rem
    → 3 ≤ chunk
    → (2 ≤ rows_next rem chunk) × (rem - rows_next rem chunk ≢ 1)
unfolding rows_next
rows_next-two rem chunk r c = ground arith
