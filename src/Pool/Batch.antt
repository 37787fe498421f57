-- ===== src/Pool/Batch.antt =====
-- How the batched calls of src/npupool.c cover their rows: what each call of the device is given, and where
-- its answer goes, for any device.
use charsiu.Prelude.{
  Bool, List, Option, [], drop, length, map, none, some, take, u64, ℕ, ◌*◌, ◌+◌, ◌∷◌, ◌≡◌, ◌≢◌, ◌≤◌,
  ◌⊎◌,
}
use charsiu.Pool.{Device, Pool}
use charsiu.Pool.Rows.{Block, Target, put_first}

module _ {D S R O : Type 0} (ops : Device D S R O) (chunk : ℕ) where
  -- the device's answer for these rows
  abbrev pub IsAnswer : ℕ → List R → O → Type 0
  IsAnswer id x answer = (d : D) × (same : Bool) × ((ops.matmul d id same x).1 ≡ some answer)

  -- the call for rows that the device has refused
  abbrev pub HasRefused : List R → Type 0
  HasRefused x = (d : D) × (id : ℕ) × (same : Bool) × ((ops.matmul d id same x).1 ≡ none)

  -- the block of one chunk of `c` rows, the first of `x`
  unfoldable pub IsBlock : ℕ → List R → ℕ → Target → Block O → Type 0
  IsBlock done x c t b =
      (b.at ≡ u64 (done * t.stride)) × (b.rows ≡ c) × IsAnswer t.id (take c x) b.answer

  -- one block for each target
  unfoldable pub AreBlocks : ℕ → List R → ℕ → List Target → List (Block O) → Type 0
  unfolding IsBlock
  AreBlocks done x c [] [] = Unit
  AreBlocks done x c [] (b ∷ bs) = ⊥
  AreBlocks done x c (t ∷ ts) [] = ⊥
  AreBlocks done x c (t ∷ ts) (b ∷ bs) = IsBlock done x c t b × AreBlocks done x c ts bs

  -- the blocks of all the targets, chunk by chunk, cover the rows `x`, of which `done` are done
  pub data Covers (ts : List Target) : ℕ → List R → List (List (Block O)) → Type 0 where
    no_rows : (done : ℕ) → Covers ts done [] (map (λ (t : Target). []) ts)
    chunk_of :
        (done : ℕ) (x : List R) (c : ℕ) (news : List (Block O)) (rest : List (List (Block O)))
        → 1 ≤ c
        → c ≤ chunk
        → c ≤ length x
        → (3 ≤ chunk → length x ≢ 1 → 2 ≤ c)
        → AreBlocks done x c ts news
        → Covers ts (done + c) (drop c x) rest
        → Covers ts done x (put_first news rest)

-- How a batched call for the targets `ts` on the device `d` ends, from the pool `q` on: with blocks that cover
-- the rows, and the call counted as done on the hardware; or with -1, since the device refused some rows, and
-- the call counted as fallen back.
unfoldable pub IsOutcome :
    {D S R O : Type 0}
    → Device D S R O
    → ℕ
    → List Target
    → List R
    → Pool D S
    → Pool D S × Option (List (List (Block O)))
    → Type 0
IsOutcome {R = R} {O = O} ops chunk ts x q r =
    ((ys : List (List (Block O))) × (r.1 ≡ some ys)
      × Covers ops chunk ts 0 x ys
      × (r.0.hw ≡ u64 (q.hw + length ts))
      × (r.0.fell_back ≡ q.fell_back))
    ⊎ ((r.1 ≡ none)
        × ((some_rows : List R) × HasRefused ops chunk some_rows)
        × (r.0.hw ≡ q.hw)
        × (r.0.fell_back ≡ u64 (q.fell_back + length ts)))
