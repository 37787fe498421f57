-- ===== src/Pool/Row.antt =====
-- charsiu_pool_rows of src/npupool.c, which is written beside charsiu_pool_rowsn with a search, a stride and
-- a loop of its own.
use charsiu.Prelude.{
  List, Option, [], drop, false, if◌then◌else◌, length, none, some, suc, take, u64, zero, ℕ, ◌+◌,
  ◌-◌, ◌==◌, ◌∷◌,
}
use charsiu.Pool.{and_then, is_open, Weight, Device, PoolEnvironment, Slot, Pool, pool_get}
use charsiu.Pool.Rows.{Block, block, rows_fit, rows_next}

-- the search: the id of the first slot of the key, where it has one
unfoldable pub search_id : {S : Type 0} → List (Slot S) → ℕ → Option ℕ
search_id [] key = none
search_id (s ∷ slots) key = if s.key == key then s.id else search_id slots key

-- the loop
unfoldable pub row_chunks :
    {D S R O : Type 0}
    → Device D S R O
    → ℕ
    → ℕ
    → D
    → ℕ
    → ℕ
    → ℕ
    → List R
    → D × Option (List (Block O))
unfolding rows_next
row_chunks ops zero chunk d done id n x = (d, none)
row_chunks ops (suc fuel) chunk d done id n x =
    if length x == 0
    then (d, some [])
    else (let c = rows_next (length x) chunk in
        let (e, out) = ops.matmul d id false (take c x) in
        elim out [
          | none ↦ (e, none)
          | some answer ↦
              let (f, more) = row_chunks ops fuel chunk e (done + c) id n (drop c x) in
              elim more [
                | none ↦ (f, none)
                | some rest ↦ (f, some (block done (length (take c x)) n answer ∷ rest))
              ]
        ])

unfoldable pub run_row :
    {D S R O : Type 0}
    → Device D S R O
    → PoolEnvironment
    → Pool D S
    → D
    → Weight
    → ℕ
    → List R
    → Pool D S × Option (List (Block O))
unfolding rows_fit row_chunks
run_row ops env p d w id x =
    let n = if w.n_dims == 0 then 1 else w.ne (w.n_dims - 1) in
    let (e, y) = row_chunks ops (suc (length x)) (rows_fit env (ops.kmax d) (w.ne 0)) d 0 id n x in
    elim y [
      | none ↦ (record p { dev = some e; fell_back = u64 (p.fell_back + 1) }, none)
      | some out ↦ (
        record p { dev = some e; hw = u64 (p.hw + 1); rows_hw = u64 (p.rows_hw + length x) },
        some out,
      )
    ]

-- charsiu_pool_rows behind charsiu_pool_get
unfoldable pub rows_of :
    {D S R O : Type 0}
    → Device D S R O
    → PoolEnvironment
    → Weight
    → List R
    → Pool D S
    → ℕ
    → Pool D S × Option (List (Block O))
unfolding search_id run_row
rows_of ops env w x p got = elim (search_id p.slots w.address) [
  | none ↦ (p, none)
  | some id ↦ elim p.dev [ none ↦ (p, none) | some d ↦ run_row ops env p d w id x ]
]

-- charsiu_pool_rows
unfoldable pub pool_rows :
    {D S R O : Type 0}
    → Device D S R O
    → PoolEnvironment
    → Pool D S
    → Weight
    → List R
    → Pool D S × Option (List (Block O))
unfolding pool_get rows_of
pool_rows ops env p w x =
    let counted = record p { calls = u64 (p.calls + 1) } in
    if is_open p.dev
    then and_then (pool_get ops env counted w) (rows_of ops env w x)
    else (counted, none)
