-- ===== src/Pool/Rows.antt =====
-- The batched calls of src/npupool.c: the rows of one call go to the device in chunks.
use charsiu.Prelude.{
  Bool, List, Option, [], drop, false, if◌then◌else◌, leb, length, ltb, map, none, some, suc, take,
  true, u32, u64, zero, ℕ, ◌&&◌, ◌*◌, ◌+◌, ◌-◌, ◌/◌, ◌==◌, ◌∷◌,
}
use charsiu.Pool.{and_then, Weight, Device, PoolEnvironment, Pool, pool_id}

-- rows_max
unfoldable pub rows_max : PoolEnvironment → ℕ
rows_max env = elim (env.rows_max) [ none ↦ 80 | some v ↦ if ltb 0 v then v else 80 ]

-- rows_fit, with the kmax of the device
unfoldable pub rows_fit : PoolEnvironment → ℕ → ℕ → ℕ
unfolding rows_max
rows_fit env slice k =
    let cap = rows_max env in
    let ks = if ltb k slice then k else slice in
    let surface = if leb 32 ks then u32 (8192 * 32 / ks) else cap in
    let by_surface = if ltb surface 2 then 2 else surface in
    if ltb by_surface cap then by_surface else cap

-- rows_next
unfoldable pub rows_next : ℕ → ℕ → ℕ
rows_next rem chunk =
    let c = if ltb rem chunk then rem else chunk in if rem - c == 1 && ltb 2 c then c - 1 else c

-- where one weight of a call is on the device, and how far apart its rows are in the output: `ns[i]`
pub record Target : Type 0 where
  pub id : ℕ
  pub stride : ℕ

-- `n_dims ? ne[n_dims - 1] : 1`
unfoldable pub row_stride : Weight → ℕ
row_stride w = if w.n_dims == 0 then 1 else w.ne (w.n_dims - 1)

-- What one call of the device is asked to write: `rows` rows, from place `at` of the weight's output on.
-- `answer` is what the call gives.
pub record Block (O : Type 0) : Type 0 where
  pub at : ℕ
  pub rows : ℕ
  pub answer : O

abbrev pub block : {O : Type 0} → ℕ → ℕ → ℕ → O → Block O
block done rows stride answer = record { at = u64 (done * stride); rows = rows; answer = answer }

-- one chunk: the first weight packs the rows, the others are told that they are the same
unfoldable pub rows_weights :
    {D S R O : Type 0}
    → Device D S R O
    → D
    → Bool
    → ℕ
    → List Target
    → List R
    → D × Option (List (Block O))
rows_weights ops d same done [] x = (d, some [])
rows_weights ops d same done (t ∷ ts) x =
    let (e, y) = ops.matmul d t.id same x in
    elim y [
      | none ↦ (e, none)
      | some out ↦
          let (f, more) = rows_weights ops e true done ts x in
          elim more [
            | none ↦ (f, none)
            | some outs ↦ (f, some (block done (length x) t.stride out ∷ outs))
          ]
    ]

-- each weight's block before those of the later chunks
unfoldable pub put_first :
    {O : Type 0} → List (Block O) → List (List (Block O)) → List (List (Block O))
put_first [] rest = []
put_first (b ∷ bs) [] = []
put_first (b ∷ bs) (r ∷ rest) = (b ∷ r) ∷ put_first bs rest

-- the loop over the chunks: `x` holds the rows that are left, and `done` says how many are not; each turn
-- takes one row at least. What was written before a call that fails is left out, as the result says no more.
unfoldable pub rows_chunks :
    {D S R O : Type 0}
    → Device D S R O
    → ℕ
    → ℕ
    → D
    → ℕ
    → List Target
    → List R
    → D × Option (List (List (Block O)))
unfolding rows_next rows_weights put_first
rows_chunks ops zero chunk d done ts x = (d, none)
rows_chunks ops (suc fuel) chunk d done ts x =
    if length x == 0
    then (d, some (map (λ (t : Target). []) ts))
    else (let c = rows_next (length x) chunk in
        let (e, outs) = rows_weights ops d false done ts (take c x) in
        elim outs [
          | none ↦ (e, none)
          | some news ↦
              let (f, more) = rows_chunks ops fuel chunk e (done + c) ts (drop c x) in
              elim more [ none ↦ (f, none) | some rest ↦ (f, some (put_first news rest)) ]
        ])

-- the ids of the weights, in their order; a weight that is not on the device stops the call
unfoldable pub pool_ids :
    {D S R O : Type 0}
    → Device D S R O
    → PoolEnvironment
    → Pool D S
    → List Weight
    → Pool D S × Option (List ℕ)
unfolding pool_id
pool_ids ops env p [] = (p, some [])
pool_ids ops env p (w ∷ ws) =
    and_then (pool_id ops env p w)
      (λ q id. and_then (pool_ids ops env q ws) (λ r ids. (r, some (id ∷ ids))))

-- have all the weights the same number of columns?
unfoldable pub same_k : ℕ → List Weight → Bool
same_k k [] = true
same_k k (w ∷ ws) = w.ne 0 == k && same_k k ws

-- each id with its weight's stride
unfoldable pub targets : List Weight → List ℕ → List Target
unfolding row_stride
targets [] ids = []
targets (w ∷ ws) [] = []
targets (w ∷ ws) (id ∷ ids) = record { id = id; stride = row_stride w } ∷ targets ws ids

-- from t0 on: the loop, and what it leaves in the counters
unfoldable pub run_on :
    {D S R O : Type 0}
    → Device D S R O
    → PoolEnvironment
    → Pool D S
    → D
    → ℕ
    → List Target
    → List R
    → Pool D S × Option (List (List (Block O)))
unfolding rows_fit rows_chunks
run_on ops env p d k ts x =
    let (e, ys) = rows_chunks ops (suc (length x)) (rows_fit env (ops.kmax d) k) d 0 ts x in
    elim ys [
      | none ↦ (record p { dev = some e; fell_back = u64 (p.fell_back + length ts) }, none)
      | some outs ↦ (
        record p {
          dev = some e;
          hw = u64 (p.hw + length ts);
          rows_hw = u64 (p.rows_hw + u32 (length ts * length x));
        },
        some outs,
      )
    ]

unfoldable pub run_rows :
    {D S R O : Type 0}
    → Device D S R O
    → PoolEnvironment
    → Pool D S
    → ℕ
    → List Target
    → List R
    → Pool D S × Option (List (List (Block O)))
unfolding run_on
run_rows ops env p k ts x = elim p.dev [ none ↦ (p, none) | some d ↦ run_on ops env p d k ts x ]

-- charsiu_pool_rowsn from the ids on
unfoldable pub rowsn_of :
    {D S R O : Type 0}
    → Device D S R O
    → PoolEnvironment
    → ℕ
    → List Weight
    → List R
    → Pool D S
    → List ℕ
    → Pool D S × Option (List (List (Block O)))
unfolding same_k targets run_rows
rowsn_of ops env k ws x p ids =
    if same_k k ws then run_rows ops env p k (targets ws ids) x else (p, none)

-- charsiu_pool_rowsn: the blocks of each weight, or -1
unfoldable pub pool_rowsn :
    {D S R O : Type 0}
    → Device D S R O
    → PoolEnvironment
    → Pool D S
    → List Weight
    → List R
    → Pool D S × Option (List (List (Block O)))
unfolding pool_ids rowsn_of
pool_rowsn ops env p [] x = (p, none)
pool_rowsn ops env p (w ∷ ws) x =
    if ltb 8 (length (w ∷ ws))
    then (p, none)
    else and_then (pool_ids ops env (record p { calls = u64 (p.calls + length (w ∷ ws)) }) (w ∷ ws))
        (rowsn_of ops env (w.ne 0) (w ∷ ws) x)

-- charsiu_pool_rows3
abbrev pub pool_rows3 :
    {D S R O : Type 0}
    → Device D S R O
    → PoolEnvironment
    → Pool D S
    → Weight
    → Weight
    → Weight
    → List R
    → Pool D S × Option (List (List (Block O)))
pool_rows3 ops env p w0 w1 w2 x = pool_rowsn ops env p (w0 ∷ w1 ∷ w2 ∷ []) x
