-- ===== src/Pool/Single.antt =====
-- charsiu_pool_rows of src/npupool.c against charsiu_pool_rowsn for one weight: the search, the stride and the
-- loop are written twice.
use charsiu.Prelude.{
  Bool-cases, List, Option, Option-cases, [], ap, ap₂, arith, drop, false, inl, inr, length, none,
  refl, some, suc, take, true, u32, u64, zero, ℕ, ◌*◌, ◌+◌, ◌<◌, ◌==◌, ◌^◌, ◌∙◌, ◌∷◌, ◌≡◌,
}
use charsiu.Pool.{
  Weight, Device, PoolEnvironment, Slot, Pool, and_then, is_open, slot_of, pool_get, pool_id, id_of,
}
use charsiu.Pool.Rows.{
  Block, block, Target, put_first, row_stride, targets, rows_next, rows_weights, rows_chunks,
  pool_ids, same_k, rows_fit, run_on, run_rows, rowsn_of, pool_rowsn,
}
use charsiu.Pool.Row.{search_id, row_chunks, run_row, rows_of, pool_rows}

-- the blocks of one weight among those of several
abbrev pub alone : {P B : Type 0} → P × Option (List B) → P × Option (List (List B))
alone (p, none) = (p, none)
alone (p, some y) = (p, some (y ∷ []))

alone-first : {P B : Type 0} (r : P × Option (List B)) → (alone r).0 ≡ r.0
alone-first (p, none) = refl
alone-first (p, some y) = refl

abbrev target : ℕ → ℕ → Target
target id n = record { id = id; stride = n }

-- what the only weight's call gives
abbrev first_of : {D O : Type 0} → ℕ → ℕ → ℕ → D × Option O → D × Option (List (Block O))
first_of done rows n (e, none) = (e, none)
first_of done rows n (e, some out) = (e, some (block done rows n out ∷ []))

one_weight :
    {D S R O : Type 0} (ops : Device D S R O) (d : D) (done id n : ℕ) (x : List R)
    → rows_weights ops d false done (target id n ∷ []) x
      ≡ first_of done (length x) n (ops.matmul d id false x)
unfolding rows_weights
one_weight ops d done id n x = elim (Option-cases (ops.matmul d id false x).1) [
  | inl e ↦ rw (e, rows_weights) refl
  | inr (new, s) ↦ rw (s, rows_weights) refl
]

-- a chunk's block before those that follow
abbrev then_rest :
    {D O : Type 0} → Block O → D × Option (List (Block O)) → D × Option (List (Block O))
then_rest b (f, none) = (f, none)
then_rest b (f, some rest) = (f, some (b ∷ rest))

abbrev then_all :
    {D O : Type 0}
    → List (Block O)
    → D × Option (List (List (Block O)))
    → D × Option (List (List (Block O)))
then_all news (f, none) = (f, none)
then_all news (f, some rest) = (f, some (put_first news rest))

then_all-alone :
    {D O : Type 0} (b : Block O) (r : D × Option (List (Block O)))
    → then_all (b ∷ []) (alone r) ≡ alone (then_rest b r)
unfolding put_first
then_all-alone b (f, none) = refl
then_all-alone b (f, some rest) = refl

module _ {D S R O : Type 0} (ops : Device D S R O) (id n chunk : ℕ) where
  row_chunks-alone :
      (fuel : ℕ) (d : D) (done : ℕ) (x : List R)
      → rows_chunks ops fuel chunk d done (target id n ∷ []) x
        ≡ alone (row_chunks ops fuel chunk d done id n x)
  unfolding rows_chunks row_chunks
  row_chunks-alone zero d done x = refl
  row_chunks-alone (suc fuel) d done x = elim (Bool-cases (length x == 0)) [
    | inl e ↦ rw e refl
    | inr e ↦
        let c = rows_next (length x) chunk in
        let call = ops.matmul d id false (take c x) in
        let same = one_weight ops d done id n (take c x) in
        let later = row_chunks-alone fuel call.0 (done + c) (drop c x) in
        elim (Option-cases call.1) [
          | inl m ↦
              let s : rows_weights ops d false done (target id n ∷ []) (take c x) ≡ (call.0, none) =
                same ∙ rw m refl in
              rw (e, m) (ap (λ (r : D × Option (List (Block O))). (r.0, none)) s)
          | inr (new, m) ↦
              let b = block done (length (take c x)) n new in
              let s : rows_weights ops d false done (target id n ∷ []) (take c x)
                  ≡ (call.0, some (b ∷ [])) =
                same ∙ rw m refl in
              rw (e, m)
                (ap
                    (λ (r : D × Option (List (Block O))).
                      then_all (b ∷ [])
                        (rows_chunks ops fuel chunk r.0 (done + c) (target id n ∷ []) (drop c x)))
                    s
                  ∙ ap (λ (r : D × Option (List (List (Block O)))). then_all (b ∷ []) r) later
                  ∙ then_all-alone b (row_chunks ops fuel chunk call.0 (done + c) id n (drop c x)))
        ]
  ]

run_row-alone :
    {D S R O : Type 0} (ops : Device D S R O) (env : PoolEnvironment) (p : Pool D S) (d : D)
    (w : Weight) (id : ℕ) (x : List R)
    → length x < 2 ^ 32
    → run_on ops env p d (w.ne 0) (target id (row_stride w) ∷ []) x
      ≡ alone (run_row ops env p d w id x)
unfolding run_on run_row row_stride
run_row-alone {D = D} {S = S} {O = O} ops env p d w id x small =
    let n = row_stride w in
    let chunk = rows_fit env (ops.kmax d) (w.ne 0) in
    let one = row_chunks ops (suc (length x)) chunk d 0 id n x in
    let same = row_chunks-alone ops id n chunk (suc (length x)) d 0 x in
    let e = ap (λ (r : D × Option (List (List (Block O)))). r.0) same ∙ alone-first one in
    let once : u32 (1 * length x) ≡ length x = omega arith in
    elim (Option-cases one.1) [
      | inl m ↦
          rw (same, m, run_on, run_row)
            (ap (λ (f : D). (record p { dev = some f; fell_back = u64 (p.fell_back + 1) }, none)) e)
      | inr (y, m) ↦
          rw (same, m, run_on, run_row)
            (ap₂
              (λ (f : D) (k : ℕ). (
                record p { dev = some f; hw = u64 (p.hw + 1); rows_hw = u64 (p.rows_hw + k) },
                some (y ∷ []),
              ))
              e once)
    ]

search_id-slot_of :
    {S : Type 0} (slots : List (Slot S)) (key : ℕ)
    → (elim (slot_of slots key) [ none ↦ none | some (j, s) ↦ s.id ]) ≡ search_id slots key
unfolding slot_of search_id
search_id-slot_of [] key = refl
search_id-slot_of (s ∷ slots) key = elim (Bool-cases (s.key == key)) [
  | inl e ↦ rw e refl
  | inr e ↦ elim (Option-cases (slot_of slots key)) [
    | inl n ↦ rw e (rw n (rw⁻¹ (search_id-slot_of slots key) (rw n refl)))
    | inr ((j, t), n) ↦ rw e (rw n (rw⁻¹ (search_id-slot_of slots key) (rw n refl)))
  ]
]

with_id :
    {D S : Type 0} (p : Pool D S) (found : Option (ℕ × Slot S))
    → ◌≡◌ {A = Pool D S × Option ℕ}
        (elim found [ none ↦ (p, none) | some (j, s) ↦ (p, s.id) ])
        (p, elim found [ none ↦ none | some (j, s) ↦ s.id ])
with_id p none = refl
with_id p (some (j, s)) = refl

id_of-search_id :
    {D S : Type 0} (w : Weight) (p : Pool D S) (i : ℕ)
    → id_of w p i ≡ (p, search_id p.slots w.address)
unfolding id_of
id_of-search_id w p i =
    with_id p (slot_of p.slots w.address)
    ∙ ap (λ (o : Option ℕ). (p, o)) (search_id-slot_of p.slots w.address)

module _ {D S R O : Type 0} (ops : Device D S R O) (env : PoolEnvironment) (w : Weight) (x : List R)
    (small : length x < 2 ^ 32) where
  on_dev-alone :
      (p : Pool D S) (id : ℕ) (o : Option D)
      → (elim o [
        | none ↦ (p, none)
        | some d ↦ run_on ops env p d (w.ne 0) (target id (row_stride w) ∷ []) x
      ])
        ≡ alone (elim o [ none ↦ (p, none) | some d ↦ run_row ops env p d w id x ])
  on_dev-alone p id none = refl
  on_dev-alone p id (some d) = run_row-alone ops env p d w id x small

  of_id-alone :
      (p : Pool D S) (found : Option ℕ)
      → and_then
          (and_then (p, found) (λ q id. (q, some (id ∷ []))))
          (rowsn_of ops env (w.ne 0) (w ∷ []) x)
        ≡ alone (elim found [
          | none ↦ (p, none)
          | some id ↦ elim p.dev [ none ↦ (p, none) | some d ↦ run_row ops env p d w id x ]
        ])
  unfolding rowsn_of run_rows same_k targets
  of_id-alone p none = refl
  of_id-alone p (some id) =
      let same : (w.ne 0 == w.ne 0) ≡ true = ground arith in rw same (on_dev-alone p id p.dev)

  of_got-alone :
      (g : Pool D S × Option ℕ)
      → and_then
          (and_then (and_then g (id_of w)) (λ q id. (q, some (id ∷ []))))
          (rowsn_of ops env (w.ne 0) (w ∷ []) x)
        ≡ alone (and_then g (rows_of ops env w x))
  unfolding rows_of
  of_got-alone (p, none) = refl
  of_got-alone (p, some i) =
      ap
        (λ (r : Pool D S × Option ℕ).
          and_then (and_then r (λ q id. (q, some (id ∷ []))))
            (rowsn_of ops env (w.ne 0) (w ∷ []) x))
        (id_of-search_id w p i)
      ∙ of_id-alone p (search_id p.slots w.address)

  -- For a batch of less than 2 ^ 32 rows, a call of charsiu_pool_rows leaves the pool, the device and the
  -- counters as a call of charsiu_pool_rowsn for that weight alone, gives the same blocks at the same places
  -- of the output, and fails exactly when it fails, in whatever state the pool is and whatever the device does.
  pub pool_rows-pool_rowsn :
      (p : Pool D S) → pool_rowsn ops env p (w ∷ []) x ≡ alone (pool_rows ops env p w x)
  unfolding pool_rowsn pool_rows pool_ids pool_id
  pool_rows-pool_rowsn p = elim (Bool-cases (is_open p.dev)) [
    | inl y ↦ rw y (of_got-alone (pool_get ops env (record p { calls = u64 (p.calls + 1) }) w))
    | inr n ↦ rw n refl
  ]
