-- ===== src/Pool/Tests.antt =====
-- The pool at concrete inputs, on a device that adds the id of the tensor to a row.
use charsiu.Prelude.{
  List, [], arith, false, if◌then◌else◌, length, map, none, refl, some, suc, true, ℕ, ◌*◌, ◌+◌, ◌-◌,
  ◌==◌, ◌∷◌, ◌≡◌, ◌≤◌,
}
use charsiu.Pool.{Weight, Device, PoolEnvironment, Slot, Pool, pool_init, pool_get, slot_of}
use charsiu.Pool.Slots.{IsPool, IsPool-empty}
use charsiu.Pool.Rows.{rows_max, rows_fit, rows_next, pool_rowsn}
use charsiu.Pool.Row.{pool_rows}
use charsiu.KSlice.{slice_kw}
use charsiu.Pool.Surface.{rows_fit-surface}
use charsiu.Pool.Again.{pool_get-again}
use charsiu.Pool.Single.{alone, pool_rows-pool_rowsn}
use charsiu.Pool.Stage.{stage_each, stage_all, staged_or_zero, IsPool-stage_all}

abbrev adder : Device ℕ ℕ ℕ (List ℕ)
adder = record {
  build = λ w. some (w.ne 0);
  add = λ d s. (suc d, some d);
  kmax = λ d. 4096;
  matmul = λ d id same x. (d, some (map (λ (r : ℕ). r + id) x));
}

-- four rows to a call of the device
abbrev env : PoolEnvironment
env = record { maxn = none; only = none; rows_max = some 4 }

abbrev query : Weight
query = record {
  address = 100;
  data_at = 7;
  name = [];
  n_dims = 2;
  ne = λ i. if i == 0 then 1024 else 64;
}

abbrev key : Weight
key = record {
  address = 101;
  data_at = 8;
  name = [];
  n_dims = 2;
  ne = λ i. if i == 0 then 1024 else 64;
}

abbrev fresh : Pool ℕ ℕ
fresh = pool_init 2 4096 4096 (some 0)

abbrev both : Pool ℕ ℕ
both = record {
  slots =
      record { key = 100; src = 7; staged = 1024; id = some 0 }
      ∷ record { key = 101; src = 8; staged = 1024; id = some 1 }
      ∷ [];
  cap = 2;
  dev = some 2;
  calls = 0;
  hw = 0;
  fell_back = 0;
  rows_hw = 0;
}

-- the second weight after the first
both_staged : pool_get adder env (pool_get adder env fresh query).0 key ≡ (both, some 1)
unfolding pool_get
both_staged = refl

-- a bound of 2 rows leaves a tail of one
tail_of_one : (rows_next 3 2 ≡ 2) × (rows_next (3 - rows_next 3 2) 2 ≡ 1)
unfolding rows_next
tail_of_one = (refl, refl)

rows_fit-surface_example :
    (rows_fit env 4096 12288 * slice_kw 12288 3 2 4096 true false ≤ 8192 * 32)
    × (1 ≤ rows_fit env 4096 12288)
    × (rows_fit env 4096 12288 ≤ rows_max env)
rows_fit-surface_example =
    rows_fit-surface {k = 12288} {ks = 3} {kmax = 4096} true (omega arith) (omega arith)
      (omega arith) (omega arith) (omega arith) (omega arith) env 2 (omega arith) (omega arith)
      (omega arith) (omega arith)

abbrev five : List ℕ
five = 1 ∷ 2 ∷ 3 ∷ 4 ∷ 5 ∷ []

-- five rows: three and two, the second chunk 3 * 64 floats further on
five_rows :
    (pool_rowsn adder env both (query ∷ key ∷ []) five).1
    ≡ some (
        (record { at = 0; rows = 3; answer = 1 ∷ 2 ∷ 3 ∷ [] }
          ∷ record { at = 192; rows = 2; answer = 4 ∷ 5 ∷ [] }
          ∷ [])
        ∷ (record { at = 0; rows = 3; answer = 2 ∷ 3 ∷ 4 ∷ [] }
            ∷ record { at = 192; rows = 2; answer = 5 ∷ 6 ∷ [] }
            ∷ [])
        ∷ [])
unfolding pool_rowsn
five_rows = refl

pool_rows-pool_rowsn_example :
    pool_rowsn adder env fresh (query ∷ []) (1 ∷ 2 ∷ 3 ∷ [])
    ≡ alone (pool_rows adder env fresh query (1 ∷ 2 ∷ 3 ∷ []))
pool_rows-pool_rowsn_example =
    pool_rows-pool_rowsn adder env query (1 ∷ 2 ∷ 3 ∷ []) (omega arith) fresh

pool_get-again_example :
    (s : Slot ℕ) × (slot_of (pool_get adder env fresh query).0.slots 100 ≡ some (0, s))
    × (slot_of (stage_each adder env (pool_get adder env fresh query).0 (some key ∷ [])).slots 100
        ≡ some (0, s))
    × (pool_get adder env
          (stage_each adder env (pool_get adder env fresh query).0 (some key ∷ []))
          query
        ≡ (stage_each adder env (pool_get adder env fresh query).0 (some key ∷ []), some 0))
unfolding pool_get
pool_get-again_example = pool_get-again adder env fresh query 0 (some key ∷ []) refl

IsPool-stage_all_example :
    IsPool (stage_all adder env fresh (some query ∷ none ∷ some key ∷ some query ∷ [])).0
    × (staged_or_zero (stage_all adder env fresh (some query ∷ none ∷ some key ∷ some query ∷ [])).1
        ≤ length
            (stage_all adder env fresh (some query ∷ none ∷ some key ∷ some query ∷ [])).0.slots)
    × (length (stage_all adder env fresh (some query ∷ none ∷ some key ∷ some query ∷ [])).0.slots
        ≤ 2)
IsPool-stage_all_example =
    IsPool-stage_all adder env fresh (some query ∷ none ∷ some key ∷ some query ∷ [])
      (IsPool-empty fresh refl)
