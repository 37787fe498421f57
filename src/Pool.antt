-- ===== src/Pool.antt =====
-- The pool of src/npupool.c, `struct charsiu_npu_pool` of include/charsiu_llm.h: the weights that were
-- staged for the NPU, and which of them are on it. The device is a parameter: its state `D`, what a staged
-- weight is (`S`), a row of the input (`R`) and the output of one call (`O`), and the calls that the pool makes.
-- Clocks and the lines on stderr are left out.
pub mod Slots
pub mod Chunks
pub mod Surface
pub mod Rows
pub mod Row
pub mod Batch
pub mod Single
pub mod Stage
pub mod Again
mod Tests
use charsiu.Prelude.{
  Bool, List, Option, [], false, if◌then◌else◌, leb, length, none, not, some, suc, true, u32, ℕ,
  ◌&&◌, ◌++◌, ◌==◌, ◌||◌, ◌∷◌,
}

-- `struct gguf_tensor`, as far as the pool reads it: where it is, where its weights are, and its shape
pub record Weight : Type 0 where
  pub address : ℕ
  pub data_at : ℕ
  pub name : List ℕ
  pub n_dims : ℕ
  pub ne : ℕ → ℕ

-- npu_tensor_build of src/npuquant.c, and charsiu_npu_add, charsiu_npu_kmax, charsiu_npu_matmul and
-- charsiu_npu_matmul_same (which sets `same`) of src/npudev.c; `none` is a negative result
pub record Device (D S R O : Type 0) : Type 0 where
  pub build : Weight → Option S
  pub add : D → S → D × Option ℕ
  pub kmax : D → ℕ
  pub matmul : D → ℕ → Bool → List R → D × Option O

-- CHARSIU_NPU_MAXN, CHARSIU_NPU_ONLY and CHARSIU_NPU_ROWS_MAX; for the last, what atoi gives where it
-- is positive
pub record PoolEnvironment : Type 0 where
  pub maxn : Option ℕ
  pub only : Option (List ℕ)
  pub rows_max : Option ℕ

-- the places `i` of `key`, `src`, `t` and `id`
pub record Slot (S : Type 0) : Type 0 where
  pub key : ℕ
  pub src : ℕ
  pub staged : S
  pub id : Option ℕ

-- `n` is the number of slots
pub record Pool (D S : Type 0) : Type 0 where
  pub slots : List (Slot S)
  pub cap : ℕ
  pub dev : Option D
  pub calls : ℕ
  pub hw : ℕ
  pub fell_back : ℕ
  pub rows_hw : ℕ

-- charsiu_pool_init, where the allocations succeed: `opened` is what charsiu_npu_open_mode gives
abbrev pub pool_init : {D S : Type 0} → ℕ → ℕ → ℕ → Option D → Pool D S
pool_init max_tensors max_k max_n opened = record {
  slots = [];
  cap = max_tensors;
  dev = if not (max_k == 0) && not (max_n == 0) then opened else none;
  calls = 0;
  hw = 0;
  fell_back = 0;
  rows_hw = 0;
}

abbrev pub pool_maxn : PoolEnvironment → ℕ
pool_maxn env = elim (env.maxn) [ none ↦ 262144 | some v ↦ u32 v ]

-- strstr
unfoldable pub starts : List ℕ → List ℕ → Bool
starts [] text = true
starts (c ∷ cs) [] = false
starts (c ∷ cs) (x ∷ xs) = c == x && starts cs xs

unfoldable pub contains : List ℕ → List ℕ → Bool
unfolding starts
contains part [] = starts part []
contains part (x ∷ xs) = starts part (x ∷ xs) || contains part xs

-- does the pool offer the weight to the device?
unfoldable pub is_offered : PoolEnvironment → Weight → Bool
unfolding contains
is_offered env w =
    (elim (env.only) [ none ↦ true | some part ↦ contains part w.name ])
    && leb (w.ne 1) (pool_maxn env)

-- the first slot of a key, with its place
unfoldable pub slot_of : {S : Type 0} → List (Slot S) → ℕ → Option (ℕ × Slot S)
slot_of [] key = none
slot_of (s ∷ slots) key =
    if s.key == key
    then some (0, s)
    else elim (slot_of slots key) [ none ↦ none | some (i, t) ↦ some (suc i, t) ]

-- the device and the id that a new slot gets
unfoldable pub place_on :
    {D S R O : Type 0}
    → Device D S R O
    → PoolEnvironment
    → Option D
    → Weight
    → S
    → Option D × Option ℕ
unfolding is_offered
place_on ops env none w staged = (none, none)
place_on ops env (some d) w staged =
    if is_offered env w then (some (ops.add d staged).0, (ops.add d staged).1) else (some d, none)

-- the new slot of a weight, where there is room and the weight can be built
unfoldable pub stage :
    {D S R O : Type 0} → Device D S R O → PoolEnvironment → Pool D S → Weight → Pool D S × Option ℕ
unfolding place_on
stage {S = S} ops env p w = if length p.slots == p.cap then (p, none) else elim (ops.build w) [
  | none ↦ (p, none)
  | some staged ↦
      let (dev, id) = place_on ops env p.dev w staged in
      let slot : Slot S = record { key = w.address; src = w.data_at; staged = staged; id = id } in
      (record p { slots = p.slots ++ slot ∷ []; dev = dev }, some (length p.slots))
]

-- charsiu_pool_get: the place of the staged weight, or NULL
unfoldable pub pool_get :
    {D S R O : Type 0} → Device D S R O → PoolEnvironment → Pool D S → Weight → Pool D S × Option ℕ
unfolding slot_of stage
pool_get ops env p w = elim (slot_of p.slots w.address) [
  | some (i, s) ↦ if s.src == w.data_at then (p, some i) else (p, none)
  | none ↦ stage ops env p w
]

-- `p->dev`
abbrev pub is_open : {D : Type 0} → Option D → Bool
is_open none = false
is_open (some d) = true

-- a call that may fail, and what follows it where it does not
abbrev pub and_then : {P A B : Type 0} → P × Option A → (P → A → P × Option B) → P × Option B
and_then (p, none) more = (p, none)
and_then (p, some a) more = more p a

-- the second search of pool_id
unfoldable pub id_of : {D S : Type 0} → Weight → Pool D S → ℕ → Pool D S × Option ℕ
id_of w p i = elim (slot_of p.slots w.address) [ none ↦ (p, none) | some (j, s) ↦ (p, s.id) ]

-- pool_id
unfoldable pub pool_id :
    {D S R O : Type 0} → Device D S R O → PoolEnvironment → Pool D S → Weight → Pool D S × Option ℕ
unfolding pool_get id_of
pool_id ops env p w = if is_open p.dev then and_then (pool_get ops env p w) (id_of w) else (p, none)
