-- ===== src/Matmul.antt =====
-- The geometry of one matmul on the NPU: `struct charsiu_matmul` of include/charsiu.h, the sizes that
-- src/regcmd.c derives from it and the size of the coefficient buffer of src/job.c. An `unsigned` wraps
-- at 32 bits and a size_t at 64. The environment variables that the code reads are an argument.
pub mod Sizes
pub mod Tile
pub mod Accumulator
mod Tests
use charsiu.Prelude.{
  Bool, Option, false, if◌then◌else◌, ltb, none, not, some, true, u32, u64, ℕ, ◌%◌, ◌&&◌, ◌*◌, ◌+◌,
  ◌-◌, ◌/◌, ◌==◌,
}

-- `enum charsiu_dtype`
pub data Dtype : Type 0 where
  int4 int8 fp16 : Dtype

abbrev pub is_int4 : Dtype → Bool
is_int4 int4 = true
is_int4 _ = false

-- CHARSIU_ACC_A: the word that it holds, or the coefficient
pub data AccA : Type 0 where
  swap roleswap roleswap2 : AccA
  coeff : ℕ → AccA

-- What the process environment says: is CHARSIU_A8_STRIDE1 set, the number in CHARSIU_ENTRY_ATOMICS, is
-- CHARSIU_NO_KALIGN set, the number in CHARSIU_COEF_ELEMS, and CHARSIU_ACC_A.
pub record Environment : Type 0 where
  pub a8_stride1 : Bool
  pub entry_atomics : Option ℕ
  pub no_kalign : Bool
  pub coef_elems : Option ℕ
  pub acc_a : Option AccA

-- nothing set
abbrev pub unset : Environment
unset = record {
  a8_stride1 = false;
  entry_atomics = none;
  no_kalign = false;
  coef_elems = none;
  acc_a = none;
}

-- `struct charsiu_matmul`
pub record Matmul : Type 0 where
  pub m : ℕ
  pub k : ℕ
  pub n : ℕ
  pub wdtype : Dtype
  pub adtype : Dtype

abbrev pub div_round_up : ℕ → ℕ → ℕ
div_round_up n d = u32 (n + d - 1) / d

abbrev pub align_up : ℕ → ℕ → ℕ
align_up n a = u32 (div_round_up n a * a)

abbrev pub feature_atom : Dtype → ℕ
feature_atom int4 = 32
feature_atom int8 = 16
feature_atom fp16 = 8

unfoldable pub k_padded : ℕ → Dtype → ℕ
k_padded k adt = let atom = feature_atom adt in u32 (u32 (k + atom - 1) / atom * atom)

abbrev pub weight_ngroup : Dtype → ℕ
weight_ngroup int4 = 32
weight_ngroup int8 = 32
weight_ngroup fp16 = 16

abbrev pub weight_kgroup : Dtype → ℕ
weight_kgroup int4 = 64
weight_kgroup int8 = 32
weight_kgroup fp16 = 32

-- int4 weights consume the activation as 16 bits
unfoldable pub effective_adtype : Environment → Matmul → Dtype
effective_adtype env mm = if is_int4 mm.wdtype && not env.a8_stride1 then fp16 else mm.adtype

unfoldable pub entry_atomics : Environment → ℕ
entry_atomics env = elim (env.entry_atomics) [ none ↦ 4 | some v ↦ if v == 8 then 8 else 4 ]

-- `total` atoms of the row in entries of `ape` atoms, one column wide
unfoldable pub entries_of : ℕ → ℕ → ℕ
entries_of total ape =
    let last = total % ape in total / ape + (if last == 3 then 1 else div_round_up last ape)

-- CBUF entries that one row takes
unfoldable pub entries_per_row : Environment → Matmul → ℕ
unfolding effective_adtype entry_atomics entries_of
entries_per_row env mm =
    entries_of (div_round_up mm.k (feature_atom (effective_adtype env mm))) (entry_atomics env)

unfoldable pub k_eff : Environment → Matmul → ℕ
unfolding k_padded effective_adtype
k_eff env mm = if env.no_kalign then mm.k else k_padded mm.k (effective_adtype env mm)

-- the output channels are counted in pairs
abbrev pub n_pad : Matmul → ℕ
n_pad mm = align_up mm.n 2

unfoldable pub weight_bytes_of : Dtype → ℕ → ℕ
weight_bytes_of int4 elems = elems / 2
weight_bytes_of int8 elems = elems
weight_bytes_of fp16 elems = u64 (elems * 2)

unfoldable pub weight_bytes : Environment → Matmul → ℕ
unfolding weight_bytes_of k_eff
weight_bytes env mm = weight_bytes_of mm.wdtype (u64 (k_eff env mm * n_pad mm))

unfoldable pub table_bytes : Matmul → ℕ
table_bytes mm = div_round_up mm.n 8 * 64

-- `want ? want : k * n`, where `want` defaults to 65536
unfoldable pub coef_elems_of : Environment → Matmul → ℕ
coef_elems_of env mm = elim (env.coef_elems) [
  | none ↦ 65536
  | some want ↦ if want == 0 then u64 (mm.k * mm.n) else want
]

-- the record table, the float surface of at least 8192 elements, and a margin
unfoldable pub coef_bytes : Environment → Matmul → ℕ
unfolding table_bytes
coef_bytes env mm =
    let elems = coef_elems_of env mm in
    let floored = if ltb elems 8192 then 8192 else elems in
    u64 (table_bytes mm + floored * 4 + 0x100)
