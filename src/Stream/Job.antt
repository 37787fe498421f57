-- ===== src/Stream/Job.antt =====
-- charsiu_emit_job of src/job.c: what one job writes, by the unit that reads it. The environment variables
-- of its own are a record, and the product of its scales is an argument, as the processor's bits of it.
pub mod Requant
pub mod Cna
pub mod Core
pub mod Dpu
pub mod Rdma
pub mod Entries
use charsiu.Prelude.{
  Bool, List, Option, false, if◌then◌else◌, leb, ltb, none, not, some, sub32, true, u32, ℕ, ◌&&◌,
  ◌*◌, ◌==◌, ◌||◌,
}
use charsiu.Matmul.{Environment, Matmul, Dtype, int4, int8, fp16, entries_per_row}

-- The variables that the file reads, beside those of `Matmul.Environment`. A number is what strtoul or
-- atoi gives, where the variable is set; a negative CHARSIU_CBUF_W1_BANK is 0, which is refused as well.
pub record JobEnvironment : Type 0 where
  pub shape : Environment
  pub overrides : List (ℕ × ℕ)
  pub w0_end : Option ℕ
  pub w0_data : Option ℕ
  pub w1_bank : Option ℕ
  pub w4_paired : Bool
  pub out_off : Option ℕ
  pub m_axis : Option Bool
  pub fp16_geom : Bool
  pub cna_1098 : Option ℕ
  pub w4_bitpat : Bool
  pub w4_301c_high : Bool
  pub w4_no_dpu : Bool
  pub wide8 : Option ℕ
  pub w4_rdma_mask : Option ℕ
  pub w4_f16dpu : Option ℕ
  pub dpu_4030 : Option ℕ
  pub dpu_4038 : Option ℕ
  pub dpu_406c : Option ℕ
  pub dpu_4070 : Option ℕ
  pub dpu_40b8 : Option ℕ

-- `struct charsiu_job`: `conv_bits` are the bits of input_scale * weight_scale / output_scale, and the
-- output's zero point is its 32-bit pattern. The fields that only the coefficients need are left out.
pub record Job : Type 0 where
  pub mm : Matmul
  pub input_addr : ℕ
  pub weight_addr : ℕ
  pub output_addr : ℕ
  pub coef_addr : ℕ
  pub conv_bits : ℕ
  pub output_zero_point : ℕ
  pub cbuf_window : ℕ
  pub acc_out : Bool

abbrev pub is_fp16 : Dtype → Bool
is_fp16 fp16 = true
is_fp16 _ = false

abbrev pub is_int4 : Dtype → Bool
is_int4 int4 = true
is_int4 _ = false

abbrev pub or_else : Option ℕ → ℕ → ℕ
or_else none d = d
or_else (some v) d = u32 v

-- w0_end, w0_data and w1_bank
unfoldable pub w0_end : JobEnvironment → ℕ
w0_end env = let v = or_else env.w0_end 7 in if not (v == 0) && leb v 14 then v else 7

unfoldable pub w0_data : JobEnvironment → ℕ
w0_data env =
    let v = or_else env.w0_data 0x1000 in if not (v == 0) && leb v 0x3000 then v else 0x1000

unfoldable pub w1_bank : JobEnvironment → ℕ
w1_bank env = let v = or_else env.w1_bank 7 in if ltb v 1 || ltb 13 v then 7 else v

-- charsiu_w4_paired
unfoldable pub w4_paired : JobEnvironment → Matmul → Bool
w4_paired env mm = is_int4 mm.wdtype && env.w4_paired

-- charsiu_m_axis_wide_for: CHARSIU_M_AXIS where it says `w` or `h`, and else `w4`
unfoldable pub m_axis_wide_for : JobEnvironment → Bool → Bool
m_axis_wide_for env w4 = elim (env.m_axis) [ none ↦ w4 | some w ↦ w ]

-- the variables that charsiu_emit_job computes first
unfoldable pub is_wide : JobEnvironment → Job → Bool
is_wide env job = ltb 1 job.mm.m && m_axis_wide_for env (is_int4 job.mm.wdtype)

-- `inw`, which `ow` is as well
unfoldable pub inw : JobEnvironment → Job → ℕ
inw env job = if is_wide env job then job.mm.m else 1

unfoldable pub rows : JobEnvironment → Job → ℕ
rows env job = if is_wide env job then 1 else job.mm.m

unfoldable pub surf : JobEnvironment → Job → ℕ
surf env job = u32 (entries_per_row env.shape job.mm * inw env job)

unfoldable pub lines : JobEnvironment → Job → ℕ
lines env job = sub32 (if is_wide env job then inw env job else rows env job) 1

unfoldable pub split : JobEnvironment → Job → Bool
split env job = is_wide env job && ltb 4096 (u32 (surf env job * rows env job))
