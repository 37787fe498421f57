-- ===== src/Stream/Job/Dpu.antt =====
-- charsiu_emit_job of src/job.c: the entries of the DPU, from 0x400c to 0x4194.
use charsiu.Prelude.{
  Bool, List, Option, [], if◌then◌else◌, not, sub32, u32, ℕ, ◌&&◌, ◌*◌, ◌++◌, ◌+◌, ◌/◌, ◌==◌, ◌||◌,
  ◌∷◌,
}
use charsiu.Prelude.Bits.{bit}
use charsiu.Stream.{Entry, put, dpu, hi_lo, pred32, zeros}
use charsiu.Stream.Job.{
  JobEnvironment, Job, is_fp16, is_int4, or_else, w4_paired, is_wide, inw, rows, lines,
}
use charsiu.Stream.Job.Requant.{requant_of}

-- `wide8`: only int8 weights have it, and an accumulator output asks for all of it
unfoldable pub wide8 : JobEnvironment → Job → ℕ
wide8 env job =
    if is_int4 job.mm.wdtype || is_fp16 job.mm.wdtype
    then 0
    else if job.acc_out
    then 0x3f
    else or_else env.wide8 0

-- `w4_dpu`
unfoldable pub w4_dpu : JobEnvironment → Job → Bool
w4_dpu env job = (is_int4 job.mm.wdtype || is_fp16 job.mm.wdtype) && not env.w4_no_dpu

-- WIDE(i)
unfoldable pub wide : JobEnvironment → Job → ℕ → Bool
wide env job i = w4_dpu env job || bit (wide8 env job) i == 1

abbrev pub bit_of : Option ℕ → ℕ → Bool
bit_of mask i = bit (or_else mask 0) i == 1

-- `f16w2`: one position for each output, as fp16 writes them
unfoldable pub one_position : JobEnvironment → Job → Bool
one_position env job = (is_fp16 job.mm.wdtype && not env.fp16_geom) || bit_of env.w4_f16dpu 0

-- 0x400c to 0x4034: the output's address and shape
unfoldable pub output_entries : JobEnvironment → Job → List Entry
output_entries env job =
    let n = job.mm.n in
    let columns = inw env job in
    put dpu 0x400c 0x40000004
    ∷ put dpu 0x4010 (if wide env job 0 then 0xa0000002 else 0)
    ∷ put dpu 0x4014 0
    ∷ put dpu 0x4018 job.output_addr
    ∷ put dpu 0x401c (if one_position env job then 1 else u32 (columns * rows env job))
    ∷ put dpu 0x4020 (if one_position env job then 0 else pred32 columns)
    ∷ put dpu 0x4024 (if is_wide env job then pred32 (rows env job) else lines env job)
    ∷ put dpu 0x4028 (if is_fp16 job.mm.wdtype || bit_of env.w4_f16dpu 1 then pred32 (n / 4) else 0)
    ∷ put dpu 0x402c (pred32 n)
    ∷ put dpu 0x4030 (
        hi_lo (if w4_paired env job.mm then pred32 (u32 (2 * n)) else pred32 n)
          (or_else env.dpu_4030 (if wide env job 1 then 0x0310 else 0x0710)))
    ∷ put dpu 0x4034 (
        if is_wide env job
        then hi_lo (pred32 (rows env job)) (pred32 columns)
        else hi_lo (lines env job) 0)
    ∷ []

-- 0x4038 to 0x4078: the stages between the accumulator and the output
unfoldable pub stage_entries : JobEnvironment → Job → List Entry
stage_entries env job =
    put dpu 0x4038 (or_else env.dpu_4038 (if wide env job 2 then 0x53 else 0x00120080))
    ∷ put dpu 0x403c 0
    ∷ put dpu 0x4044 (if wide env job 3 then 2 else 1)
    ∷ put dpu 0x4048 0x80000000
    ∷ put dpu 0x404c 0x7fffffff
    ∷ put dpu 0x4050 (if wide env job 4 then 0x00023333 else 0x80011111)
    ∷ put dpu 0x4058 0x80000000
    ∷ put dpu 0x405c 0x7fffffff
    ∷ put dpu 0x4060 0x0903
    ∷ put dpu 0x406c (or_else env.dpu_406c 0x80000000)
    ∷ put dpu 0x4070 (or_else env.dpu_4070 0x7fffffff)
    ∷ put dpu 0x4074 0x80000000
    ∷ put dpu 0x4078 0x7fffffff
    ∷ put dpu 0x407c 0x010041c1
    ∷ []

-- 0x4080 to 0x40b4, with the requantisation where the output is narrow
unfoldable pub requant_entries : JobEnvironment → Job → List Entry
requant_entries env job =
    let rq = requant_of env job in
    put dpu 0x4080 0
    ∷ put dpu 0x4084 1
    ∷ put dpu 0x4088 0x80000000
    ∷ put dpu 0x408c 0x7fffffff
    ∷ put dpu 0x4090 0
    ∷ put dpu 0x4094 0
    ∷ put dpu 0x409c 0
    ∷ put dpu 0x40a4 0x80000000
    ∷ put dpu 0x40a8 0x7fffffff
    ∷ put dpu 0x40ac (if wide env job 5 then 0 else rq.offset)
    ∷ put dpu 0x40b0 (if wide env job 5 then 1 else rq.scale)
    ∷ put dpu 0x40b4 (if wide env job 5 then 0 else rq.shift)
    ∷ []

-- the value of 0x40b8: the surface's stride
unfoldable pub surface_add : JobEnvironment → Job → ℕ
surface_add env job =
    let mm = job.mm in
    let r = rows env job in
    let batch = if is_wide env job then inw env job else r in
    let plain =
      if job.acc_out || w4_paired env mm
      then u32 (3 * batch)
      else u32 (inw env job * sub32 (u32 (2 * r)) r) in
    or_else env.dpu_40b8
      (if is_fp16 mm.wdtype then sub32 (u32 (mm.n / 4 + 3)) (u32 (mm.m * mm.n) / 4) else plain)

-- 0x40b8 to 0x4194
unfoldable pub tail_entries : JobEnvironment → Job → List Entry
tail_entries env job =
    put dpu 0x40b8 (surface_add env job)
    ∷ put dpu 0x40bc 0
    ∷ put dpu 0x40c0 0x04440100
    ∷ put dpu 0x40c8 0
    ∷ put dpu 0x40cc 0
    ∷ put dpu 0x40d0 0x0040ffff
    ∷ (zeros dpu 0x4100 9
        ++ (put dpu 0x4130 0
            ∷ (zeros dpu 0x4140 6
                ++ (put dpu 0x4160 0 ∷ put dpu 0x4170 0 ∷ put dpu 0x4174 0 ∷ zeros dpu 0x4184 5))))
