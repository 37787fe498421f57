-- ===== src/Stream/Job/Cna.antt =====
-- charsiu_emit_job of src/job.c: the entries up to the CORE's, most of them for the CNA.
use charsiu.Prelude.{
  Bool, List, [], bit_or, if◌then◌else◌, ltb, not, u32, ℕ, ◌&&◌, ◌*◌, ◌++◌, ◌+◌, ◌/◌, ◌==◌, ◌^◌,
  ◌||◌, ◌∷◌,
}
use charsiu.Matmul.{n_pad, k_eff, weight_bytes}
use charsiu.Stream.{Entry, put, cna, core, dpu, rdma, u28, hi_lo, pred32, zeros}
use charsiu.Stream.Matmul.{precision}
use charsiu.Stream.Job.{
  JobEnvironment, Job, is_fp16, is_int4, or_else, w0_end, w0_data, w1_bank, is_wide, inw, rows,
  surf, split,
}

-- the last bank of a window that begins at bank `s`
unfoldable pub window_end : ℕ → ℕ
window_end s = if ltb 14 (s + 7) then 14 else s + 7

unfoldable pub windowed : Job → Bool
windowed job = job.cbuf_window == 1

-- the value of 0x1038
unfoldable pub window_word : JobEnvironment → Job → ℕ
window_word env job = if windowed job then bit_or 0x100 (window_end (w1_bank env)) else w0_end env

unfoldable pub head_entries : JobEnvironment → Job → List Entry
head_entries env job =
    put cna 0x1004 0xe
    ∷ put core 0x3004 0xe
    ∷ put cna 0x1038 (window_word env job)
    ∷ put dpu 0x4004 0xe
    ∷ put rdma 0x5004 0xe
    ∷ []

-- 0x100c to 0x1034: the precision and the shape
unfoldable pub shape_entries : JobEnvironment → Job → List Entry
shape_entries env job =
    let mm = job.mm in
    let wbytes = weight_bytes env.shape mm in
    let kernel = wbytes / n_pad mm in
    let doubled = if is_int4 mm.wdtype || is_fp16 mm.wdtype then 1 else 2 in
    let bank = if windowed job then 0x40000404 + w1_bank env else 0x40000404 in
    let columns = inw env job in
    put cna 0x100c (precision env.shape mm)
    ∷ put cna 0x1010 0xfff
    ∷ put cna 0x1014 9
    ∷ put cna 0x1018 (bank + (if split env job then 0x0101 else 0))
    ∷ put cna 0x101c (u32 wbytes)
    ∷ put cna 0x1020 (u32 kernel)
    ∷ put cna 0x1024 (pred32 (n_pad mm))
    ∷ put cna 0x1028 (hi_lo (u32 (surf env job * rows env job)) (pred32 (k_eff env.shape mm)))
    ∷ put cna 0x102c (hi_lo (pred32 columns) (pred32 (rows env job)))
    ∷ put cna 0x1030 (hi_lo (u32 (kernel * doubled)) (pred32 columns))
    ∷ put cna 0x1034 (pred32 (u32 (columns * rows env job)))
    ∷ []

-- 0x1038 to 0x108c: the windows of the buffer, the padding and the input's address
unfoldable pub window_entries : JobEnvironment → Job → List Entry
window_entries env job =
    let d = if windowed job then w1_bank env * 0x400 else 0 in
    let db = if windowed job then 0x1000 else w0_data env in
    let columns = inw env job in
    put cna 0x1038 (window_word env job)
    ∷ put cna 0x103c (hi_lo (surf env job) d)
    ∷ put cna 0x1040 (u32 (hi_lo (d + db) d + (if split env job then 0x04000000 else 0)))
    ∷ put cna 0x1044 (hi_lo columns (surf env job))
    ∷ put cna 0x1048 0xb
    ∷ put cna 0x104c 0x00010001
    ∷ put cna 0x1050 0x00010001
    ∷ (zeros cna 0x1054 9
        ++ (put cna 0x1078 (hi_lo (pred32 columns) (pred32 (rows env job)))
            ∷ put cna 0x107c (pred32 (k_eff env.shape job.mm))
            ∷ put cna 0x1080 0
            ∷ put cna 0x1084 0
            ∷ put cna 0x1088 job.input_addr
            ∷ put cna 0x108c 0x000f000f
            ∷ []))

-- is the fp16 window that of one position?
unfoldable pub fp16_window : JobEnvironment → Job → Bool
fp16_window env job = is_fp16 job.mm.wdtype && not env.fp16_geom

-- 0x1090 to 0x118c: the surface's stride, the weights' address and the last window
unfoldable pub address_entries : JobEnvironment → Job → List Entry
address_entries env job =
    let columns = inw env job in
    let cells = u32 (columns * rows env job) in
    put cna 0x1090 (if is_fp16 job.mm.wdtype then job.mm.k / 8 else u32 (columns * 4))
    ∷ put cna 0x1094 (if fp16_window env job then 1 else cells)
    ∷ put cna 0x1098 (or_else env.cna_1098 (u32 (cells + 3) / 4 * 4))
    ∷ put cna 0x109c 0
    ∷ put cna 0x1100 0
    ∷ put cna 0x1104 0
    ∷ put cna 0x1110 job.weight_addr
    ∷ put cna 0x1140 0
    ∷ put cna 0x1144 0
    ∷ put cna 0x118c (
        if fp16_window env job
        then 0
        else if is_wide env job
        then hi_lo (pred32 columns) (pred32 columns)
        else hi_lo (pred32 columns) (pred32 (rows env job)))
    ∷ []

-- 0x2810 to 0x2820, for the types that have them
unfoldable pub u28_entries : JobEnvironment → Job → List Entry
u28_entries env job =
    if is_int4 job.mm.wdtype || is_fp16 job.mm.wdtype
    then put u28 0x2810 0
      ∷ put u28 0x2814 0
      ∷ put u28 0x2818 (if windowed job then u32 (w1_bank env * 0x400 * 2 ^ 16) else 0)
      ∷ put u28 0x281c 0
      ∷ put u28 0x2820 (if windowed job then w1_bank env * 8 else 0)
      ∷ []
    else []
