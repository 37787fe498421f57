-- ===== src/Stream/Matmul.antt =====
-- charsiu_emit_matmul of src/regcmd.c: the register stream of one matmul, as its entries in order.
use charsiu.Prelude.{List, Option, [], bit_or, max, u32, ℕ, ◌*◌, ◌/◌, ◌∷◌}
use charsiu.Matmul.{
  Environment, Matmul, Dtype, int4, int8, fp16, n_pad, entries_per_row, weight_bytes,
  effective_adtype,
}
use charsiu.Stream.{Entry, put, cna, core, dpu, rdma, hi_lo, pred32, stream}

abbrev pub weights : Dtype → ℕ
weights int4 = 0x00600120
weights fp16 = 0x00200120
weights int8 = 0

abbrev pub wide : Dtype → ℕ
wide fp16 = 0x20000000
wide _ = 0

-- the precision word: the weights' field, and a bit for activations of 16 bits
unfoldable pub precision : Environment → Matmul → ℕ
unfolding effective_adtype
precision env mm = bit_or (weights mm.wdtype) (wide (effective_adtype env mm))

unfoldable pub matmul_entries : Environment → Matmul → List Entry
matmul_entries env mm =
    let surf = entries_per_row env mm in
    let rows = mm.m in
    let wbytes = weight_bytes env mm in
    let kernel = u32 (wbytes / n_pad mm) in
    put cna 0x1004 0xe
    ∷ put core 0x3004 0xe
    ∷ put cna 0x100c (precision env mm)
    ∷ put cna 0x1010 0xfff
    ∷ put cna 0x1014 9
    ∷ put cna 0x1018 0x40000404
    ∷ put cna 0x1020 kernel
    ∷ put cna 0x101c (u32 wbytes)
    ∷ put cna 0x1024 (pred32 (n_pad mm))
    ∷ put cna 0x1028 (hi_lo (u32 (surf * rows)) (pred32 mm.k))
    ∷ put cna 0x102c (hi_lo 0 (pred32 rows))
    ∷ put cna 0x1030 (hi_lo kernel 0)
    ∷ put cna 0x1034 (pred32 rows)
    ∷ put cna 0x103c (hi_lo surf 0)
    ∷ put cna 0x1040 0x10000000
    ∷ put cna 0x1044 (hi_lo 1 surf)
    ∷ put cna 0x1048 0xb
    ∷ put cna 0x1078 (hi_lo 0 (pred32 rows))
    ∷ put cna 0x107c (pred32 mm.k)
    ∷ put cna 0x1080 0
    ∷ put cna 0x1084 0
    ∷ put cna 0x1098 rows
    ∷ put core 0x3020 (pred32 mm.n)
    ∷ put dpu 0x400c 0x40000004
    ∷ put dpu 0x4020 0
    ∷ put dpu 0x4024 (pred32 rows)
    ∷ put dpu 0x402c (pred32 mm.n)
    ∷ put dpu 0x4034 (hi_lo (pred32 rows) 0)
    ∷ put rdma 0x5014 (pred32 mm.n)
    ∷ []

-- charsiu_emit_matmul into a buffer of `max` entries; `none` is the result 0
unfoldable pub emit_matmul : Environment → Matmul → ℕ → Option (List ℕ)
emit_matmul env mm max = stream [] max (matmul_entries env mm)
