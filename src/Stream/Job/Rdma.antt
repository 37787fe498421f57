-- ===== src/Stream/Job/Rdma.antt =====
-- charsiu_emit_job of src/job.c: the entries of the RDMA, from 0x500c to 0x507c, and the four that start
-- the units.
use charsiu.Prelude.{Bool, List, [], if◌then◌else◌, u32, ℕ, ◌&&◌, ◌*◌, ◌+◌, ◌==◌, ◌∷◌}
use charsiu.Prelude.Bits.{bit}
use charsiu.Matmul.{Matmul, align_up, table_bytes}
use charsiu.Stream.{Entry, put, cna, core, dpu, rdma, pred32}
use charsiu.Stream.Job.{JobEnvironment, Job, is_int4, or_else, rows, lines}

-- scale_table_bytes
unfoldable pub scale_table_bytes : Matmul → ℕ
scale_table_bytes mm = align_up mm.n 8 * 2

-- is bit `i` of `rdma_mask` set?
unfoldable pub masked : JobEnvironment → Job → ℕ → Bool
masked env job i = is_int4 job.mm.wdtype && bit (or_else env.w4_rdma_mask 0) i == 1

unfoldable pub rdma_entries : JobEnvironment → Job → List Entry
rdma_entries env job =
    let mm = job.mm in
    put rdma 0x500c 0
    ∷ put rdma 0x5010 (lines env job)
    ∷ put rdma 0x5014 (pred32 mm.n)
    ∷ put rdma 0x5018 0
    ∷ put rdma 0x501c (if masked env job 0 then 0 else 0x0710)
    ∷ put rdma 0x5020 job.coef_addr
    ∷ put rdma 0x5024 (u32 (job.coef_addr + u32 (table_bytes mm + scale_table_bytes mm)))
    ∷ put rdma 0x5028 0
    ∷ put rdma 0x502c 0
    ∷ put rdma 0x5030 0
    ∷ put rdma 0x5034 (if masked env job 1 then 0x4000004c else 0x41)
    ∷ put rdma 0x5038 0
    ∷ put rdma 0x5040 (if masked env job 2 then rows env job else 0)
    ∷ put rdma 0x5044 (if masked env job 3 then 0x000280a1 else 0x40000010)
    ∷ put rdma 0x5048 0
    ∷ put rdma 0x504c 0
    ∷ put rdma 0x5064 0
    ∷ put rdma 0x506c 0
    ∷ put rdma 0x5078 0
    ∷ put rdma 0x507c 0
    ∷ []

unfoldable pub enable_entries : List Entry
enable_entries =
    put cna 0x1008 0x1d ∷ put core 0x3008 0x1d ∷ put dpu 0x4008 0x1d ∷ put rdma 0x5008 0x1d ∷ []
