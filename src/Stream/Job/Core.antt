-- ===== src/Stream/Job/Core.antt =====
-- charsiu_emit_job of src/job.c: the entries of the CORE, from 0x3018 to 0x3024.
use charsiu.Prelude.{Bool, List, [], if◌then◌else◌, ltb, not, sub32, u32, ℕ, ◌&&◌, ◌*◌, ◌||◌, ◌∷◌}
use charsiu.Matmul.{align_up}
use charsiu.Stream.{Entry, put, core, hi_lo, pred32}
use charsiu.Stream.Job.{JobEnvironment, Job, is_fp16, is_int4, w4_paired, is_wide, inw, rows, lines}

-- `w4v`
unfoldable pub w4_plain : JobEnvironment → Job → Bool
w4_plain env job = is_int4 job.mm.wdtype && not env.w4_bitpat

-- the value of 0x3020: the output channels, less one
unfoldable pub channels_word : JobEnvironment → Job → ℕ
channels_word env job =
    let n = job.mm.n in
    if w4_plain env job
    then pred32 n
    else if w4_paired env job.mm
    then pred32 (u32 (2 * n))
    else if is_int4 job.mm.wdtype && ltb 8 n
    then pred32 (u32 (2 * sub32 (align_up n 16) 8))
    else pred32 n

unfoldable pub core_entries : JobEnvironment → Job → List Entry
core_entries env job =
    put core 0x3018 (if w4_plain env job || is_fp16 job.mm.wdtype then 0x10000200 else 0x10000001)
    ∷ put core 0x301c (
        if is_wide env job
        then hi_lo (pred32 (rows env job)) (pred32 (inw env job))
        else if w4_plain env job && not env.w4_301c_high
        then lines env job
        else hi_lo (lines env job) 0)
    ∷ put core 0x3020 (channels_word env job)
    ∷ put core 0x3024 0
    ∷ []
