-- ===== src/Stream/Job/Entries.antt =====
-- charsiu_emit_job of src/job.c: all the entries of a job in their order. `Stream.Emit` has the vendor's files.
use charsiu.Prelude.{List, Option, max, ℕ, ◌++◌}
use charsiu.Stream.{Entry, stream}
use charsiu.Stream.Job.{JobEnvironment, Job}
use charsiu.Stream.Job.Cna.{
  head_entries, shape_entries, window_entries, address_entries, u28_entries,
}
use charsiu.Stream.Job.Core.{core_entries}
use charsiu.Stream.Job.Dpu.{output_entries, stage_entries, requant_entries, tail_entries}
use charsiu.Stream.Job.Rdma.{rdma_entries, enable_entries}

-- the entries before and after the addresses
unfoldable pub entries_before : JobEnvironment → Job → List Entry
entries_before env job = head_entries env job ++ (shape_entries env job ++ window_entries env job)

unfoldable pub entries_after : JobEnvironment → Job → List Entry
entries_after env job =
    u28_entries env job
    ++ (core_entries env job
        ++ (output_entries env job
            ++ (stage_entries env job
                ++ (requant_entries env job
                    ++ (tail_entries env job ++ (rdma_entries env job ++ enable_entries))))))

unfoldable pub job_entries : JobEnvironment → Job → List Entry
job_entries env job = entries_before env job ++ (address_entries env job ++ entries_after env job)

-- the job's own stream in a buffer of `max` entries; `none` is the result 0
unfoldable pub emit_own : JobEnvironment → Job → ℕ → Option (List ℕ)
emit_own env job max = stream env.overrides max (job_entries env job)
