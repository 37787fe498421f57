-- ===== src/Stream/Patch.antt =====
-- charsiu_patch_weight_addr of src/job.c: another weight's address in a stream that is there already, in
-- place of a new emission.
use charsiu.Prelude.{
  Bool, Bool-cases, List, Option, [], ap, ap₂, arith, false, if◌then◌else◌, inl, inr, leb, length,
  length-map, ltb, map, map-append, max, none, not, refl, some, sym, true, u32, ℕ, ◌%◌, ◌&&◌, ◌*◌,
  ◌++◌, ◌+◌, ◌/◌, ◌<◌, ◌==◌, ◌^◌, ◌||◌, ◌∙◌, ◌∷◌, ◌≡◌,
}
use charsiu.Stream.{Entry, put, cna, word, value_of, override_for, zeros}
use charsiu.Stream.Emission.{emitted, stream-all}
use charsiu.Stream.Job.{
  JobEnvironment, Job, is_fp16, is_int4, is_wide, inw, rows, surf, lines, split,
}
use charsiu.Stream.Job.Requant.{requant_of}
use charsiu.Stream.Job.Cna.{
  head_entries, shape_entries, window_entries, address_entries, u28_entries, windowed, window_word,
  fp16_window,
}
use charsiu.Stream.Job.Core.{core_entries, w4_plain, channels_word}
use charsiu.Stream.Job.Dpu.{
  output_entries, stage_entries, requant_entries, tail_entries, wide8, w4_dpu, wide, one_position,
  surface_add,
}
use charsiu.Stream.Job.Rdma.{rdma_entries, enable_entries, masked}
use charsiu.Stream.Job.Entries.{entries_before, entries_after, job_entries, emit_own}
use charsiu.Stream.Emit.{VendorFiles, emit_job, emit_job-emit_own}

-- is this word the weights' address?
unfoldable pub is_weight_word : ℕ → Bool
is_weight_word w = w / 2 ^ 48 == cna && w % 2 ^ 16 == 0x1110

-- the loop of charsiu_patch_weight_addr: the stream, and `hits`
unfoldable pub patch_weight_addr : List ℕ → ℕ → List ℕ × ℕ
unfolding is_weight_word
patch_weight_addr [] addr = ([], 0)
patch_weight_addr (w ∷ ws) addr =
    let (rest, hits) = patch_weight_addr ws addr in
    if is_weight_word w then (word cna 0x1110 addr ∷ rest, hits + 1) else (w ∷ rest, hits)

-- does the entry set the weights' address, and what does the patch make of it?
unfoldable pub sets_weight : Entry → Bool
sets_weight e = e.target == cna && e.reg == 0x1110

patched : ℕ → Entry → Entry
unfolding sets_weight
patched addr e = if sets_weight e then put cna 0x1110 addr else e

weight_sets : List Entry → ℕ
weight_sets [] = 0
weight_sets (e ∷ es) = (if sets_weight e then 1 else 0) + weight_sets es

-- an entry whose unit and register have 16 bits
are_registers : List Entry → Bool
are_registers [] = true
are_registers (e ∷ es) = ltb e.reg (2 ^ 16) && are_registers es

is_weight_word-emitted :
    (ov : List (ℕ × ℕ)) (e : Entry) → e.reg < 2 ^ 16 → is_weight_word (emitted ov e) ≡ sets_weight e
unfolding is_weight_word emitted word sets_weight
is_weight_word-emitted ov e h =
    let v = u32 (value_of ov e) in
    let small : v < 2 ^ 32 = omega arith in
    let target : (e.target * 2 ^ 48 + v * 2 ^ 16 + e.reg) / 2 ^ 48 ≡ e.target = omega arith in
    let reg : (e.target * 2 ^ 48 + v * 2 ^ 16 + e.reg) % 2 ^ 16 ≡ e.reg = omega arith in
    ap₂ (λ (t : ℕ) (r : ℕ). t == cna && r == 0x1110) target reg

patched_yes : (addr : ℕ) (e : Entry) → sets_weight e ≡ true → patched addr e ≡ put cna 0x1110 addr
unfolding patched
patched_yes addr e y = rw (y, patched) refl

patched_no : (addr : ℕ) (e : Entry) → sets_weight e ≡ false → patched addr e ≡ e
unfolding patched
patched_no addr e n = rw (n, patched) refl

emitted-put :
    (ov : List (ℕ × ℕ)) (addr : ℕ)
    → override_for ov 0x1110 ≡ none
    → emitted ov (put cna 0x1110 addr) ≡ word cna 0x1110 addr
unfolding emitted value_of
emitted-put ov addr h = rw (h, value_of) refl

patch_weight_addr-map :
    (ov : List (ℕ × ℕ)) (addr : ℕ) (es : List Entry)
    → override_for ov 0x1110 ≡ none
    → are_registers es ≡ true
    → patch_weight_addr (map (emitted ov) es) addr
      ≡ (map (emitted ov) (map (patched addr) es), weight_sets es)
unfolding patch_weight_addr are_registers weight_sets
patch_weight_addr-map ov addr [] h r = refl
patch_weight_addr-map ov addr (e ∷ es) h r =
    let fits : e.reg < 2 ^ 16 = ground arith in
    let later = patch_weight_addr-map ov addr es h (ground arith) in
    let seen = is_weight_word-emitted ov e fits in
    elim (Bool-cases (sets_weight e)) [
      | inl y ↦
          let own = ap (emitted ov) (patched_yes addr e y) ∙ emitted-put ov addr h in
          rw (seen, y, later, own)
            (ap (λ (k : ℕ). (word cna 0x1110 addr ∷ map (emitted ov) (map (patched addr) es), k))
              (omega arith))
      | inr n ↦
          rw (seen, n, later, patched_no addr e n)
            (ap (λ (k : ℕ). (emitted ov e ∷ map (emitted ov) (map (patched addr) es), k))
              (omega arith))
    ]

-- entries that leave the weights' address alone are not patched
are_plain : List Entry → Bool
are_plain [] = true
are_plain (e ∷ es) = not (sets_weight e) && are_plain es

map-patched_plain : (addr : ℕ) (es : List Entry) → are_plain es ≡ true → map (patched addr) es ≡ es
unfolding are_plain
map-patched_plain addr [] h = refl
map-patched_plain addr (e ∷ es) h =
    ap₂ (λ (x : Entry) (xs : List Entry). x ∷ xs) (patched_no addr e (ground arith))
      (map-patched_plain addr es (ground arith))

weight_sets-plain : (es : List Entry) → are_plain es ≡ true → weight_sets es ≡ 0
unfolding are_plain weight_sets
weight_sets-plain [] h = refl
weight_sets-plain (e ∷ es) h = ground (arith, weight_sets-plain es)

weight_sets-append : (xs ys : List Entry) → weight_sets (xs ++ ys) ≡ weight_sets xs + weight_sets ys
unfolding weight_sets
weight_sets-append [] ys = omega arith
weight_sets-append (x ∷ xs) ys = omega (arith, weight_sets-append xs ys)

are_registers-append :
    (xs ys : List Entry)
    → are_registers xs ≡ true
    → are_registers ys ≡ true
    → are_registers (xs ++ ys) ≡ true
unfolding are_registers
are_registers-append [] ys h k = k
are_registers-append (x ∷ xs) ys h k = ground (arith, are_registers-append xs ys (ground arith) k)

before-plain :
    (env : JobEnvironment) (job : Job)
    → (are_plain (entries_before env job) ≡ true) × (are_registers (entries_before env job) ≡ true)
unfolding are_plain are_registers sets_weight entries_before head_entries shape_entries
    window_entries zeros
before-plain env job = (refl, refl)

u28_entries-plain :
    (env : JobEnvironment) (job : Job) (es : List Entry)
    → are_plain es ≡ true
    → are_registers es ≡ true
    → (are_plain (u28_entries env job ++ es) ≡ true)
      × (are_registers (u28_entries env job ++ es) ≡ true)
unfolding are_plain are_registers sets_weight u28_entries
u28_entries-plain env job es p r =
    elim (Bool-cases (is_int4 job.mm.wdtype || is_fp16 job.mm.wdtype)) [
      | inl y ↦ rw y (p, r)
      | inr n ↦ rw n (p, r)
    ]

after-plain :
    (env : JobEnvironment) (job : Job)
    → (are_plain (entries_after env job) ≡ true) × (are_registers (entries_after env job) ≡ true)
unfolding are_plain are_registers sets_weight entries_after core_entries output_entries
    stage_entries requant_entries tail_entries rdma_entries enable_entries zeros
after-plain env job = u28_entries-plain env job _ refl refl

addresses-patched :
    (env : JobEnvironment) (job : Job) (addr : ℕ)
    → (map (patched addr) (address_entries env job)
        ≡ address_entries env (record job { weight_addr = addr }))
      × (weight_sets (address_entries env job) ≡ 1)
      × (are_registers (address_entries env job) ≡ true)
unfolding patched sets_weight weight_sets are_registers address_entries fp16_window inw rows is_wide
addresses-patched env job addr = (refl, refl, refl)

same-before :
    (env : JobEnvironment) (job : Job) (addr : ℕ)
    → entries_before env (record job { weight_addr = addr }) ≡ entries_before env job
unfolding entries_before head_entries shape_entries window_entries window_word windowed inw rows
    is_wide surf split
same-before env job addr = refl

same-after :
    (env : JobEnvironment) (job : Job) (addr : ℕ)
    → entries_after env (record job { weight_addr = addr }) ≡ entries_after env job
unfolding entries_after u28_entries core_entries output_entries stage_entries requant_entries
    tail_entries rdma_entries windowed inw rows is_wide lines w4_plain channels_word wide8 w4_dpu
    wide one_position surface_add masked requant_of
same-after env job addr = refl

job_entries-patched :
    (env : JobEnvironment) (job : Job) (addr : ℕ)
    → map (patched addr) (job_entries env job) ≡ job_entries env (record job { weight_addr = addr })
unfolding job_entries
job_entries-patched env job addr =
    let b = before-plain env job in
    let a = addresses-patched env job addr in
    let c = after-plain env job in
    map-append (patched addr) (entries_before env job) _
    ∙ ap₂ (λ (x : List Entry) (y : List Entry). x ++ y)
        (map-patched_plain addr (entries_before env job) b.0 ∙ sym (same-before env job addr))
        (map-append (patched addr) (address_entries env job) _
          ∙ ap₂ (λ (x : List Entry) (y : List Entry). x ++ y) a.0
              (map-patched_plain addr (entries_after env job) c.0 ∙ sym (same-after env job addr)))

-- the words of a stream that was emitted, patched, with `hits`
abbrev pub patch_emitted : Option (List ℕ) → ℕ → Option (List ℕ × ℕ)
patch_emitted none addr = none
patch_emitted (some s) addr = some (patch_weight_addr s addr)

job_entries-registers :
    (env : JobEnvironment) (job : Job)
    → (are_registers (job_entries env job) ≡ true) × (weight_sets (job_entries env job) ≡ 1)
unfolding job_entries
job_entries-registers env job =
    let b = before-plain env job in
    let a = addresses-patched env job 0 in
    let c = after-plain env job in
    let later = are_registers-append (address_entries env job) (entries_after env job) a.2 c.1 in
    let set : weight_sets (address_entries env job ++ entries_after env job) ≡ 1 =
      weight_sets-append (address_entries env job) (entries_after env job)
      ∙ ap₂ (λ (x : ℕ) (y : ℕ). x + y) a.1 (weight_sets-plain (entries_after env job) c.0) in
    (
      are_registers-append (entries_before env job) _ b.1 later,
      weight_sets-append (entries_before env job) _
          ∙ ap₂ (λ (x : ℕ) (y : ℕ). x + y) (weight_sets-plain (entries_before env job) b.0) set,
    )

-- the job's own stream
patch_weight_addr-emit_own :
    (env : JobEnvironment) (job : Job) (max addr : ℕ)
    → override_for env.overrides 0x1110 ≡ none
    → patch_emitted (emit_own env job max) addr
      ≡ (elim (emit_own env (record job { weight_addr = addr }) max) [
        | none ↦ none
        | some s ↦ some (s, 1)
      ])
unfolding emit_own
patch_weight_addr-emit_own env job max addr h =
    let es = job_entries env job in
    let other = job_entries env (record job { weight_addr = addr }) in
    let same = job_entries-patched env job addr in
    let long : length other ≡ length es =
      sym (ap (λ (x : List Entry). length x) same) ∙ length-map es (patched addr) in
    let set = job_entries-registers env job in
    let words : patch_weight_addr (map (emitted env.overrides) es) addr
        ≡ (map (emitted env.overrides) other, 1) =
      patch_weight_addr-map env.overrides addr es h set.0
      ∙ ap₂ (λ (x : List Entry) (k : ℕ). (map (emitted env.overrides) x, k)) same set.1 in
    elim (Bool-cases (leb (length es) max)) [
      | inl y ↦
          rw (stream-all env.overrides max es, stream-all env.overrides max other, long, y)
            (ap (λ (p : List ℕ × ℕ). some p) words)
      | inr n ↦
          rw (stream-all env.overrides max es, stream-all env.overrides max other, long, n) refl
    ]

-- Where neither CHARSIU_VENDOR_STREAM nor CHARSIU_VENDOR_MERGE gives any words and CHARSIU_OVERRIDE does not
-- name 0x1110, patching the weights' address in the stream of a job gives the stream of the job with that
-- address, every word of it, and one word is a hit; with no stream emitted there is none to patch, and the
-- other job has none either.
pub patch_weight_addr-emit_job :
    (env : JobEnvironment) (files : VendorFiles) (job : Job) (max addr : ℕ)
    → files.stream_file ≡ []
    → files.merge_file ≡ []
    → override_for env.overrides 0x1110 ≡ none
    → patch_emitted (emit_job env files job max) addr
      ≡ (elim (emit_job env files (record job { weight_addr = addr }) max) [
        | none ↦ none
        | some s ↦ some (s, 1)
      ])
patch_weight_addr-emit_job env files job max addr s m h =
    rw
      (
        emit_job-emit_own env files job max s m,
        emit_job-emit_own env files (record job { weight_addr = addr }) max s m,
      )
      (patch_weight_addr-emit_own env job max addr h)
