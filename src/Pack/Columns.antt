-- ===== src/Pack/Columns.antt =====
-- The packers of src/regcmd.c that write single rows and columns: charsiu_fp16_pack_krow,
-- charsiu_fp16_pack_vcol and charsiu_pack_weights_rows. Floats are their bits, and charsiu_f2h is an
-- argument.
pub mod Placed
use charsiu.Prelude.{
  Option, if◌then◌else◌, leb, ltb, none, some, sub64, suc, u8, zero, ℕ, ◌%◌, ◌*◌, ◌+◌, ◌-◌, ◌/◌,
  ◌==◌,
}
use charsiu.Matmul.{
  Environment, Matmul, Dtype, int4, int8, fp16, is_int4, k_eff, align_up, weight_bytes,
}
use charsiu.Matmul.Tile.{w_group_index, group, w16_offset}
use charsiu.Pack.{vcols}
use charsiu.Pack.Writes.{store, write_cells, write_rows}

-- the smaller of what is left of an axis and a group of it
abbrev pub run_of : ℕ → ℕ → ℕ → ℕ
run_of total at size = if ltb (total - at) size then total - at else size

-- the shape of the K cache: `nk` positions of `hd` channels
abbrev pub krows : ℕ → ℕ → Matmul
krows hd nk = record { m = 1; k = hd; n = nk; wdtype = fp16; adtype = fp16 }

-- the loop of charsiu_fp16_pack_krow, from the tile `t` on
unfoldable pub krow_tiles : Environment → (ℕ → ℕ) → ℕ → ℕ → ℕ → (ℕ → ℕ) → ℕ → ℕ → (ℕ → ℕ) → (ℕ → ℕ)
unfolding w16_offset write_cells
krow_tiles env f2h hd nk pos k t zero dst = dst
krow_tiles env f2h hd nk pos k t (suc tiles) dst =
    elim (w16_offset env (krows hd nk) pos (t * 32) group) [
      | none ↦ dst
      | some off ↦
          krow_tiles env f2h hd nk pos k (suc t) tiles
            (write_cells (λ i. off / 2 + i) (λ i. f2h (k (t * 32 + i))) (run_of hd (t * 32) 32) dst)
    ]

-- charsiu_fp16_pack_krow
unfoldable pub pack_krow : Environment → (ℕ → ℕ) → (ℕ → ℕ) → ℕ → ℕ → ℕ → (ℕ → ℕ) → (ℕ → ℕ)
unfolding krow_tiles
pack_krow env f2h dst hd nk pos k = krow_tiles env f2h hd nk pos k 0 ((hd + 31) / 32) dst

-- the step between two channels of the group that begins at `n0`: 0 for a single channel; `none` stands
-- for an offset that is (size_t)-1
unfoldable pub stride_of : Environment → ℕ → ℕ → ℕ → ℕ → ℕ → Option ℕ
unfolding w16_offset
stride_of env kv hd n0 pos o0 =
    if ltb 1 (run_of hd n0 16)
    then elim (w16_offset env (vcols kv hd) (n0 + 1) pos group) [
      | none ↦ none
      | some o1 ↦ some (sub64 o1 o0 / 2)
    ]
    else some 0

-- the loop of charsiu_fp16_pack_vcol, from the group `g` on
unfoldable pub vcol_groups : Environment → (ℕ → ℕ) → ℕ → ℕ → ℕ → (ℕ → ℕ) → ℕ → ℕ → (ℕ → ℕ) → (ℕ → ℕ)
unfolding stride_of write_cells
vcol_groups env f2h kv hd pos v g zero dst = dst
vcol_groups env f2h kv hd pos v g (suc groups) dst =
    elim (w16_offset env (vcols kv hd) (g * 16) pos group) [
      | none ↦ dst
      | some o0 ↦ elim (stride_of env kv hd (g * 16) pos o0) [
        | none ↦ dst
        | some stride ↦ vcol_groups env f2h kv hd pos v (suc g) groups (
            write_cells (λ i. o0 / 2 + i * stride) (λ i. f2h (v (g * 16 + i)))
              (run_of hd (g * 16) 16) dst)
      ]
    ]

-- charsiu_fp16_pack_vcol
unfoldable pub pack_vcol : Environment → (ℕ → ℕ) → (ℕ → ℕ) → ℕ → ℕ → ℕ → (ℕ → ℕ) → (ℕ → ℕ)
unfolding vcol_groups
pack_vcol env f2h dst kv hd pos v = vcol_groups env f2h kv hd pos v 0 ((hd + 15) / 16) dst

-- charsiu_pack_weights_rows for weights that are not int4: each byte less 0x80, at its place in the tile
unfoldable pub pack_bytes : Environment → Matmul → (ℕ → ℕ) → (ℕ → ℕ) → ℕ → ℕ → (ℕ → ℕ)
unfolding w_group_index write_rows
pack_bytes env mm src dst n0 nrows =
    write_rows (w_group_index env mm) (λ n k. u8 (src (n * mm.k + k) + 0x80)) (λ n. mm.k) n0 nrows
      dst

-- the same for int4: one tile of 32 columns of a row, two nibbles to a byte. Of a run of odd length the last
-- byte keeps its upper nibble.
unfoldable pub pack_nibbles : (ℕ → ℕ) → ℕ → ℕ → (ℕ → ℕ) → (ℕ → ℕ)
unfolding write_cells store
pack_nibbles row i run dst =
    let pairs =
      write_cells (λ p. i / 2 + p) (λ p. row (2 * p) % 16 + row (2 * p + 1) % 16 * 16) (run / 2)
        dst in
    if run % 2 == 0
    then pairs
    else store pairs (i / 2 + run / 2) (pairs (i / 2 + run / 2) / 16 % 16 * 16 + row (run - 1) % 16)

-- the tiles of one row, from the tile `t` on; `kmax` columns count, and the row ends early at the capacity
unfoldable pub pack_row : (ℕ → ℕ) → ℕ → ℕ → ℕ → ℕ → ℕ → (ℕ → ℕ) → (ℕ → ℕ)
unfolding pack_nibbles
pack_row row nbase kmax cap t zero dst = dst
pack_row row nbase kmax cap t (suc tiles) dst =
    let i = nbase + t * 512 in
    let run = run_of kmax (t * 32) 32 in
    if leb cap ((i + run - 1) / 2)
    then dst
    else pack_row row nbase kmax cap (suc t) tiles (pack_nibbles (λ c. row (t * 32 + c)) i run dst)

-- the rows, from `n` on
unfoldable pub pack_rows : Environment → Matmul → (ℕ → ℕ) → ℕ → ℕ → (ℕ → ℕ) → (ℕ → ℕ)
unfolding pack_row
pack_rows env mm src n zero dst = dst
pack_rows env mm src n (suc nrows) dst =
    let ke = k_eff env mm in
    let kmax = if ltb mm.k ke then mm.k else ke in
    let nbase = n / 16 * 512 * (align_up ke 32 / 32) + n % 16 * 32 in
    pack_rows env mm src (suc n) nrows
      (pack_row (λ k. src (n * mm.k + k)) nbase kmax (weight_bytes env mm) 0 ((kmax + 31) / 32) dst)

-- charsiu_pack_weights_rows
unfoldable pub pack_weights_rows : Environment → Matmul → (ℕ → ℕ) → (ℕ → ℕ) → ℕ → ℕ → (ℕ → ℕ)
unfolding pack_bytes pack_rows
pack_weights_rows env mm src dst n0 nrows =
    if is_int4 mm.wdtype
    then pack_rows env mm src n0 nrows dst
    else pack_bytes env mm src dst n0 nrows
