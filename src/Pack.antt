-- ===== src/Pack.antt =====
-- The fp16 surface of the V cache, src/regcmd.c: charsiu_fp16_regrow_vcols, which gives the columns of a
-- surface room for more positions. A surface is a function from the index of a half to its bits.
pub mod Groups
pub mod Writes
mod Place
pub mod Regrow
pub mod Columns
pub mod Input
mod Tests
use charsiu.Prelude.{
  Option, if◌then◌else◌, leb, ltb, none, not, some, suc, u32, zero, ℕ, ◌%◌, ◌&&◌, ◌*◌, ◌+◌, ◌-◌,
  ◌/◌, ◌==◌, ◌||◌,
}
use charsiu.Matmul.{Environment, Matmul, fp16, weight_ngroup, weight_kgroup, k_eff, align_up}
use charsiu.Matmul.Tile.{group, w16_offset}

-- memmove of `len` halves, and memset to 0 of `len` halves
unfoldable pub memmove : (ℕ → ℕ) → ℕ → (ℕ → ℕ) → ℕ → ℕ → (ℕ → ℕ)
memmove dst at src from len i =
    if leb at i && ltb i (at + len) then src (from + (i - at)) else dst i

unfoldable pub memset_zero : (ℕ → ℕ) → ℕ → ℕ → (ℕ → ℕ)
memset_zero dst at len i = if leb at i && ltb i (at + len) then 0 else dst i

-- the shape of a surface of `kv` positions, for heads of `hd` channels
abbrev pub vcols : ℕ → ℕ → Matmul
vcols kv hd = record { m = 1; k = kv; n = hd; wdtype = fp16; adtype = fp16 }

-- how many channels the group that begins at `n0` has
abbrev pub group_size : ℕ → ℕ → ℕ
group_size np n0 = if ltb (np - n0) (weight_ngroup fp16) then np - n0 else weight_ngroup fp16

-- one group of charsiu_fp16_regrow_vcols, in place where `src` is `none`; `live` is rounded to whole tiles
unfoldable pub regrow_group :
    Environment → ℕ → ℕ → ℕ → ℕ → Option (ℕ → ℕ) → (ℕ → ℕ) → ℕ → Option (ℕ → ℕ)
unfolding memmove memset_zero
regrow_group env kv_new kv_old hd live src dst n0 =
    let ngsz = group_size (align_up hd 2) n0 in
    let len =
      u32 (live + weight_kgroup fp16 - 1) / weight_kgroup fp16 * weight_kgroup fp16 * ngsz in
    elim (w16_offset env (vcols kv_old hd) n0 0 group) [
      | none ↦ none
      | some oo ↦ elim (w16_offset env (vcols kv_new hd) n0 0 group) [
        | none ↦ none
        | some on ↦ elim src [
          | some s ↦ some (memmove dst (on / 2) s (oo / 2) len)
          | none ↦
              let moved = memmove dst (on / 2) dst (oo / 2) len in
              let blk = ngsz * k_eff env (vcols kv_new hd) in
              some (if ltb len blk then memset_zero moved (on / 2 + len) (blk - len) else moved)
        ]
      ]
    ]

-- the loop, from the last group down to the first: `groups` of them are left
unfoldable pub regrow_groups :
    Environment → ℕ → ℕ → ℕ → ℕ → Option (ℕ → ℕ) → ℕ → (ℕ → ℕ) → Option (ℕ → ℕ)
unfolding regrow_group
regrow_groups env kv_new kv_old hd live src zero dst = some dst
regrow_groups env kv_new kv_old hd live src (suc g) dst =
    elim (regrow_group env kv_new kv_old hd live src dst (g * weight_ngroup fp16)) [
      | none ↦ none
      | some next ↦ regrow_groups env kv_new kv_old hd live src g next
    ]

-- charsiu_fp16_regrow_vcols, for pointers that are not null; `none` is -1
unfoldable pub regrow_vcols :
    Environment → (ℕ → ℕ) → ℕ → Option (ℕ → ℕ) → ℕ → ℕ → ℕ → Option (ℕ → ℕ)
unfolding regrow_groups
regrow_vcols env dst kv_new src kv_old hd live =
    if hd == 0 || live == 0 || ltb kv_new kv_old || ltb kv_old live
    then none
    else if not (k_eff env (vcols kv_old hd) % weight_kgroup fp16 == 0)
        || not (k_eff env (vcols kv_new hd) % weight_kgroup fp16 == 0)
    then none
    else regrow_groups env kv_new kv_old hd live src ((align_up hd 2 - 1) / weight_ngroup fp16 + 1)
        dst
