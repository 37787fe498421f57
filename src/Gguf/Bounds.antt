-- ===== src/Gguf/Bounds.antt =====
-- What the checks of gguf_open in src/gguf.c leave true of an opened file, and what tensor_fits accepts.
use charsiu.Prelude.{
  Bool-cases, List, Option-cases, [], arith, drop, false, get_elem?, inl, inr, length, ltb, some,
  suc, take, true, u64, u64_mod, zero, ℕ, ◌%◌, ◌+◌, ◌-◌, ◌/◌, ◌<◌, ◌||◌, ◌↔◌, ◌∷◌, ◌≡◌, ◌≤◌, ◌⊎◌,
}
use native.Mathlib.Nat.{mul-mod_left}
use charsiu.Gguf.{Cur, cur_u32, cur_u64}
use charsiu.Gguf.Lookup.{Entry, bytes_eq}
use charsiu.Gguf.Open.{
  Tensor, Gguf, tensor_fits, all_fit, magic, alignment_of, align_offset, place_data, read_entries,
  read_tensors, read_tables, open_bytes,
}

-- the sum of the check, with its wrap, stays inside the file
fits_le :
    (map_size off : ℕ) (t : Tensor)
    → tensor_fits map_size off t ≡ true
    → u64 (t.offset + t.nbytes) ≤ map_size - off
unfolding tensor_fits
fits_le map_size off t h = ground arith

-- The check of a tensor's place accepts a tensor exactly when it ends inside the file, or when its end
-- passes 2 ^ 64 and what is left of it after the wrap fits.
pub tensor_fits_iff :
    (map_size off : ℕ) (t : Tensor)
    → t.offset < u64_mod
    → t.nbytes < u64_mod
    → map_size < u64_mod
    → off ≤ map_size
    → (tensor_fits map_size off t ≡ true) ↔ (
        (off + t.offset + t.nbytes ≤ map_size)
        ⊎ ((u64_mod ≤ t.offset + t.nbytes) × (off + t.offset + t.nbytes ≤ map_size + u64_mod)))
unfolding tensor_fits
tensor_fits_iff map_size off t ho hn hm hl = ground arith

all_fit_at :
    (map_size off : ℕ) (ts : List Tensor) (i : ℕ) (t : Tensor)
    → all_fit map_size off ts ≡ true
    → get_elem? ts i ≡ some t
    → tensor_fits map_size off t ≡ true
unfolding all_fit
all_fit_at map_size off [] i t h e = ground arith
all_fit_at map_size off (x ∷ xs) zero t h e = ground arith
all_fit_at map_size off (x ∷ xs) (suc i) t h e = all_fit_at map_size off xs i t (ground arith) e

-- What holds of an opened file: its size and version, the aligned start of the data, and each tensor's
-- check, at that size and start.
pub record IsSound (size : ℕ) (g : Gguf) : Type 0 where
  pub size_ok : g.map_size ≡ size
  pub version_ok : (2 ≤ g.version) × (g.version ≤ 3)
  pub start_ok : g.data_off ≤ size
  pub aligned : g.data_off % g.alignment ≡ 0
  pub checked : all_fit size g.data_off g.tensors ≡ true

place_data-IsSound :
    (size version : ℕ) (es : List Entry) (ts : List Tensor) (at : ℕ) (g : Gguf)
    → 2 ≤ version
    → version ≤ 3
    → place_data size version es ts at ≡ some g
    → IsSound size g
unfolding place_data
place_data-IsSound size version es ts at g lo hi e =
    let off = align_offset at (alignment_of es) in
    elim (Bool-cases (ltb size off)) [
      | inl y ↦ ground arith
      | inr n ↦ elim (Bool-cases (all_fit size off ts)) [
        | inl y ↦ ground (
          arith,
          mul-mod_left (u64 (at + alignment_of es - 1) / alignment_of es) (alignment_of es),
        )
        | inr n' ↦ ground arith
      ]
    ]

read_tables-IsSound :
    (size version n_tensors n_kv : ℕ) (c : Cur) (g : Gguf)
    → 2 ≤ version
    → version ≤ 3
    → read_tables size version n_tensors n_kv c ≡ some g
    → IsSound size g
unfolding read_tables
read_tables-IsSound size version n_tensors n_kv c g lo hi e =
    elim (Option-cases (read_entries n_kv c).0) [
      | inl none_e ↦ ground arith
      | inr (es, some_e) ↦ elim (Option-cases (read_tensors n_tensors (read_entries n_kv c).1).0) [
        | inl none_t ↦ ground arith
        | inr (ts, some_t) ↦
            place_data-IsSound size version es ts
              (size - length (read_tensors n_tensors (read_entries n_kv c).1).1.rest) g lo hi
              (ground arith)
      ]
    ]

-- A file that opens has version 2 or 3, its data start at a multiple of the alignment inside the file, and
-- every tensor passed the check.
pub open_bytes-IsSound :
    (file : List ℕ) (g : Gguf) → open_bytes file ≡ some g → IsSound (length file) g
unfolding open_bytes
open_bytes-IsSound file g e =
    let c : Cur = record { rest = drop 4 file; bad = false } in
    let c1 = (cur_u32 c).1 in
    let c2 = (cur_u64 c1).1 in
    let c3 = (cur_u64 c2).1 in
    elim (Bool-cases (ltb (length file) 24)) [
      | inl y ↦ ground arith
      | inr n ↦ elim (Bool-cases (bytes_eq (take 4 file) magic)) [
        | inr n' ↦ ground arith
        | inl y ↦ elim (Bool-cases (ltb (cur_u32 c).0 2 || ltb 3 (cur_u32 c).0)) [
          | inl y' ↦ ground arith
          | inr n' ↦
              elim (Bool-cases
                (c3.bad || (ltb 100000 (cur_u64 c1).0 || ltb 100000 (cur_u64 c2).0))) [
                  | inl y' ↦ ground arith
                  | inr n'' ↦
                      read_tables-IsSound (length file) (cur_u32 c).0 (cur_u64 c1).0 (cur_u64 c2).0
                        c3 g (ground arith) (ground arith) (ground arith)
                ]
        ]
      ]
    ]

-- A tensor of an opened file whose offset and size add up to less than 2 ^ 64 lies inside the file.
pub open_bytes-tensor :
    (file : List ℕ) (g : Gguf) (i : ℕ) (t : Tensor)
    → open_bytes file ≡ some g
    → get_elem? g.tensors i ≡ some t
    → t.offset + t.nbytes < u64_mod
    → g.data_off + t.offset + t.nbytes ≤ length file
open_bytes-tensor file g i t e at h =
    let ok = open_bytes-IsSound file g e in
    let start = ok.start_ok in
    let sum =
      fits_le (length file) g.data_off t
        (all_fit_at (length file) g.data_off g.tensors i t ok.checked at) in
    omega arith
