-- ===== src/Gguf/Open.antt =====
-- gguf_open of src/gguf.c, from the mapped bytes on: the header, the key table, the tensor table and the
-- checks on it. Opening and mapping the file, and an allocation that fails, are left out.
use charsiu.Prelude.{
  Bool, List, Option, [], drop, false, if◌then◌else◌, leb, length, ltb, none, not, replicate, some,
  suc, take, true, u64, zero, ℕ, ◌%◌, ◌&&◌, ◌*◌, ◌++◌, ◌+◌, ◌-◌, ◌/◌, ◌==◌, ◌||◌, ◌∷◌,
}
use charsiu.Gguf.{Cur, cur_take, cur_number, cur_u32, cur_u64, cur_str}
use charsiu.Gguf.Values.{Value, unsigned, read_value, v_u32}
use charsiu.Gguf.Lookup.{Entry, find, bytes_eq}

-- `struct type_traits` without the name
pub record Traits : Type 0 where
  pub blck : ℕ
  pub size : ℕ

-- traits_of: the types of `enum ggml_type` that have a row in the table
unfoldable pub traits_of : ℕ → Option Traits
traits_of t =
    if t == 0
    then some (record { blck = 1; size = 4 })
    else if t == 1
    then some (record { blck = 1; size = 2 })
    else if t == 2
    then some (record { blck = 32; size = 18 })
    else if t == 3
    then some (record { blck = 32; size = 20 })
    else if t == 8
    then some (record { blck = 32; size = 34 })
    else if t == 14
    then some (record { blck = 256; size = 210 })
    else if t == 30
    then some (record { blck = 1; size = 2 })
    else none

-- `struct gguf_tensor`; `ne` has four places, of which the dimensions that the file gives come first
pub record Tensor : Type 0 where
  pub name : List ℕ
  pub n_dims : ℕ
  pub ne : List ℕ
  pub type : ℕ
  pub offset : ℕ
  pub nbytes : ℕ

-- `struct gguf`: `data` is the offset of the tensor data in the file
pub record Gguf : Type 0 where
  pub version : ℕ
  pub kv : List Entry
  pub tensors : List Tensor
  pub alignment : ℕ
  pub data_off : ℕ
  pub map_size : ℕ

-- the key table, entry by entry; `none` stands for `goto fail`
unfoldable pub read_entries : ℕ → Cur → Option (List Entry) × Cur
unfolding read_value
read_entries zero c = (some [], c)
read_entries (suc n) c =
    let (k, c1) = cur_str c in
    elim k [
      | none ↦ (none, c1)
      | some key ↦
          let (vt, c2) = cur_u32 c1 in
          let (v, c3) = read_value vt c2 in
          elim v [
            | none ↦ (none, c3)
            | some value ↦
                let (es, c4) = read_entries n c3 in
                (
                  elim es [
                    | none ↦ none
                    | some more ↦ some (record { key = key; type = vt; value = value } ∷ more)
                  ],
                  c4,
                )
          ]
    ]

-- `general.alignment`
abbrev pub alignment_key : List ℕ
alignment_key =
    103 ∷ 101 ∷ 110 ∷ 101 ∷ 114 ∷ 97 ∷ 108 ∷ 46 ∷ 97 ∷ 108 ∷ 105 ∷ 103 ∷ 110 ∷ 109 ∷ 101 ∷ 110 ∷ 116
    ∷ []

abbrev pub unsigned_of : Value → ℕ
unsigned_of (unsigned v) = v
unsigned_of _ = 0

-- 32, unless the key is there as a u32 that is not 0
unfoldable pub alignment_of : List Entry → ℕ
unfolding find
alignment_of es = elim (find es alignment_key) [
  | none ↦ 32
  | some e ↦ if e.type == v_u32 && not (unsigned_of e.value == 0) then unsigned_of e.value else 32
]

-- the loop over the dimensions
unfoldable pub read_dims : ℕ → Cur → List ℕ × Cur
read_dims zero c = ([], c)
read_dims (suc n) c = let (d, c') = cur_u64 c in let (ds, c'') = read_dims n c' in (d ∷ ds, c'')

-- `ne *= t->ne[d]`, which wraps at 64 bits
unfoldable pub elements : List ℕ → ℕ
elements [] = 1
elements (d ∷ ds) = u64 (d * elements ds)

-- `nbytes` from the type and the number of elements; `none` where they are no whole blocks
unfoldable pub tensor_bytes : ℕ → ℕ → Option ℕ
unfolding traits_of
tensor_bytes type ne = elim (traits_of type) [
  | none ↦ some 0
  | some tt' ↦ if ne % tt'.blck == 0 then some (u64 (ne / tt'.blck * tt'.size)) else none
]

-- the name is cut to the 80 bytes of its array, NUL included
abbrev pub name_of : List ℕ → List ℕ
name_of bytes = if ltb (length bytes) 80 then bytes else take 79 bytes

unfoldable pub read_tensor : Cur → Option Tensor × Cur
unfolding read_dims elements tensor_bytes
read_tensor c =
    let (nm, c1) = cur_str c in
    elim nm [
      | none ↦ (none, c1)
      | some name ↦
          let (n_dims, c2) = cur_u32 c1 in
          if ltb 4 n_dims
          then (none, c2)
          else let (dims, c3) = read_dims n_dims c2 in
            let (type, c4) = cur_u32 c3 in
            let (offset, c5) = cur_u64 c4 in
            if c5.bad then (none, c5) else (
              elim (tensor_bytes type (elements dims)) [
                | none ↦ none
                | some nbytes ↦ some (record {
                  name = name_of name;
                  n_dims = n_dims;
                  ne = dims ++ replicate (4 - n_dims) 1;
                  type = type;
                  offset = offset;
                  nbytes = nbytes;
                })
              ],
              c5,
            )
    ]

unfoldable pub read_tensors : ℕ → Cur → Option (List Tensor) × Cur
unfolding read_tensor
read_tensors zero c = (some [], c)
read_tensors (suc n) c =
    let (t, c1) = read_tensor c in
    elim t [
      | none ↦ (none, c1)
      | some tensor ↦
          let (ts, c2) = read_tensors n c1 in
          (elim ts [ none ↦ none | some more ↦ some (tensor ∷ more) ], c2)
    ]

-- the next alignment boundary
unfoldable pub align_offset : ℕ → ℕ → ℕ
align_offset off alignment = u64 (off + alignment - 1) / alignment * alignment

-- `t->offset + t->nbytes > g->map_size - off` refuses; the sum wraps at 64 bits
unfoldable pub tensor_fits : ℕ → ℕ → Tensor → Bool
tensor_fits map_size off t = leb (u64 (t.offset + t.nbytes)) (map_size - off)

unfoldable pub all_fit : ℕ → ℕ → List Tensor → Bool
unfolding tensor_fits
all_fit map_size off [] = true
all_fit map_size off (t ∷ ts) = tensor_fits map_size off t && all_fit map_size off ts

-- the checks after the tables
unfoldable pub place_data : ℕ → ℕ → List Entry → List Tensor → ℕ → Option Gguf
unfolding align_offset all_fit alignment_of
place_data map_size version es ts at =
    let alignment = alignment_of es in
    let off = align_offset at alignment in
    if ltb map_size off
    then none
    else if all_fit map_size off ts
    then some (record {
      version = version;
      kv = es;
      tensors = ts;
      alignment = alignment;
      data_off = off;
      map_size = map_size;
    })
    else none

-- the tables, for a header with these counts
unfoldable pub read_tables : ℕ → ℕ → ℕ → ℕ → Cur → Option Gguf
unfolding read_entries read_tensors place_data
read_tables map_size version n_tensors n_kv c =
    let (es, c1) = read_entries n_kv c in
    elim es [
      | none ↦ none
      | some entries ↦
          let (ts, c2) = read_tensors n_tensors c1 in
          elim ts [
            | none ↦ none
            | some tensors ↦ place_data map_size version entries tensors (map_size - length c2.rest)
          ]
    ]

abbrev pub magic : List ℕ
magic = b'G' ∷ b'G' ∷ b'U' ∷ b'F' ∷ []

-- gguf_open, from the bytes of the file
unfoldable pub open_bytes : List ℕ → Option Gguf
unfolding read_tables cur_take cur_number
open_bytes file =
    if ltb (length file) 24
    then none
    else let c : Cur = record { rest = drop 4 file; bad = false } in
      if not (bytes_eq (take 4 file) magic)
      then none
      else let (version, c1) = cur_u32 c in
        if ltb version 2 || ltb 3 version
        then none
        else let (n_tensors, c2) = cur_u64 c1 in
          let (n_kv, c3) = cur_u64 c2 in
          if c3.bad || (ltb 100000 n_tensors || ltb 100000 n_kv)
          then none
          else read_tables (length file) version n_tensors n_kv c3
