-- ===== src/Gguf/Tests.antt =====
-- Runs and instances of the theorems on the gguf reader.
use charsiu.Prelude.{
  List, [], arith, refl, replicate, some, true, u64_mod, ℕ, ◌++◌, ◌+◌, ◌-◌, ◌^◌, ◌↔◌, ◌∷◌, ◌≡◌, ◌≤◌,
  ◌⊎◌,
}
use charsiu.Gguf.{le_value, cur_take, cur_number, cur_str}
use charsiu.Gguf.Open.{
  Tensor, Gguf, tensor_fits, traits_of, read_entries, read_tensor, read_tensors, read_dims,
  elements, tensor_bytes, place_data, align_offset, all_fit, alignment_of, read_tables, open_bytes,
}
use charsiu.Gguf.Bounds.{tensor_fits_iff, open_bytes-tensor}

-- version 3, one F32 tensor `w` of two elements and no keys
abbrev file : List ℕ
file =
    (71 ∷ 71 ∷ 85 ∷ 70 ∷ 3 ∷ 0 ∷ 0 ∷ 0 ∷ [])
    ++ (1 ∷ replicate 7 0)
    ++ replicate 8 0
    ++ (1 ∷ replicate 7 0)
    ++ (119 ∷ [])
    ++ (1 ∷ 0 ∷ 0 ∷ 0 ∷ [])
    ++ (2 ∷ replicate 7 0)
    ++ replicate 4 0
    ++ replicate 8 0
    ++ replicate 15 0

abbrev weight : Tensor
weight = record {
  name = 119 ∷ [];
  n_dims = 1;
  ne = 2 ∷ 1 ∷ 1 ∷ 1 ∷ [];
  type = 0;
  offset = 0;
  nbytes = 8;
}

abbrev opened : Gguf
opened = record {
  version = 3;
  kv = [];
  tensors = weight ∷ [];
  alignment = 32;
  data_off = 64;
  map_size = 72;
}

file_opens : open_bytes file ≡ some opened
unfolding open_bytes read_tables cur_take cur_number le_value cur_str read_entries read_tensors
    read_tensor read_dims elements tensor_bytes traits_of place_data align_offset alignment_of
    all_fit tensor_fits
file_opens = refl

tensor_fits_iff_example :
    (tensor_fits 4096 64 (record weight { offset = u64_mod - 32; nbytes = 64 }) ≡ true) ↔ (
      (64 + (u64_mod - 32) + 64 ≤ 4096)
      ⊎ ((u64_mod ≤ u64_mod - 32 + 64) × (64 + (u64_mod - 32) + 64 ≤ 4096 + u64_mod)))
tensor_fits_iff_example =
    tensor_fits_iff 4096 64 (record weight { offset = u64_mod - 32; nbytes = 64 }) (omega arith)
      (omega arith) (omega arith) (omega arith)

open_bytes-tensor_example : 64 + 0 + 8 ≤ 72
open_bytes-tensor_example = open_bytes-tensor file opened 0 weight file_opens refl (omega arith)

-- dimensions of 2 ^ 32 by 2 ^ 32 multiply to nothing
elements_wrap : elements (2 ^ 32 ∷ 2 ^ 32 ∷ []) ≡ 0
unfolding elements
elements_wrap = refl
