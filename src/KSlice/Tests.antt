-- ===== src/KSlice/Tests.antt =====
-- Runs and instances of the theorems on the slices of src/kslice.h.
use charsiu.Prelude.{[], arith, false, refl, true, ◌∷◌, ◌≡◌}
use charsiu.KSlice.{even_k_base, slice_kw, slice_count, slice_k0, slice_step, rounded_base}
use charsiu.KSlice.Tiling.{Tiles, slices, slices_from, slices-Tiles}
use charsiu.KSlice.Count.{slice_count-Tiles}

-- Qwen2.5's 8960 at KMAX 2048: four full slices and a rest, or five of 1792
uneven_8960 :
    slices 8960 5 2048 false false
    ≡ (0, 2048) ∷ (2048, 2048) ∷ (4096, 2048) ∷ (6144, 2048) ∷ (8192, 768) ∷ []
unfolding slices slices_from slice_k0 slice_kw slice_step even_k_base
uneven_8960 = refl

even_8960 : even_k_base 8960 5 2048 true false ≡ 1792
unfolding even_k_base rounded_base
even_8960 = refl

count_kfit : slice_count 8960 2048 2048 true false ≡ 4
unfolding slice_count
count_kfit = refl

slices-Tiles_example : Tiles 0 3072 (slices 3072 2 2048 true false)
slices-Tiles_example =
    slices-Tiles true false (omega arith) (omega arith) (omega arith) (omega arith) (omega arith)
      (omega arith)

slice_count-Tiles_example :
    Tiles 0 8960 (slices 8960 (slice_count 8960 2048 2048 true false) 2048 false true)
slice_count-Tiles_example =
    slice_count-Tiles 8960 2048 2048 false true false (omega arith) (omega arith) (omega arith)
      (omega arith)
