-- ===== src/Tokenizer/Heap.antt =====
-- The binary heaps of src/tokenizer.c: heap_push and heap_pop, and their copies spm_heap_push and
-- spm_heap_pop, over the test that says which candidate goes first. The heap is the list of its `n` live
-- elements; the growth of its memory is left out.
pub mod Size
pub mod Members
use charsiu.Prelude.{
  Bool, List, Option, [], false, get_elem?, if◌then◌else◌, length, ltb, none, set, some, suc, take,
  true, zero, ℕ, ◌&&◌, ◌*◌, ◌++◌, ◌+◌, ◌-◌, ◌/◌, ◌==◌, ◌∷◌,
}

module _ {A : Type 0} (better : A → A → Bool) where
  -- is the element at `i` better than the one at `j`?
  unfoldable pub better_at : List A → ℕ → ℕ → Bool
  better_at h i j = elim (get_elem? h i) [
    | none ↦ false
    | some x ↦ elim (get_elem? h j) [ none ↦ false | some y ↦ better x y ]
  ]

  unfoldable pub swap : List A → ℕ → ℕ → List A
  swap h i j = elim (get_elem? h i) [
    | none ↦ h
    | some x ↦ elim (get_elem? h j) [ none ↦ h | some y ↦ set (set h i y) j x ]
  ]

  -- the loop of heap_push from place `i`, which the fuel bounds: the parent's place is smaller
  unfoldable pub sift_up : ℕ → List A → ℕ → List A
  sift_up zero h i = h
  sift_up (suc fuel) h i =
      let p = (i - 1) / 2 in
      elim (ltb 0 i && better_at h i p) [ false ↦ h | true ↦ sift_up fuel (swap h i p) p ]

  unfoldable pub heap_push : List A → A → List A
  heap_push h c = sift_up (length h) (h ++ c ∷ []) (length h)

  -- the better of the element at `b` and the child at `c`
  unfoldable pub pick : List A → ℕ → ℕ → ℕ
  pick h c b = if ltb c (length h) && better_at h c b then c else b

  -- the loop of heap_pop from place `i`; a child's place is larger
  unfoldable pub sift_down : ℕ → List A → ℕ → List A
  sift_down zero h i = h
  sift_down (suc fuel) h i =
      let l = 2 * i + 1 in
      let b = pick h (l + 1) (pick h l i) in
      elim (b == i) [ true ↦ h | false ↦ sift_down fuel (swap h i b) b ]

  -- the last element takes the first one's place
  unfoldable pub last_to_front : List A → List A
  last_to_front h = elim (get_elem? h (length h - 1)) [
    | none ↦ h
    | some z ↦ take (length h - 1) (set h 0 z)
  ]

  unfoldable pub heap_pop : List A → Option (A × List A)
  heap_pop [] = none
  heap_pop (x ∷ xs) = let rest = last_to_front (x ∷ xs) in some (x, sift_down (length rest) rest 0)
