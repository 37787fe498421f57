-- ===== src/Tokenizer/Heap/Size.antt =====
-- What the heap operations of src/tokenizer.c do to the number of candidates.
use charsiu.Prelude.{
  Bool, Bool-cases, List, Option-cases, [], arith, get_elem?, inl, inr, length, length-append,
  length-set, length-take, ltb, none, refl, set, some, suc, zero, ℕ, ◌&&◌, ◌*◌, ◌++◌, ◌+◌, ◌-◌, ◌/◌,
  ◌==◌, ◌∙◌, ◌∷◌, ◌≡◌, ◌⊎◌,
}
use charsiu.Tokenizer.Heap.{
  better_at, swap, sift_up, heap_push, pick, sift_down, last_to_front, heap_pop,
}

module _ {A : Type 0} (better : A → A → Bool) where
  length-swap : (h : List A) (i j : ℕ) → length (swap better h i j) ≡ length h
  unfolding swap
  length-swap h i j = elim (Option-cases (get_elem? h i)) [
    | inl n ↦ rw (n, swap) refl
    | inr (x, a) ↦ elim (Option-cases (get_elem? h j)) [
      | inl n ↦ rw (a, n, swap) refl
      | inr (y, b) ↦ rw (a, b, swap) (length-set (set h i y) j x ∙ length-set h i y)
    ]
  ]

  length-sift_up : (fuel : ℕ) (h : List A) (i : ℕ) → length (sift_up better fuel h i) ≡ length h
  unfolding sift_up
  length-sift_up zero h i = refl
  length-sift_up (suc fuel) h i =
      let p = (i - 1) / 2 in
      elim (Bool-cases (ltb 0 i && better_at better h i p)) [
        | inl y ↦ rw (y, sift_up) (length-sift_up fuel (swap better h i p) p ∙ length-swap h i p)
        | inr n ↦ rw (n, sift_up) refl
      ]

  -- a push adds one
  pub length-heap_push : (h : List A) (c : A) → length (heap_push better h c) ≡ suc (length h)
  unfolding heap_push
  length-heap_push h c =
      omega (arith, length-sift_up (length h) (h ++ c ∷ []) (length h), length-append h (c ∷ []))

  length-sift_down : (fuel : ℕ) (h : List A) (i : ℕ) → length (sift_down better fuel h i) ≡ length h
  unfolding sift_down
  length-sift_down zero h i = refl
  length-sift_down (suc fuel) h i =
      let b = pick better h (2 * i + 1 + 1) (pick better h (2 * i + 1) i) in
      elim (Bool-cases (b == i)) [
        | inl y ↦ rw (y, sift_down) refl
        | inr n ↦
            rw (n, sift_down) (length-sift_down fuel (swap better h i b) b ∙ length-swap h i b)
      ]

  get_elem?-last : (x : A) (xs : List A) → (z : A) × (get_elem? (x ∷ xs) (length xs) ≡ some z)
  get_elem?-last x [] = (x, refl)
  get_elem?-last x (y ∷ ys) = get_elem?-last y ys

  length-last_to_front : (x : A) (xs : List A) → length (last_to_front better (x ∷ xs)) ≡ length xs
  unfolding last_to_front
  length-last_to_front x xs =
      let (z, at) = get_elem?-last x xs in
      let one : length (x ∷ xs) - 1 ≡ length xs = omega arith in
      rw (last_to_front, one, at) (omega (arith, length-take (length (x ∷ xs) - 1) (z ∷ xs)))

  -- a pop takes one away, and is refused only by an empty heap
  pub length-heap_pop :
      (h : List A)
      → ((h ≡ []) × (heap_pop better h ≡ none))
        ⊎ ((c : A) × ((h' : List A) × ((heap_pop better h ≡ some (c, h'))
                × (length h ≡ suc (length h')))))
  unfolding heap_pop
  length-heap_pop [] = inl (refl, refl)
  length-heap_pop (x ∷ xs) =
      let rest = last_to_front better (x ∷ xs) in
      inr (
        x,
        (
          sift_down better (length rest) rest 0,
          (refl, omega (arith, length-sift_down (length rest) rest 0, length-last_to_front x xs)),
        ),
      )
