-- ===== src/Tokenizer/Heap/Members.antt =====
-- What the heap operations of src/tokenizer.c keep: what holds of every candidate still holds.
use charsiu.Prelude.{
  Bool, Bool-cases, List, Option-cases, [], ap, arith, get_elem?, inl, inr, length, ltb, refl, set,
  some, subst, suc, sym, take, zero, ℕ, ◌&&◌, ◌*◌, ◌++◌, ◌+◌, ◌-◌, ◌/◌, ◌==◌, ◌∷◌, ◌≡◌, ◌⊎◌,
}
use charsiu.Tokenizer.Heap.{
  better_at, swap, sift_up, heap_push, pick, sift_down, last_to_front, heap_pop,
}

-- what a list has after one of its places was set
pub get_elem?-set_cases :
    {A : Type 0} (xs : List A) (i : ℕ) (v : A) (j : ℕ) (y : A)
    → get_elem? (set xs i v) j ≡ some y
    → ((j ≡ i) × (y ≡ v)) ⊎ (get_elem? xs j ≡ some y)
get_elem?-set_cases [] i v j y h = inr h
get_elem?-set_cases (x ∷ xs) zero v zero y h = inl (refl, ground arith)
get_elem?-set_cases (x ∷ xs) zero v (suc j) y h = inr h
get_elem?-set_cases (x ∷ xs) (suc i) v zero y h = inr h
get_elem?-set_cases (x ∷ xs) (suc i) v (suc j) y h = elim (get_elem?-set_cases xs i v j y h) [
  | inl (e, f) ↦ inl (ap suc e, f)
  | inr e ↦ inr e
]

get_elem?-append_cases :
    {A : Type 0} (xs : List A) (v : A) (j : ℕ) (y : A)
    → get_elem? (xs ++ v ∷ []) j ≡ some y
    → (y ≡ v) ⊎ (get_elem? xs j ≡ some y)
get_elem?-append_cases [] v zero y h = inl (ground arith)
get_elem?-append_cases [] v (suc j) y h = inr h
get_elem?-append_cases (x ∷ xs) v zero y h = inr h
get_elem?-append_cases (x ∷ xs) v (suc j) y h = get_elem?-append_cases xs v j y h

get_elem?-take :
    {A : Type 0} (n : ℕ) (xs : List A) (j : ℕ) (y : A)
    → get_elem? (take n xs) j ≡ some y
    → get_elem? xs j ≡ some y
get_elem?-take zero [] j y h = h
get_elem?-take zero (x ∷ xs) j y h = grind arith
get_elem?-take (suc n) [] j y h = h
get_elem?-take (suc n) (x ∷ xs) zero y h = h
get_elem?-take (suc n) (x ∷ xs) (suc j) y h = get_elem?-take n xs j y h

-- of every element
abbrev pub Every : {A : Type 0} → (A → Type 0) → List A → Type 0
Every {A} P h = (i : ℕ) (x : A) → get_elem? h i ≡ some x → P x

module _ {A : Type 0} (better : A → A → Bool) (P : A → Type 0) where
  Every-set : (h : List A) (i : ℕ) (v : A) → Every P h → P v → Every P (set h i v)
  Every-set h i v all own j x e = elim (get_elem?-set_cases h i v j x e) [
    | inl (k, same) ↦ subst P (sym same) own
    | inr there ↦ all j x there
  ]

  Every-swap : (h : List A) (i j : ℕ) → Every P h → Every P (swap better h i j)
  unfolding swap
  Every-swap h i j all = elim (Option-cases (get_elem? h i)) [
    | inl n ↦ rw (n, swap) all
    | inr (x, a) ↦ elim (Option-cases (get_elem? h j)) [
      | inl n ↦ rw (a, n, swap) all
      | inr (y, b) ↦
          rw (a, b, swap) (Every-set (set h i y) j x (Every-set h i y all (all j y b)) (all i x a))
    ]
  ]

  Every-sift_up : (fuel : ℕ) (h : List A) (i : ℕ) → Every P h → Every P (sift_up better fuel h i)
  unfolding sift_up
  Every-sift_up zero h i all = all
  Every-sift_up (suc fuel) h i all =
      let p = (i - 1) / 2 in
      elim (Bool-cases (ltb 0 i && better_at better h i p)) [
        | inl y ↦ rw (y, sift_up) (Every-sift_up fuel (swap better h i p) p (Every-swap h i p all))
        | inr n ↦ rw (n, sift_up) all
      ]

  pub Every-heap_push : (h : List A) (c : A) → Every P h → P c → Every P (heap_push better h c)
  unfolding heap_push
  Every-heap_push h c all own = Every-sift_up (length h) (h ++ c ∷ []) (length h) (λ i x e.
      elim (get_elem?-append_cases h c i x e) [
        | inl same ↦ subst P (sym same) own
        | inr there ↦ all i x there
      ])

  Every-sift_down :
      (fuel : ℕ) (h : List A) (i : ℕ) → Every P h → Every P (sift_down better fuel h i)
  unfolding sift_down
  Every-sift_down zero h i all = all
  Every-sift_down (suc fuel) h i all =
      let b = pick better h (2 * i + 1 + 1) (pick better h (2 * i + 1) i) in
      elim (Bool-cases (b == i)) [
        | inl y ↦ rw (y, sift_down) all
        | inr n ↦
            rw (n, sift_down) (Every-sift_down fuel (swap better h i b) b (Every-swap h i b all))
      ]

  Every-last_to_front : (h : List A) → Every P h → Every P (last_to_front better h)
  unfolding last_to_front
  Every-last_to_front h all = elim (Option-cases (get_elem? h (length h - 1))) [
    | inl n ↦ rw (n, last_to_front) all
    | inr (z, at) ↦
        rw (at, last_to_front)
          (λ i x e.
            Every-set h 0 z all (all (length h - 1) z at) i x
              (get_elem?-take (length h - 1) (set h 0 z) i x e))
  ]

  -- of the element that is popped, and of those that stay
  pub Every-heap_pop :
      (h : List A) (c : A) (rest : List A)
      → heap_pop better h ≡ some (c, rest)
      → Every P h
      → P c × Every P rest
  unfolding heap_pop
  Every-heap_pop [] c rest e all = grind arith
  Every-heap_pop (x ∷ xs) c rest e all =
      let first : x ≡ c = ground arith in
      let left = last_to_front better (x ∷ xs) in
      let others : sift_down better (length left) left 0 ≡ rest = ground arith in
      (
        subst P first (all 0 x refl),
        subst (λ (l : List A). Every P l) others
            (Every-sift_down (length left) left 0 (Every-last_to_front (x ∷ xs) all)),
      )
