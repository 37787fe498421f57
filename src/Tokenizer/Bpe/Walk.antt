-- ===== src/Tokenizer/Bpe/Walk.antt =====
-- The walk of bpe_word in src/tokenizer.c over the merged symbols.
use charsiu.Prelude.{
  Bool-cases, List, Option, Option-cases, [], arith, false, get_elem?, inl, inr, leb, length, max,
  none, refl, some, suc, zero, ℕ, ◌*◌, ◌++◌, ◌+◌, ◌-◌, ◌<◌, ◌∙◌, ◌∷◌, ◌≡◌, ◌≤◌,
}
use charsiu.Tokenizer.Heap.Members.{Every, Every-heap_push, Every-heap_pop}
use charsiu.Tokenizer.Heap.Size.{length-heap_pop}
use charsiu.Tokenizer.Smap.{smap_get}
use charsiu.Tokenizer.Utf8.{char_lengths}
use charsiu.Tokenizer.Bpe.{
  is_lost, Tokenizer, Sym, Cand, cand_better, sym_text, try_bigram, first_symbols, first_bigrams,
  still_there, join, merge_one, merge_loop, emit_symbol, emit_symbols, merged_symbols, word_walk,
}
use charsiu.Tokenizer.Bpe.Links.{
  IsOrdered, AreLinked, AreLinked-join, AreLinked-symbols_from, length-symbols_from,
}

-- a place in the list has an element
pub get_elem?-there :
    {A : Type 0} (xs : List A) (i : ℕ) → i < length xs → (x : A) × (get_elem? xs i ≡ some x)
get_elem?-there [] i h = absurd (omega arith)
get_elem?-there (x ∷ xs) zero h = (x, refl)
get_elem?-there (x ∷ xs) (suc i) h = get_elem?-there xs i (omega arith)

module _ (tk : Tokenizer) (w : List ℕ) where
  Every-try_bigram :
      (sy : List Sym) (h : List Cand) (l r : Option ℕ)
      → Every IsOrdered h
      → ((x y : ℕ) → l ≡ some x → r ≡ some y → x < y)
      → Every IsOrdered (try_bigram tk w sy h l r)
  unfolding try_bigram
  Every-try_bigram sy h none r all o = all
  Every-try_bigram sy h (some l) none all o = all
  Every-try_bigram sy h (some l) (some r) all o = elim (Option-cases (get_elem? sy l)) [
    | inl n ↦ rw (n, try_bigram) all
    | inr (a, x) ↦ elim (Option-cases (get_elem? sy r)) [
      | inl n ↦ rw (x, n, try_bigram) all
      | inr (b, y) ↦ elim (Bool-cases (leb 512 (a.n + 1 + b.n))) [
        | inl long ↦ rw (x, y, long, try_bigram) all
        | inr n ↦ elim (Option-cases (smap_get tk.merges (sym_text w a ++ 32 ∷ sym_text w b))) [
          | inl none_e ↦ rw (x, y, n, none_e, try_bigram) all
          | inr (rank, z) ↦
              rw (x, y, n, z, try_bigram)
                (Every-heap_push cand_better IsOrdered h
                  (record { left = l; right = r; rank = rank; size = a.n + b.n }) all
                  (o l r refl refl))
        ]
      ]
    ]
  ]

  -- what the merges keep, of `n` symbols
  abbrev IsMerging : ℕ → List Sym → List Cand → Type 0
  IsMerging n sy h = AreLinked sy × (length sy ≡ n) × Every IsOrdered h

  merge_one-IsMerging :
      (n : ℕ) (c : Cand) (sy : List Sym) (h : List Cand)
      → IsOrdered c
      → IsMerging n sy h
      → IsMerging n (merge_one tk w c sy h).0 (merge_one tk w c sy h).1
  unfolding merge_one
  merge_one-IsMerging n c sy h order (links, long, all) =
      elim (Option-cases (get_elem? sy c.left)) [
        | inl m ↦ rw (m, merge_one) (links, long, all)
        | inr (a, x) ↦ elim (Option-cases (get_elem? sy c.right)) [
          | inl m ↦ rw (x, m, merge_one) (links, long, all)
          | inr (b, y) ↦ elim (Bool-cases (still_there a b c)) [
            | inr m ↦ rw (x, y, m, merge_one) (links, long, all)
            | inl there ↦
                let after = join sy c a b in
                let (kept, same) = AreLinked-join sy c links order x y in
                let h' = try_bigram tk w after h a.prev (some c.left) in
                let first : Every IsOrdered h' =
                  Every-try_bigram after h a.prev (some c.left) all (λ p q e f.
                    (let at : c.left ≡ q = ground arith in
                      omega (arith, (links c.left a x).1 p e))) in
                rw (x, y, there, merge_one)
                  (
                    kept,
                    same ∙ long,
                    Every-try_bigram after h' (some c.left) b.next first (λ p q e f.
                        (let at : c.left ≡ p = ground arith in
                          omega (arith, (links c.right b y).0 q f, order))),
                  )
          ]
        ]
      ]

  merge_loop-IsMerging :
      (fuel n : ℕ) (sy : List Sym) (h : List Cand)
      → IsMerging n sy h
      → AreLinked (merge_loop fuel tk w sy h).0 × (length (merge_loop fuel tk w sy h).0 ≡ n)
  unfolding merge_loop
  merge_loop-IsMerging zero n sy h (links, long, all) = (links, long)
  merge_loop-IsMerging (suc fuel) n sy h (links, long, all) = elim (length-heap_pop cand_better h) [
    | inl (e, m) ↦ rw (m, merge_loop) (links, long)
    | inr (c, (h', (e, one))) ↦
        let (order, rest) = Every-heap_pop cand_better IsOrdered h c h' e all in
        let round = merge_one tk w c sy h' in
        rw (e, merge_loop)
          (merge_loop-IsMerging fuel n round.0 round.1
            (merge_one-IsMerging n c sy h' order (links, long, rest)))
  ]

  first_bigrams-IsOrdered :
      (left j : ℕ) (sy : List Sym) (h : List Cand)
      → 1 ≤ j
      → Every IsOrdered h
      → Every IsOrdered (first_bigrams left j tk w sy h)
  unfolding first_bigrams
  first_bigrams-IsOrdered zero j sy h some_left all = all
  first_bigrams-IsOrdered (suc left) j sy h some_left all =
      first_bigrams-IsOrdered left (j + 1) sy _ (omega arith) (
        Every-try_bigram sy h (some (j - 1)) (some j) all (λ x y e f.
          (let a : j - 1 ≡ x = ground arith in let b : j ≡ y = ground arith in omega arith)))

  merged_symbols-AreLinked :
      AreLinked (merged_symbols tk w) × (length (merged_symbols tk w) ≡ length (first_symbols w))
  unfolding merged_symbols first_symbols
  merged_symbols-AreLinked =
      let sy = first_symbols w in
      let h = first_bigrams (length sy - 1) 1 tk w sy [] in
      merge_loop-IsMerging (3 * length sy) (length sy) sy h (
        AreLinked-symbols_from (char_lengths (length w) w),
        refl,
        first_bigrams-IsOrdered (length sy - 1) 1 sy [] (omega arith) (λ i x e. grind arith),
      )

  emit_symbols-ends :
      (fuel max : ℕ) (sy : List Sym) (out : List ℕ) (j : ℕ)
      → AreLinked sy
      → j < length sy
      → length sy ≤ fuel + j
      → is_lost (emit_symbols fuel tk w max sy out j) ≡ false
  unfolding emit_symbols is_lost
  emit_symbols-ends zero max sy out j links h enough = absurd (omega arith)
  emit_symbols-ends (suc fuel) max sy out j links h enough =
      let (s, y) = get_elem?-there sy j h in
      elim (Option-cases (emit_symbol tk w max out s)) [
        | inl n ↦ rw (y, n, emit_symbols) refl
        | inr (out', z) ↦ elim (Option-cases (s.next)) [
          | inl last ↦ rw (y, z, last, emit_symbols) refl
          | inr (k, more) ↦
              let (past, inside) = (links j s y).0 k more in
              rw (y, z, more, emit_symbols)
                (emit_symbols-ends fuel max sy out' k links inside (omega arith))
        ]
      ]

char_lengths-some : (b : ℕ) (bs : List ℕ) → 1 ≤ length (first_symbols (b ∷ bs))
unfolding first_symbols char_lengths
char_lengths-some b bs =
    omega (arith, length-symbols_from (char_lengths (length (b ∷ bs)) (b ∷ bs)) 0 0)

-- The walk of bpe_word is never lost: as many steps as the word has symbols are enough, and every link leads on.
pub word_walk-ends :
    (tk : Tokenizer) (b : ℕ) (bs : List ℕ) (max : ℕ) (out : List ℕ)
    → is_lost (word_walk tk (b ∷ bs) max out) ≡ false
unfolding word_walk
word_walk-ends tk b bs max out =
    let w = b ∷ bs in
    let (links, long) = merged_symbols-AreLinked tk w in
    emit_symbols-ends tk w (length (first_symbols w)) max (merged_symbols tk w) out 0 links
      (omega (arith, long, char_lengths-some b bs)) (omega (arith, long))
