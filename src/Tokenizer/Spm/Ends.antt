-- ===== src/Tokenizer/Spm/Ends.antt =====
-- The end of the merge loop of encode_span_spm in src/tokenizer.c.
use charsiu.Prelude.{
  Bool, Bool-cases, List, Option, Option-cases, [], arith, false, get_elem?, get_or, inl, inr, leb,
  length, none, not, refl, some, suc, zero, ℕ, ◌*◌, ◌+◌, ◌-◌, ◌==◌, ◌||◌, ◌∷◌, ◌≡◌, ◌≢◌, ◌≤◌,
}
use charsiu.Tokenizer.Smap.{smap_get}
use charsiu.Tokenizer.Heap.Members.{Every-heap_pop}
use charsiu.Tokenizer.Heap.Size.{length-heap_push, length-heap_pop}
use charsiu.Tokenizer.Bpe.{Tokenizer, Sym, sym_text, join}
use charsiu.Tokenizer.Bpe.Ends.{live, live-le, join-live}
use charsiu.Tokenizer.Spm.{
  Bigram, pieces, spm_better, try_piece, first_pieces, merge_piece, merge_pieces,
}
use charsiu.Tokenizer.Spm.Walk.{IsPair, IsMerging, as_cand, merge_piece-IsMerging, start-IsMerging}

module _ (float_gt float_ne : ℕ → ℕ → Bool) (tk : Tokenizer) (w : List ℕ) (cap : ℕ) where
  try_piece-le :
      (sy : List Sym) (h : List Bigram) (l r : Option ℕ)
      → length (try_piece float_gt float_ne tk w cap sy h l r) ≤ suc (length h)
  unfolding try_piece
  try_piece-le sy h none r = omega arith
  try_piece-le sy h (some l) none = omega arith
  try_piece-le sy h (some l) (some r) = elim (Option-cases (get_elem? sy l)) [
    | inl n ↦ rw (n, try_piece) (omega arith)
    | inr (a, x) ↦ elim (Option-cases (get_elem? sy r)) [
      | inl n ↦ rw (x, n, try_piece) (omega arith)
      | inr (b, y) ↦ elim (Bool-cases (leb cap (length h))) [
        | inl full ↦ rw (x, y, full, try_piece) (omega arith)
        | inr n ↦
            let text = sym_text w (record a { n = a.n + b.n }) in
            elim (Option-cases (smap_get tk.vocab text)) [
              | inl none_e ↦ rw (x, y, n, none_e, try_piece) (omega arith)
              | inr (id, z) ↦
                  rw (x, y, n, z, try_piece)
                    (omega (
                      arith,
                      length-heap_push (spm_better float_gt float_ne) h (record {
                        left = l;
                        right = r;
                        score = get_or tk.score id 0;
                        size = a.n + b.n;
                      }),
                    ))
            ]
      ]
    ]
  ]

  full_both :
      (a b size : ℕ) → (a == 0 || (b == 0 || not (a + b == size))) ≡ false → (a ≢ 0) × (b ≢ 0)
  full_both a b size h = ground arith

  merge_piece-le :
      (c : Bigram) (sy : List Sym) (h : List Bigram)
      → IsPair c
      → length (merge_piece float_gt float_ne tk w cap c sy h).1
          + 2 * live (merge_piece float_gt float_ne tk w cap c sy h).0
        ≤ length h + 2 * live sy
  unfolding merge_piece
  merge_piece-le c sy h order = elim (Option-cases (get_elem? sy c.left)) [
    | inl n ↦ rw (n, merge_piece) (omega arith)
    | inr (a, x) ↦ elim (Option-cases (get_elem? sy c.right)) [
      | inl n ↦ rw (x, n, merge_piece) (omega arith)
      | inr (b, y) ↦ elim (Bool-cases (a.n == 0 || (b.n == 0 || not (a.n + b.n == c.size)))) [
        | inl n ↦ rw (x, y, n, merge_piece) (omega arith)
        | inr there ↦
            let after = join sy (as_cand c) a b in
            let (full_a, full_b) = full_both a.n b.n c.size there in
            let h' = try_piece float_gt float_ne tk w cap after h a.prev (some c.left) in
            rw (x, y, there, merge_piece)
              (omega (
                arith,
                join-live sy (as_cand c) x y (λ e. omega arith) full_a full_b,
                try_piece-le after h a.prev (some c.left),
                try_piece-le after h' (some c.left) b.next,
              ))
      ]
    ]
  ]

  merge_pieces-empty :
      (fuel n : ℕ) (sy : List Sym) (h : List Bigram)
      → IsMerging float_gt float_ne tk w cap n sy h
      → length h + 2 * live sy ≤ fuel
      → (merge_pieces float_gt float_ne fuel tk w cap sy h).1 ≡ []
  unfolding merge_pieces
  merge_pieces-empty zero n sy [] m p = refl
  merge_pieces-empty zero n sy (c ∷ h) m p = absurd (omega arith)
  merge_pieces-empty (suc fuel) n sy h (links, long, all) p =
      elim (length-heap_pop (spm_better float_gt float_ne) h) [
        | inl (e, m) ↦ rw (m, merge_pieces) e
        | inr (c, (h', (e, one))) ↦
            let (order, rest) = Every-heap_pop (spm_better float_gt float_ne) IsPair h c h' e all in
            let round = merge_piece float_gt float_ne tk w cap c sy h' in
            rw (e, merge_pieces)
              (merge_pieces-empty fuel n round.0 round.1
                (merge_piece-IsMerging float_gt float_ne tk w cap n c sy h' order
                  (links, long, rest))
                (omega (arith, one, merge_piece-le c sy h' order)))
      ]

  first_pieces-le :
      (left j : ℕ) (sy : List Sym) (h : List Bigram)
      → length (first_pieces float_gt float_ne left j tk w cap sy h) ≤ left + length h
  unfolding first_pieces
  first_pieces-le zero j sy h = omega arith
  first_pieces-le (suc left) j sy h =
      let next = try_piece float_gt float_ne tk w cap sy h (some (j - 1)) (some j) in
      omega (arith, first_pieces-le left (j + 1) sy next, try_piece-le sy h (some (j - 1)) (some j))

-- three rounds for each piece leave no pair in the heap
pub merge_pieces-ends :
    (float_gt float_ne : ℕ → ℕ → Bool) (tk : Tokenizer) (w : List ℕ) (cap : ℕ)
    → (merge_pieces float_gt float_ne
        (3 * length (pieces w))
        tk
        w
        cap
        (pieces w)
        (first_pieces float_gt float_ne (length (pieces w) - 1) 1 tk w cap (pieces w) [])).1
      ≡ []
merge_pieces-ends float_gt float_ne tk w cap =
    let sy = pieces w in
    let few = first_pieces-le float_gt float_ne tk w cap (length sy - 1) 1 sy [] in
    merge_pieces-empty float_gt float_ne tk w cap (3 * length sy) (length sy) sy
      (first_pieces float_gt float_ne (length sy - 1) 1 tk w cap sy [])
      (start-IsMerging float_gt float_ne tk w cap) (omega (arith, few, live-le sy))
