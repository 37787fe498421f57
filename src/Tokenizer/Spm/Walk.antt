-- ===== src/Tokenizer/Spm/Walk.antt =====
-- The walk of encode_span_spm in src/tokenizer.c over the merged pieces.
use charsiu.Prelude.{
  Bool, Bool-cases, List, Option, Option-cases, [], arith, false, get_elem?, get_or, inl, inr, leb,
  length, max, none, not, refl, some, suc, true, zero, ℕ, ◌*◌, ◌+◌, ◌-◌, ◌<◌, ◌==◌, ◌||◌, ◌∙◌, ◌∷◌,
  ◌≡◌, ◌≤◌,
}
use charsiu.Tokenizer.Heap.Members.{Every, Every-heap_push, Every-heap_pop}
use charsiu.Tokenizer.Heap.Size.{length-heap_pop}
use charsiu.Tokenizer.Smap.{smap_get}
use charsiu.Tokenizer.Bpe.{is_lost, Tokenizer, Sym, Cand, sym_text, join}
use charsiu.Tokenizer.Bpe.Links.{
  AreLinked, AreLinked-join, AreLinked-symbols_from, length-symbols_from,
}
use charsiu.Tokenizer.Bpe.Walk.{get_elem?-there}
use charsiu.Tokenizer.Spm.{
  Bigram, marked, mark_spaces, piece_lengths, pieces, spm_better, try_piece, first_pieces,
  merge_piece, merge_pieces, emit_piece, emit_pieces, merged_pieces, span_walk,
}

-- a pair's places, in their order
abbrev pub IsPair : Bigram → Type 0
IsPair g = g.left < g.right

-- the pair as a candidate
abbrev pub as_cand : Bigram → Cand
as_cand g = record { left = g.left; right = g.right; rank = 0; size = g.size }

module _ (float_gt float_ne : ℕ → ℕ → Bool) (tk : Tokenizer) (w : List ℕ) (cap : ℕ) where
  Every-try_piece :
      (sy : List Sym) (h : List Bigram) (l r : Option ℕ)
      → Every IsPair h
      → ((x y : ℕ) → l ≡ some x → r ≡ some y → x < y)
      → Every IsPair (try_piece float_gt float_ne tk w cap sy h l r)
  unfolding try_piece
  Every-try_piece sy h none r all o = all
  Every-try_piece sy h (some l) none all o = all
  Every-try_piece sy h (some l) (some r) all o = elim (Option-cases (get_elem? sy l)) [
    | inl n ↦ rw (n, try_piece) all
    | inr (a, x) ↦ elim (Option-cases (get_elem? sy r)) [
      | inl n ↦ rw (x, n, try_piece) all
      | inr (b, y) ↦ elim (Bool-cases (leb cap (length h))) [
        | inl full ↦ rw (x, y, full, try_piece) all
        | inr n ↦
            let text = sym_text w (record a { n = a.n + b.n }) in
            elim (Option-cases (smap_get tk.vocab text)) [
              | inl none_e ↦ rw (x, y, n, none_e, try_piece) all
              | inr (id, z) ↦
                  rw (x, y, n, z, try_piece)
                    (Every-heap_push (spm_better float_gt float_ne) IsPair h
                      (record {
                        left = l;
                        right = r;
                        score = get_or tk.score id 0;
                        size = a.n + b.n;
                      })
                      all (o l r refl refl))
            ]
      ]
    ]
  ]

  -- what the merges keep, of `n` symbols
  abbrev pub IsMerging : ℕ → List Sym → List Bigram → Type 0
  IsMerging n sy h = AreLinked sy × (length sy ≡ n) × Every IsPair h

  pub merge_piece-IsMerging :
      (n : ℕ) (c : Bigram) (sy : List Sym) (h : List Bigram)
      → IsPair c
      → IsMerging n sy h
      → IsMerging n
          (merge_piece float_gt float_ne tk w cap c sy h).0
          (merge_piece float_gt float_ne tk w cap c sy h).1
  unfolding merge_piece
  merge_piece-IsMerging n c sy h order (links, long, all) =
      elim (Option-cases (get_elem? sy c.left)) [
        | inl m ↦ rw (m, merge_piece) (links, long, all)
        | inr (a, x) ↦ elim (Option-cases (get_elem? sy c.right)) [
          | inl m ↦ rw (x, m, merge_piece) (links, long, all)
          | inr (b, y) ↦ elim (Bool-cases (a.n == 0 || (b.n == 0 || not (a.n + b.n == c.size)))) [
            | inl m ↦ rw (x, y, m, merge_piece) (links, long, all)
            | inr there ↦
                let after = join sy (as_cand c) a b in
                let (kept, same) = AreLinked-join sy (as_cand c) links order x y in
                let h' = try_piece float_gt float_ne tk w cap after h a.prev (some c.left) in
                let first : Every IsPair h' =
                  Every-try_piece after h a.prev (some c.left) all (λ p q e f.
                    (let at : c.left ≡ q = ground arith in
                      omega (arith, (links c.left a x).1 p e))) in
                rw (x, y, there, merge_piece)
                  (
                    kept,
                    same ∙ long,
                    Every-try_piece after h' (some c.left) b.next first (λ p q e f.
                        (let at : c.left ≡ p = ground arith in
                          omega (arith, (links c.right b y).0 q f, order))),
                  )
          ]
        ]
      ]

  merge_pieces-IsMerging :
      (fuel n : ℕ) (sy : List Sym) (h : List Bigram)
      → IsMerging n sy h
      → AreLinked (merge_pieces float_gt float_ne fuel tk w cap sy h).0
        × (length (merge_pieces float_gt float_ne fuel tk w cap sy h).0 ≡ n)
  unfolding merge_pieces
  merge_pieces-IsMerging zero n sy h (links, long, all) = (links, long)
  merge_pieces-IsMerging (suc fuel) n sy h (links, long, all) =
      elim (length-heap_pop (spm_better float_gt float_ne) h) [
        | inl (e, m) ↦ rw (m, merge_pieces) (links, long)
        | inr (c, (h', (e, one))) ↦
            let (order, rest) = Every-heap_pop (spm_better float_gt float_ne) IsPair h c h' e all in
            let round = merge_piece float_gt float_ne tk w cap c sy h' in
            rw (e, merge_pieces)
              (merge_pieces-IsMerging fuel n round.0 round.1
                (merge_piece-IsMerging n c sy h' order (links, long, rest)))
      ]

  first_pieces-IsOrdered :
      (left j : ℕ) (sy : List Sym) (h : List Bigram)
      → 1 ≤ j
      → Every IsPair h
      → Every IsPair (first_pieces float_gt float_ne left j tk w cap sy h)
  unfolding first_pieces
  first_pieces-IsOrdered zero j sy h some_left all = all
  first_pieces-IsOrdered (suc left) j sy h some_left all =
      first_pieces-IsOrdered left (j + 1) sy _ (omega arith) (
        Every-try_piece sy h (some (j - 1)) (some j) all (λ x y e f.
          (let a : j - 1 ≡ x = ground arith in let b : j ≡ y = ground arith in omega arith)))

  pub start-IsMerging :
      IsMerging
        (length (pieces w))
        (pieces w)
        (first_pieces float_gt float_ne (length (pieces w) - 1) 1 tk w cap (pieces w) [])
  unfolding pieces
  start-IsMerging = (
    AreLinked-symbols_from (piece_lengths (length w) w),
    refl,
    first_pieces-IsOrdered (length (pieces w) - 1) 1 (pieces w) [] (omega arith)
        (λ i x e. grind arith),
  )

module _ (float_gt float_ne : ℕ → ℕ → Bool) (tk : Tokenizer) (w : List ℕ) where
  merged_pieces-AreLinked :
      AreLinked (merged_pieces float_gt float_ne tk w)
      × (length (merged_pieces float_gt float_ne tk w) ≡ length (pieces w))
  unfolding merged_pieces
  merged_pieces-AreLinked =
      let sy = pieces w in
      let cap = 3 * length sy + 8 in
      merge_pieces-IsMerging float_gt float_ne tk w cap (3 * length sy) (length sy) sy
        (first_pieces float_gt float_ne (length sy - 1) 1 tk w cap sy [])
        (start-IsMerging float_gt float_ne tk w cap)

  emit_pieces-ends :
      (fuel max : ℕ) (sy : List Sym) (out : List ℕ) (j : ℕ)
      → AreLinked sy
      → j < length sy
      → length sy ≤ fuel + j
      → is_lost (emit_pieces float_gt float_ne fuel tk w max sy out j) ≡ false
  unfolding emit_pieces is_lost
  emit_pieces-ends zero max sy out j links h enough = absurd (omega arith)
  emit_pieces-ends (suc fuel) max sy out j links h enough =
      let (s, y) = get_elem?-there sy j h in
      elim (Option-cases (emit_piece float_gt float_ne tk w max out s)) [
        | inl n ↦ rw (y, n, emit_pieces) refl
        | inr (out', z) ↦ elim (Option-cases (s.next)) [
          | inl last ↦ rw (y, z, last, emit_pieces) refl
          | inr (k, more) ↦
              let (past, inside) = (links j s y).0 k more in
              rw (y, z, more, emit_pieces)
                (emit_pieces-ends fuel max sy out' k links inside (omega arith))
        ]
      ]

some_piece : (buf : List ℕ) → 1 ≤ length buf → 1 ≤ length (pieces buf)
unfolding pieces piece_lengths
some_piece [] h = absurd (omega arith)
some_piece (c ∷ cs) h =
    omega (arith, length-symbols_from (piece_lengths (length (c ∷ cs)) (c ∷ cs)) 0 0)

some_mark : (at_start : Bool) (b : ℕ) (bs : List ℕ) → 1 ≤ length (marked at_start (b ∷ bs))
unfolding marked mark_spaces
some_mark true b bs = omega arith
some_mark false b bs = elim (Bool-cases (b == 32)) [
  | inl y ↦ rw y (omega arith)
  | inr n ↦ rw n (omega arith)
]

-- The walk of encode_span_spm is never lost: as many steps as there are pieces are enough, and every link leads
-- on.
pub span_walk-ends :
    (float_gt float_ne : ℕ → ℕ → Bool) (tk : Tokenizer) (at_start : Bool) (b : ℕ) (bs : List ℕ)
    (max : ℕ) (out : List ℕ)
    → is_lost (span_walk float_gt float_ne tk (marked at_start (b ∷ bs)) max out) ≡ false
unfolding span_walk
span_walk-ends float_gt float_ne tk at_start b bs max out =
    let w = marked at_start (b ∷ bs) in
    let some_there = some_piece w (some_mark at_start b bs) in
    let (links, long) = merged_pieces-AreLinked float_gt float_ne tk w in
    emit_pieces-ends float_gt float_ne tk w (length (pieces w)) max
      (merged_pieces float_gt float_ne tk w) out 0 links (omega (arith, long, some_there))
      (omega (arith, long))
