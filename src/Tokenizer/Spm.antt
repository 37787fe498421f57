-- ===== src/Tokenizer/Spm.antt =====
-- encode_span_spm of src/tokenizer.c: the greedy merge of SentencePiece pieces. How the processor compares
-- two floats is an argument, over their bits: `float_gt` is `>` and `float_ne` is `!=`. A symbol has the
-- fields of bpe_word's.
pub mod Output
pub mod Walk
pub mod Ends
use charsiu.Prelude.{
  Bool, List, Option, [], drop, get_elem?, get_or, if◌then◌else◌, leb, length, ltb, max, min, none,
  not, some, suc, zero, ℕ, ◌*◌, ◌++◌, ◌+◌, ◌-◌, ◌==◌, ◌||◌, ◌∷◌,
}
use charsiu.Tokenizer.Smap.{smap_get}
use charsiu.Tokenizer.Heap.{heap_push, heap_pop}
use charsiu.Tokenizer.Bpe.{
  Walked, lost, no_room, written, ids_of, Tokenizer, Sym, sym_text, symbols_from, join, spm_byte,
  emit,
}

-- `struct spm_bigram`
pub record Bigram : Type 0 where
  pub left : ℕ
  pub right : ℕ
  pub score : ℕ
  pub size : ℕ

-- U+2581
abbrev pub mark : List ℕ
mark = 0xe2 ∷ 0x96 ∷ 0x81 ∷ []

-- every space of the text as U+2581
unfoldable pub mark_spaces : List ℕ → List ℕ
mark_spaces [] = []
mark_spaces (b ∷ bs) = (if b == 32 then mark else b ∷ []) ++ mark_spaces bs

-- the buffer: the text with its spaces marked, and one before it at the start
unfoldable pub marked : Bool → List ℕ → List ℕ
marked at_start s = (if at_start then mark else []) ++ mark_spaces s

-- how long the first byte says that its character is
unfoldable pub lead_length : ℕ → ℕ
lead_length c = if ltb c 0x80 then 1 else if ltb c 0xe0 then 2 else if ltb c 0xf0 then 3 else 4

-- The lengths of the symbols, on fuel: each takes a byte or more. The last is cut to what is left.
unfoldable pub piece_lengths : ℕ → List ℕ → List ℕ
piece_lengths zero s = []
piece_lengths (suc fuel) [] = []
piece_lengths (suc fuel) (c ∷ cs) =
    let len = min (lead_length c) (length (c ∷ cs)) in len ∷ piece_lengths fuel (drop len (c ∷ cs))

unfoldable pub pieces : List ℕ → List Sym
pieces buf = symbols_from (piece_lengths (length buf) buf) 0 0

module _ (float_gt float_ne : ℕ → ℕ → Bool) where
  unfoldable pub spm_better : Bigram → Bigram → Bool
  spm_better a b = if float_ne a.score b.score then float_gt a.score b.score else ltb a.left b.left

  -- TRY_BIGRAM, with the capacity of the heap
  unfoldable pub try_piece :
      Tokenizer → List ℕ → ℕ → List Sym → List Bigram → Option ℕ → Option ℕ → List Bigram
  try_piece tk buf cap sy h none r = h
  try_piece tk buf cap sy h (some l) none = h
  try_piece tk buf cap sy h (some l) (some r) = elim (get_elem? sy l) [
    | none ↦ h
    | some a ↦ elim (get_elem? sy r) [
      | none ↦ h
      | some b ↦
          if leb cap (length h)
          then h
          else let size = a.n + b.n in
            elim (smap_get tk.vocab (sym_text buf (record a { n = size }))) [
              | none ↦ h
              | some id ↦
                  heap_push spm_better h
                    (record { left = l; right = r; score = get_or tk.score id 0; size = size })
            ]
    ]
  ]

  -- `for (k = 1; k < nsym; k++) TRY_BIGRAM(k - 1, k)`, with the number of rounds left
  unfoldable pub first_pieces :
      ℕ → ℕ → Tokenizer → List ℕ → ℕ → List Sym → List Bigram → List Bigram
  first_pieces zero k tk buf cap sy h = h
  first_pieces (suc left) k tk buf cap sy h =
      first_pieces left (k + 1) tk buf cap sy (try_piece tk buf cap sy h (some (k - 1)) (some k))

  -- what one pair that was popped does
  unfoldable pub merge_piece :
      Tokenizer → List ℕ → ℕ → Bigram → List Sym → List Bigram → List Sym × List Bigram
  merge_piece tk buf cap g sy h = elim (get_elem? sy g.left) [
    | none ↦ (sy, h)
    | some a ↦ elim (get_elem? sy g.right) [
      | none ↦ (sy, h)
      | some b ↦
          if a.n == 0 || (b.n == 0 || not (a.n + b.n == g.size))
          then (sy, h)
          else let after =
              join sy (record { left = g.left; right = g.right; rank = 0; size = g.size }) a b in
            let h' = try_piece tk buf cap after h a.prev (some g.left) in
            (after, try_piece tk buf cap after h' (some g.left) b.next)
    ]
  ]

  -- `while (nheap > 0)`, on fuel, as in bpe_word
  unfoldable pub merge_pieces :
      ℕ → Tokenizer → List ℕ → ℕ → List Sym → List Bigram → List Sym × List Bigram
  merge_pieces zero tk buf cap sy h = (sy, h)
  merge_pieces (suc fuel) tk buf cap sy h = elim (heap_pop spm_better h) [
    | none ↦ (sy, h)
    | some (g, h1) ↦
        let (sy', h') = merge_piece tk buf cap g sy h1 in merge_pieces fuel tk buf cap sy' h'
  ]

  -- the bytes of a piece that the vocabulary does not carry; a byte without an id is passed over
  unfoldable pub emit_known_bytes : Tokenizer → ℕ → List ℕ → List ℕ → Option (List ℕ)
  emit_known_bytes tk max out [] = some out
  emit_known_bytes tk max out (b ∷ bs) = elim (spm_byte tk b) [
    | none ↦ emit_known_bytes tk max out bs
    | some id ↦ elim (emit max out id) [ none ↦ none | some out' ↦ emit_known_bytes tk max out' bs ]
  ]

  unfoldable pub emit_piece : Tokenizer → List ℕ → ℕ → List ℕ → Sym → Option (List ℕ)
  emit_piece tk buf max out s = elim (smap_get tk.vocab (sym_text buf s)) [
    | some id ↦ emit max out id
    | none ↦ emit_known_bytes tk max out (sym_text buf s)
  ]

  -- the walk along `next`, on fuel: the links run forward
  unfoldable pub emit_pieces : ℕ → Tokenizer → List ℕ → ℕ → List Sym → List ℕ → ℕ → Walked
  emit_pieces zero tk buf max sy out k = lost
  emit_pieces (suc fuel) tk buf max sy out k = elim (get_elem? sy k) [
    | none ↦ lost
    | some s ↦ elim (emit_piece tk buf max out s) [
      | none ↦ no_room
      | some out' ↦ elim (s.next) [
        | none ↦ written out'
        | some k' ↦ emit_pieces fuel tk buf max sy out' k'
      ]
    ]
  ]

  -- the pieces of a buffer when the heap is empty
  unfoldable pub merged_pieces : Tokenizer → List ℕ → List Sym
  unfolding pieces first_pieces merge_pieces
  merged_pieces tk buf =
      let sy = pieces buf in
      let cap = 3 * length sy + 8 in
      let h = first_pieces (length sy - 1) 1 tk buf cap sy [] in
      (merge_pieces (3 * length sy) tk buf cap sy h).0

  -- the walk of encode_span_spm
  unfoldable pub span_walk : Tokenizer → List ℕ → ℕ → List ℕ → Walked
  unfolding merged_pieces emit_pieces
  span_walk tk buf max out =
      emit_pieces (length (pieces buf)) tk buf max (merged_pieces tk buf) out 0

  -- encode_span_spm
  unfoldable pub encode_span_spm : Tokenizer → List ℕ → ℕ → List ℕ → Bool → Option (List ℕ)
  unfolding marked span_walk ids_of
  encode_span_spm tk [] max out at_start = some out
  encode_span_spm tk (b ∷ bs) max out at_start =
      ids_of (span_walk tk (marked at_start (b ∷ bs)) max out)
