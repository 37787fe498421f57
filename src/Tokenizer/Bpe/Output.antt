-- ===== src/Tokenizer/Bpe/Output.antt =====
-- How many ids bpe_word of src/tokenizer.c writes.
use charsiu.Prelude.{
  Bool-cases, List, Option-cases, [], arith, get_elem?, inl, inr, length, length-append, max, some,
  suc, zero, ℕ, ◌==◌, ◌∷◌, ◌≡◌, ◌≤◌,
}
use charsiu.Tokenizer.Bpe.{
  Walked, written, no_room, lost, ids_of, merged_symbols, word_walk, Tokenizer, Sym, emit,
  emit_bytes, emit_symbol, emit_symbols, bpe_word, spm_byte, sym_text, first_symbols,
}
use charsiu.Tokenizer.Smap.{smap_get}

pub emit-le :
    (max : ℕ) (out : List ℕ) (id : ℕ) {ids : List ℕ} → emit max out id ≡ some ids → length ids ≤ max
unfolding emit
emit-le max out id e = ground (arith, length-append out (id ∷ []))

emit_bytes-le :
    (tk : Tokenizer) (max : ℕ) (out bs : List ℕ) {ids : List ℕ}
    → length out ≤ max
    → emit_bytes tk max out bs ≡ some ids
    → length ids ≤ max
unfolding emit_bytes
emit_bytes-le tk max out [] h e = ground arith
emit_bytes-le tk max out (b ∷ bs) h e = elim (Option-cases (spm_byte tk b)) [
  | inl n ↦ ground arith
  | inr (id, y) ↦ elim (Option-cases (emit max out id)) [
    | inl n ↦ ground arith
    | inr (out', z) ↦ emit_bytes-le tk max out' bs (emit-le max out id z) (ground arith)
  ]
]

emit_symbol-le :
    (tk : Tokenizer) (w : List ℕ) (max : ℕ) (out : List ℕ) (s : Sym) {ids : List ℕ}
    → length out ≤ max
    → emit_symbol tk w max out s ≡ some ids
    → length ids ≤ max
unfolding emit_symbol
emit_symbol-le tk w max out s h e = elim (Bool-cases (s.n == 0)) [
  | inl gone ↦ ground arith
  | inr here ↦ elim (Option-cases (smap_get tk.vocab (sym_text w s))) [
    | inl n ↦ emit_bytes-le tk max out (sym_text w s) h (ground arith)
    | inr (id, y) ↦ emit-le max out id (ground arith)
  ]
]

-- the room that a result keeps to
abbrev pub Fits : ℕ → Walked → Type 0
Fits max (written ids) = length ids ≤ max
Fits max no_room = Unit
Fits max lost = Unit

pub Fits-ids_of :
    (max : ℕ) (r : Walked) {ids : List ℕ} → Fits max r → ids_of r ≡ some ids → length ids ≤ max
unfolding ids_of
Fits-ids_of max (written out) f e = ground arith
Fits-ids_of max no_room f e = grind arith
Fits-ids_of max lost f e = grind arith

emit_symbols-le :
    (fuel : ℕ) (tk : Tokenizer) (w : List ℕ) (max : ℕ) (sy : List Sym) (out : List ℕ) (j : ℕ)
    → length out ≤ max
    → Fits max (emit_symbols fuel tk w max sy out j)
unfolding emit_symbols
emit_symbols-le zero tk w max sy out j h = tt
emit_symbols-le (suc fuel) tk w max sy out j h = elim (Option-cases (get_elem? sy j)) [
  | inl n ↦ rw (n, emit_symbols) tt
  | inr (s, y) ↦ elim (Option-cases (emit_symbol tk w max out s)) [
    | inl n ↦ rw (y, n, emit_symbols) tt
    | inr (out', z) ↦
        let fits = emit_symbol-le tk w max out s h z in
        elim (Option-cases (s.next)) [
          | inl last ↦ rw (y, z, last, emit_symbols) fits
          | inr (k, more) ↦
              rw (y, z, more, emit_symbols) (emit_symbols-le fuel tk w max sy out' k fits)
        ]
  ]
]

pub bpe_word-le :
    (tk : Tokenizer) (w : List ℕ) (max : ℕ) (out : List ℕ) {ids : List ℕ}
    → length out ≤ max
    → bpe_word tk w max out ≡ some ids
    → length ids ≤ max
unfolding bpe_word word_walk
bpe_word-le tk [] max out h e = ground arith
bpe_word-le tk (b ∷ bs) max out h e =
    let w = b ∷ bs in
    Fits-ids_of max (word_walk tk w max out)
      (emit_symbols-le (length (first_symbols w)) tk w max (merged_symbols tk w) out 0 h) e
