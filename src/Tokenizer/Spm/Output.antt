-- ===== src/Tokenizer/Spm/Output.antt =====
-- How many ids encode_span_spm of src/tokenizer.c writes.
use charsiu.Prelude.{
  Bool, List, Option-cases, [], arith, get_elem?, inl, inr, length, some, suc, zero, ℕ, ◌∷◌, ◌≡◌,
  ◌≤◌,
}
use charsiu.Tokenizer.Bpe.{Tokenizer, Sym, emit, spm_byte, sym_text}
use charsiu.Tokenizer.Bpe.Output.{emit-le, Fits, Fits-ids_of}
use charsiu.Tokenizer.Smap.{smap_get}
use charsiu.Tokenizer.Spm.{
  emit_known_bytes, emit_piece, emit_pieces, encode_span_spm, merged_pieces, span_walk, marked,
  pieces,
}

module _ (float_gt float_ne : ℕ → ℕ → Bool) (tk : Tokenizer) (max : ℕ) where
  emit_known_bytes-le :
      (out bs : List ℕ) {ids : List ℕ}
      → length out ≤ max
      → emit_known_bytes float_gt float_ne tk max out bs ≡ some ids
      → length ids ≤ max
  unfolding emit_known_bytes
  emit_known_bytes-le out [] h e = ground arith
  emit_known_bytes-le out (b ∷ bs) h e = elim (Option-cases (spm_byte tk b)) [
    | inl n ↦ emit_known_bytes-le out bs h (ground arith)
    | inr (id, y) ↦ elim (Option-cases (emit max out id)) [
      | inl n ↦ ground arith
      | inr (out', z) ↦ emit_known_bytes-le out' bs (emit-le max out id z) (ground arith)
    ]
  ]

  emit_piece-le :
      (buf out : List ℕ) (s : Sym) {ids : List ℕ}
      → length out ≤ max
      → emit_piece float_gt float_ne tk buf max out s ≡ some ids
      → length ids ≤ max
  unfolding emit_piece
  emit_piece-le buf out s h e = elim (Option-cases (smap_get tk.vocab (sym_text buf s))) [
    | inl n ↦ emit_known_bytes-le out (sym_text buf s) h (ground arith)
    | inr (id, y) ↦ emit-le max out id (ground arith)
  ]

  emit_pieces-le :
      (fuel : ℕ) (buf : List ℕ) (sy : List Sym) (out : List ℕ) (j : ℕ)
      → length out ≤ max
      → Fits max (emit_pieces float_gt float_ne fuel tk buf max sy out j)
  unfolding emit_pieces
  emit_pieces-le zero buf sy out j h = tt
  emit_pieces-le (suc fuel) buf sy out j h = elim (Option-cases (get_elem? sy j)) [
    | inl n ↦ rw (n, emit_pieces) tt
    | inr (s, y) ↦ elim (Option-cases (emit_piece float_gt float_ne tk buf max out s)) [
      | inl n ↦ rw (y, n, emit_pieces) tt
      | inr (out', z) ↦
          let fits = emit_piece-le buf out s h z in
          elim (Option-cases (s.next)) [
            | inl last ↦ rw (y, z, last, emit_pieces) fits
            | inr (k, more) ↦ rw (y, z, more, emit_pieces) (emit_pieces-le fuel buf sy out' k fits)
          ]
    ]
  ]

  pub encode_span_spm-le :
      (s out : List ℕ) (at_start : Bool) {ids : List ℕ}
      → length out ≤ max
      → encode_span_spm float_gt float_ne tk s max out at_start ≡ some ids
      → length ids ≤ max
  unfolding encode_span_spm span_walk
  encode_span_spm-le [] out at_start h e = ground arith
  encode_span_spm-le (b ∷ bs) out at_start h e =
      let buf = marked at_start (b ∷ bs) in
      Fits-ids_of max (span_walk float_gt float_ne tk buf max out)
        (emit_pieces-le (length (pieces buf)) buf (merged_pieces float_gt float_ne tk buf) out 0 h)
        e
