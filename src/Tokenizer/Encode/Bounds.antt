-- ===== src/Tokenizer/Encode/Bounds.antt =====
-- How tokenizer_encode of src/tokenizer.c ends, and how many ids it writes.
use charsiu.Prelude.{
  Bool, Bool-cases, List, Option, Option-cases, [], arith, drop, false, if◌then◌else◌, inl, inr,
  length, max, none, some, suc, true, zero, ℕ, ◌*◌, ◌++◌, ◌-◌, ◌∷◌, ◌≡◌, ◌≤◌,
}
use charsiu.Tokenizer.Utf8.{code_points}
use charsiu.Tokenizer.Pretok.{cut_words}
use charsiu.Tokenizer.Bpe.{
  Tokenizer, bpe_word, emit, first_bigrams, first_symbols, is_lost, merge_loop, word_walk,
}
use charsiu.Tokenizer.Bpe.Walk.{word_walk-ends}
use charsiu.Tokenizer.Bpe.Ends.{merge_loop-ends}
use charsiu.Tokenizer.Spm.Ends.{merge_pieces-ends}
use charsiu.Tokenizer.Spm.{marked, span_walk, pieces, first_pieces, merge_pieces}
use charsiu.Tokenizer.Spm.Walk.{span_walk-ends}
use charsiu.Tokenizer.Bpe.Output.{emit-le, bpe_word-le}
use charsiu.Tokenizer.Spm.Output.{encode_span_spm-le}
use charsiu.Tokenizer.Encode.{
  special_at, word_bytes, encode_words, encode_span, encode_from, tokenizer_encode,
}

encode_words-le :
    (tk : Tokenizer) (ws : List (List ℕ)) (max : ℕ) (out : List ℕ) {ids : List ℕ}
    → length out ≤ max
    → encode_words tk ws max out ≡ some ids
    → length ids ≤ max
unfolding encode_words
encode_words-le tk [] max out h e = ground arith
encode_words-le tk (w ∷ ws) max out h e = elim (Option-cases (bpe_word tk (word_bytes w) max out)) [
  | inl n ↦ ground arith
  | inr (out', y) ↦
      encode_words-le tk ws max out' (bpe_word-le tk (word_bytes w) max out h y) (ground arith)
]

module _ (float_gt float_ne : ℕ → ℕ → Bool) (tk : Tokenizer) (max : ℕ) where
  encode_span-le :
      (s out : List ℕ) (at_start : Bool) {ids : List ℕ}
      → length out ≤ max
      → encode_span float_gt float_ne tk s max out at_start ≡ some ids
      → length ids ≤ max
  unfolding encode_span
  encode_span-le s out at_start h e =
      let cps = code_points (length s) s in
      elim (Bool-cases tk.spm) [
        | inl y ↦ encode_span_spm-le float_gt float_ne tk max s out at_start h (ground arith)
        | inr n ↦ encode_words-le tk (cut_words (length cps) cps 0) max out h (ground arith)
      ]

  encode_from-le :
      (fuel : ℕ) (span s : List ℕ) (at_start : Bool) (out : List ℕ) {ids : List ℕ}
      → length out ≤ max
      → encode_from float_gt float_ne fuel tk span s at_start max out ≡ some ids
      → length ids ≤ max
  unfolding encode_from
  encode_from-le zero span s at_start out h e = encode_span-le span out at_start h e
  encode_from-le (suc fuel) span [] at_start out h e = encode_span-le span out at_start h e
  encode_from-le (suc fuel) span (b ∷ bs) at_start out h e =
      elim (Option-cases (special_at tk (b ∷ bs)).0) [
        | inl n ↦ encode_from-le fuel (span ++ b ∷ []) bs at_start out h (ground arith)
        | inr (id, y) ↦
            elim (Option-cases (encode_span float_gt float_ne tk span max out at_start)) [
              | inl n ↦ ground arith
              | inr (out1, z) ↦ elim (Option-cases (emit max out1 id)) [
                | inl n ↦ ground arith
                | inr (out2, x) ↦
                    encode_from-le fuel [] (drop (special_at tk (b ∷ bs)).1 (b ∷ bs)) false out2
                      (emit-le max out1 id x) (ground arith)
              ]
            ]
      ]

  -- the ids of a text that is encoded fit in the room
  tokenizer_encode-le :
      (text : List ℕ) (add_bos : Option Bool) {ids : List ℕ}
      → tokenizer_encode float_gt float_ne tk text add_bos max ≡ some ids
      → length ids ≤ max
  unfolding tokenizer_encode
  tokenizer_encode-le text add_bos e =
      let ask : Bool = elim add_bos [ none ↦ tk.add_bos | some asked ↦ asked ] in
      let bos : Option ℕ = if ask then tk.bos else none in
      elim (Option-cases bos) [
        | inl n ↦ encode_from-le (length text) [] text true [] (omega arith) (ground arith)
        | inr (id, y) ↦ elim (Option-cases (emit max [] id)) [
          | inl n ↦ ground arith
          | inr (out, z) ↦
              encode_from-le (length text) [] text true out (emit-le max [] id z) (ground arith)
        ]
      ]

-- The ids of a text that is encoded fit in the room that the caller gives, for either kind of vocabulary and
-- any way of comparing scores. And a result of -1 is one of the code's own: neither the walk over the symbols
-- of a word nor the walk over the pieces of a span ever ends for want of steps or at a link out of the array,
-- and the merge loop of a span, as that of a word, stops only when its heap is empty.
pub tokenizer_encode-bounded :
    (float_gt float_ne : ℕ → ℕ → Bool) (tk : Tokenizer) (max : ℕ) (text : List ℕ)
    (add_bos : Option Bool)
    → ((ids : List ℕ)
        → tokenizer_encode float_gt float_ne tk text add_bos max ≡ some ids
        → length ids ≤ max)
      × ((b : ℕ) (bs out : List ℕ) → is_lost (word_walk tk (b ∷ bs) max out) ≡ false)
      × ((at_start : Bool) (b : ℕ) (bs out : List ℕ)
          → is_lost (span_walk float_gt float_ne tk (marked at_start (b ∷ bs)) max out) ≡ false)
      × ((buf : List ℕ) (cap : ℕ)
          → (merge_pieces float_gt float_ne (3 * length (pieces buf)) tk buf cap (pieces buf) (
              first_pieces float_gt float_ne
                (length (pieces buf) - 1)
                1
                tk
                buf
                cap
                (pieces buf)
                [])).1
            ≡ [])
      × ((w : List ℕ)
          → (merge_loop
              (3 * length (first_symbols w))
              tk
              w
              (first_symbols w)
              (first_bigrams (length (first_symbols w) - 1) 1 tk w (first_symbols w) [])).1
            ≡ [])
tokenizer_encode-bounded float_gt float_ne tk max text add_bos = (
  λ ids e. tokenizer_encode-le float_gt float_ne tk max text add_bos e,
  λ b bs out. word_walk-ends tk b bs max out,
  λ at_start b bs out. span_walk-ends float_gt float_ne tk at_start b bs max out,
  λ buf cap. merge_pieces-ends float_gt float_ne tk buf cap,
  λ w. merge_loop-ends tk w,
)
