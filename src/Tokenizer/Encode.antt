-- ===== src/Tokenizer/Encode.antt =====
-- tokenizer_encode of src/tokenizer.c, with special_at and encode_span, and the two questions about an id.
-- `none` is the result -1. The comparison of floats is an argument, as in `Tokenizer.Spm`.
pub mod Bounds
pub mod Words
pub mod Special
use charsiu.Prelude.{
  Bool, List, Option, [], drop, false, get_or, if◌then◌else◌, leb, length, ltb, max, none, not,
  some, suc, take, true, zero, ℕ, ◌&&◌, ◌++◌, ◌==◌, ◌∷◌,
}
use charsiu.Gguf.Lookup.{bytes_eq}
use charsiu.Tokenizer.Utf8.{code_points, utf8_text}
use charsiu.Tokenizer.ByteTable.{spell}
use charsiu.Tokenizer.Pretok.{cut_words}
use charsiu.Tokenizer.Bpe.{Tokenizer, bpe_word, emit}
use charsiu.Tokenizer.Spm.{encode_span_spm}

-- special_at over the ids from here on, with the best so far: the longest spelling that the text starts
-- with, and the first of those
unfoldable pub special_from : Tokenizer → List ℕ → List ℕ → Option ℕ × ℕ → Option ℕ × ℕ
special_from tk s [] best = best
special_from tk s (id ∷ ids) best =
    let spelt = get_or tk.spelling id [] in
    let l = length spelt in
    let better =
      not (l == 0) && (leb l (length s) && (ltb best.1 l && bytes_eq (take l s) spelt)) in
    special_from tk s ids (if better then (some id, l) else best)

unfoldable pub special_at : Tokenizer → List ℕ → Option ℕ × ℕ
special_at tk s = special_from tk s tk.special (none, 0)

-- The spelling of a word: its code points as UTF-8, and each of those bytes by the table. The buffer of
-- `n * 4 + 8` bytes that the code writes it to is not a bound of the model.
unfoldable pub word_bytes : List ℕ → List ℕ
word_bytes cps = spell (utf8_text cps)

-- the loop of encode_span over the words
unfoldable pub encode_words : Tokenizer → List (List ℕ) → ℕ → List ℕ → Option (List ℕ)
encode_words tk [] max out = some out
encode_words tk (w ∷ ws) max out = elim (bpe_word tk (word_bytes w) max out) [
  | none ↦ none
  | some out' ↦ encode_words tk ws max out'
]

module _ (float_gt float_ne : ℕ → ℕ → Bool) where
  -- encode_span
  unfoldable pub encode_span : Tokenizer → List ℕ → ℕ → List ℕ → Bool → Option (List ℕ)
  encode_span tk s max out at_start =
      if tk.spm
      then encode_span_spm float_gt float_ne tk s max out at_start
      else let cps = code_points (length s) s in
        encode_words tk (cut_words (length cps) cps 0) max out

  -- The loop of tokenizer_encode, on fuel, which the length of the text is: a step takes a byte or more.
  -- `span` is the text that waits since the last special token, and `at_start` says that there was none
  -- and nothing was taken.
  unfoldable pub encode_from : ℕ → Tokenizer → List ℕ → List ℕ → Bool → ℕ → List ℕ → Option (List ℕ)
  encode_from zero tk span s at_start max out = encode_span tk span max out at_start
  encode_from (suc fuel) tk span [] at_start max out = encode_span tk span max out at_start
  encode_from (suc fuel) tk span (b ∷ bs) at_start max out =
      let (sid, len) = special_at tk (b ∷ bs) in
      elim sid [
        | none ↦ encode_from fuel tk (span ++ b ∷ []) bs at_start max out
        | some id ↦ elim (encode_span tk span max out at_start) [
          | none ↦ none
          | some out1 ↦ elim (emit max out1 id) [
            | none ↦ none
            | some out2 ↦ encode_from fuel tk [] (drop len (b ∷ bs)) false max out2
          ]
        ]
      ]

  -- tokenizer_encode: a negative `add_bos` is `none`, which asks for the tokenizer's own
  unfoldable pub tokenizer_encode : Tokenizer → List ℕ → Option Bool → ℕ → Option (List ℕ)
  tokenizer_encode tk text add_bos max =
      let ask : Bool = elim add_bos [ none ↦ tk.add_bos | some asked ↦ asked ] in
      let bos : Option ℕ = if ask then tk.bos else none in
      let first : Option (List ℕ) = elim bos [ none ↦ some [] | some id ↦ emit max [] id ] in
      elim first [ none ↦ none | some out ↦ encode_from (length text) tk [] text true max out ]
