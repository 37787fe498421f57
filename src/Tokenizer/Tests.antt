-- ===== src/Tokenizer/Tests.antt =====
-- Runs and instances of the theorems on the tokenizer.
use charsiu.Prelude.{
  Bool, List, [], arith, false, get_elem?, get_or, length, ltb, none, refl, replicate, some, true,
  ℕ, ◌*◌, ◌+◌, ◌-◌, ◌<◌, ◌↔◌, ◌∷◌, ◌≡◌, ◌≤◌,
}
use charsiu.Gguf.Lookup.{bytes_eq}
use charsiu.Tokenizer.Utf8.{utf8_decode, utf8_encode, code_points, char_lengths, utf8_text}
use charsiu.Tokenizer.Utf8.RoundTrip.{code_points-utf8_text, IsEncodable}
use charsiu.Tokenizer.ByteTable.{used, b2u_from, b2u_table, b2u, spell}
use charsiu.Tokenizer.UnicodeTables.{g_letter_ranges, g_number_ranges}
use charsiu.Tokenizer.Classes.{cp_is_space, search, in_ranges, cp_is_digit, cp_is_letter}
use charsiu.Tokenizer.Classes.Search.{InRange, classes_iff}
use charsiu.Tokenizer.Pretok.{
  run, run_end, contraction, letters, digits, symbols, past_newline, newlines, spaces, first_of,
  pretok_next, word_end, cut_words,
}
use charsiu.Tokenizer.Smap.{
  Smap, fnv_from, fnv, grow, smap_init, probe, probe_key, smap_put, smap_get,
}
use charsiu.Tokenizer.Smap.Lookup.{smap_get-smap_put}
use charsiu.Tokenizer.Heap.{
  better_at, swap, sift_up, heap_push, pick, sift_down, last_to_front, heap_pop,
}
use charsiu.Tokenizer.Bpe.{
  is_lost, word_walk, Tokenizer, cand_better, sym_text, try_bigram, symbols_from, first_symbols,
  first_bigrams, still_there, join, merge_one, merge_loop, emit, emit_symbol, emit_symbols,
  bpe_word,
}
use charsiu.Tokenizer.Encode.{
  special_from, special_at, word_bytes, encode_words, encode_span, encode_from, tokenizer_encode,
}
use charsiu.Tokenizer.Spm.{marked, span_walk, pieces as pieces_of, first_pieces, merge_pieces}
use charsiu.Tokenizer.Encode.Bounds.{tokenizer_encode-bounded}
use charsiu.Tokenizer.Encode.Words.{word_too_long}
use charsiu.Tokenizer.Encode.Special.{Begins, IsFound, special_at-longest}
use charsiu.Tokenizer.Decode.{tokenizer_decode}
use charsiu.Tokenizer.Decode.Spelling.{tokenizer_decode-spell, IsBytes}

-- the pieces `a`, `b`, `ab` and a special token `<s>`, and the merge of `a` with `b`
abbrev small : Tokenizer
small = record {
  spelling = (97 ∷ []) ∷ (98 ∷ []) ∷ (97 ∷ 98 ∷ []) ∷ (60 ∷ 115 ∷ 62 ∷ []) ∷ [];
  type = 1 ∷ 1 ∷ 1 ∷ 3 ∷ [];
  vocab = smap_put (smap_put (smap_put (smap_init 4) (97 ∷ []) 0) (98 ∷ []) 1) (97 ∷ 98 ∷ []) 2;
  merges = smap_put (smap_init 1) (97 ∷ 32 ∷ 98 ∷ []) 0;
  score = [];
  spm = false;
  special = 3 ∷ [];
  bos = some 3;
  eos = none;
  eot = none;
  add_bos = true;
}

-- `ab<s>ba` with the token that begins a text
encode_small :
    tokenizer_encode ltb ltb small (97 ∷ 98 ∷ 60 ∷ 115 ∷ 62 ∷ 98 ∷ 97 ∷ []) none 8
    ≡ some (3 ∷ 2 ∷ 3 ∷ 1 ∷ 0 ∷ [])
unfolding tokenizer_encode encode_from special_at special_from bytes_eq encode_span encode_words
    word_bytes code_points utf8_decode utf8_text utf8_encode spell b2u b2u_table b2u_from used
    cut_words word_end pretok_next first_of contraction letters digits symbols newlines spaces
    past_newline run run_end cp_is_space cp_is_letter cp_is_digit in_ranges search g_letter_ranges
    g_number_ranges bpe_word first_symbols symbols_from char_lengths first_bigrams try_bigram
    sym_text smap_get smap_put smap_init grow probe_key probe fnv fnv_from heap_push sift_up
    better_at swap heap_pop last_to_front sift_down pick cand_better merge_loop merge_one
    still_there join emit_symbols emit_symbol emit
encode_small = refl

tokenizer_encode-bounded_example :
    ((ids : List ℕ)
      → tokenizer_encode ltb ltb small (97 ∷ 98 ∷ 60 ∷ 115 ∷ 62 ∷ 98 ∷ 97 ∷ []) none 8 ≡ some ids
      → length ids ≤ 8)
    × ((b : ℕ) (bs out : List ℕ) → is_lost (word_walk small (b ∷ bs) 8 out) ≡ false)
    × ((at_start : Bool) (b : ℕ) (bs out : List ℕ)
        → is_lost (span_walk ltb ltb small (marked at_start (b ∷ bs)) 8 out) ≡ false)
    × ((buf : List ℕ) (cap : ℕ)
        → (merge_pieces ltb ltb (3 * length (pieces_of buf)) small buf cap (pieces_of buf) (
            first_pieces ltb ltb (length (pieces_of buf) - 1) 1 small buf cap (pieces_of buf) [])).1
          ≡ [])
    × ((w : List ℕ)
        → (merge_loop
            (3 * length (first_symbols w))
            small
            w
            (first_symbols w)
            (first_bigrams (length (first_symbols w) - 1) 1 small w (first_symbols w) [])).1
          ≡ [])
tokenizer_encode-bounded_example =
    tokenizer_encode-bounded ltb ltb small 8 (97 ∷ 98 ∷ 60 ∷ 115 ∷ 62 ∷ 98 ∷ 97 ∷ []) none

code_points-utf8_text_example :
    code_points 20 (utf8_text (0x61 ∷ 0xe9 ∷ 0x4e2d ∷ [])) ≡ 0x61 ∷ 0xe9 ∷ 0x4e2d ∷ []
unfolding IsEncodable utf8_text utf8_encode
code_points-utf8_text_example =
    code_points-utf8_text 20 (0x61 ∷ 0xe9 ∷ 0x4e2d ∷ [])
      (omega arith, (omega arith, (omega arith, tt))) (omega arith)

classes_iff_example :
    ((cp_is_letter 0x5d0 ≡ true) ↔ ((i : ℕ) × InRange g_letter_ranges 0x5d0 i))
    × ((cp_is_digit 0x5d0 ≡ true) ↔ ((i : ℕ) × InRange g_number_ranges 0x5d0 i))
classes_iff_example = classes_iff 0x5d0

-- `it's 42`
abbrev its_42 : List ℕ
its_42 = 105 ∷ 116 ∷ 39 ∷ 115 ∷ 32 ∷ 52 ∷ 50 ∷ []

words_of_its_42 :
    cut_words 7 its_42 0 ≡ (105 ∷ 116 ∷ []) ∷ (39 ∷ 115 ∷ []) ∷ (32 ∷ []) ∷ (52 ∷ 50 ∷ []) ∷ []
unfolding cut_words word_end pretok_next first_of contraction letters digits symbols newlines spaces
    past_newline run run_end cp_is_space cp_is_letter cp_is_digit in_ranges search g_letter_ranges
    g_number_ranges
words_of_its_42 = refl

word_too_long_example :
    (cut_words 5 (code_points 5 (replicate 5 0xff)) 0 ≡ code_points 5 (replicate 5 0xff) ∷ [])
    × (4 * 5 + 8 < length (word_bytes (code_points 5 (replicate 5 0xff))))
word_too_long_example = word_too_long 5 (omega arith)

tokenizer_decode-spell_example : tokenizer_decode small 2 ≡ 97 ∷ 98 ∷ []
unfolding IsBytes spell b2u b2u_table b2u_from used utf8_encode
tokenizer_decode-spell_example =
    tokenizer_decode-spell small 2 (97 ∷ 98 ∷ []) (omega arith, (omega arith, tt)) (omega arith)
      refl (omega arith) refl

abbrev pieces : Smap
pieces = small.vocab

smap_get-smap_put_example :
    smap_get (smap_put pieces (97 ∷ []) 5) (97 ∷ [])
    ≡ some (elim (smap_get pieces (97 ∷ [])) [ none ↦ 5 | some v ↦ v ])
unfolding smap_put smap_init grow probe_key probe fnv fnv_from bytes_eq
smap_get-smap_put_example = smap_get-smap_put pieces 0 (97 ∷ []) 5 (omega arith) refl

special_at-longest_example :
    IsFound small (60 ∷ 115 ∷ 62 ∷ 97 ∷ []) (special_at small (60 ∷ 115 ∷ 62 ∷ 97 ∷ []))
    × ((i id : ℕ)
        → get_elem? small.special i ≡ some id
        → Begins small (60 ∷ 115 ∷ 62 ∷ 97 ∷ []) id
        → length (get_or small.spelling id []) ≤ (special_at small (60 ∷ 115 ∷ 62 ∷ 97 ∷ [])).1)
special_at-longest_example = special_at-longest small (60 ∷ 115 ∷ 62 ∷ 97 ∷ [])
