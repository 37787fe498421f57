-- ===== src/Tokenizer/Encode/Words.antt =====
-- How long the spelling of a word gets, for which encode_span of src/tokenizer.c allocates `n * 4 + 8` bytes.
use charsiu.Prelude.{
  Bool, List, [], ap, append_assoc, arith, drop, false, length, length-append, length-replicate,
  none, refl, replicate, some, suc, sym, take, true, zero, ℕ, ◌*◌, ◌++◌, ◌+◌, ◌-◌, ◌<◌, ◌∙◌, ◌∷◌,
  ◌≡◌, ◌≤◌,
}
use charsiu.Tokenizer.Utf8.{code_points, utf8_text, utf8_encode, utf8_decode}
use charsiu.Tokenizer.ByteTable.{b2u, spell, b2u_table, b2u_from, used}
use charsiu.Tokenizer.ByteTable.Inverse.{u2b-b2u}
use charsiu.Tokenizer.Decode.Spelling.{IsBytes}
use charsiu.Tokenizer.UnicodeTables.{g_letter_ranges, g_number_ranges}
use charsiu.Tokenizer.Classes.{cp_is_letter, cp_is_digit, cp_is_space, in_ranges, search}
use charsiu.Tokenizer.Pretok.{
  run, run_end, newline, punctuation, contraction, letters, digits, symbols, first_of, pretok_next,
  cut_words, word_end,
}
use charsiu.Tokenizer.Encode.{word_bytes}

short-utf8_encode : (cp : ℕ) → cp < 512 → length (utf8_encode cp) ≤ 2
unfolding utf8_encode
short-utf8_encode cp h = ground arith

-- Spelling bytes by the table makes them at most twice as long, so a text of well-formed characters
-- takes no more than half of what encode_span allocates.
pub length-spell : (bs : List ℕ) → IsBytes bs → length (spell bs) ≤ 2 * length bs
unfolding spell IsBytes
length-spell [] v = omega arith
length-spell (b ∷ bs) (small, v) =
    let short = short-utf8_encode (b2u b) (u2b-b2u b small).0 in
    omega (arith, short, length-spell bs v, length-append (utf8_encode (b2u b)) (spell bs))

-- what a byte that begins no character becomes
code_points-invalid : (n : ℕ) → code_points n (replicate n 0xff) ≡ replicate n 0xfffd
unfolding code_points utf8_decode
code_points-invalid zero = refl
code_points-invalid (suc n) = ap (λ t. 0xfffd ∷ t) (code_points-invalid n)

six_bytes : length (spell (utf8_encode 0xfffd)) ≡ 6
unfolding spell utf8_encode b2u b2u_table b2u_from used
six_bytes = refl

spell-append : (xs ys : List ℕ) → spell (xs ++ ys) ≡ spell xs ++ spell ys
unfolding spell
spell-append [] ys = refl
spell-append (x ∷ xs) ys =
    ap (λ t. utf8_encode (b2u x) ++ t) (spell-append xs ys)
    ∙ sym (append_assoc (utf8_encode (b2u x)) (spell xs) (spell ys))

length-word_bytes-replicate : (n : ℕ) → length (word_bytes (replicate n 0xfffd)) ≡ 6 * n
unfolding word_bytes utf8_text spell
length-word_bytes-replicate zero = refl
length-word_bytes-replicate (suc n) =
    let later = utf8_text (replicate n 0xfffd) in
    omega (
      arith,
      ap (λ (t : List ℕ). length t) (spell-append (utf8_encode 0xfffd) later),
      length-append (spell (utf8_encode 0xfffd)) (spell later),
      six_bytes,
      length-word_bytes-replicate n,
    )

no_letter : cp_is_letter 0xfffd ≡ false
unfolding cp_is_letter in_ranges search g_letter_ranges
no_letter = refl

no_digit : cp_is_digit 0xfffd ≡ false
unfolding cp_is_digit in_ranges search g_number_ranges
no_digit = refl

run-replicate : (test : ℕ → Bool) (n x : ℕ) → test x ≡ true → run test (replicate n x) ≡ n
unfolding run
run-replicate test zero x h = refl
run-replicate test (suc n) x h = ground (arith, run-replicate test n x h)

drop_all : (n x : ℕ) → drop n (replicate n x) ≡ []
drop_all zero x = refl
drop_all (suc n) x = drop_all n x

letters-invalid : (n : ℕ) → letters (replicate (suc n) 0xfffd) 0 ≡ none
unfolding letters
letters-invalid zero = ground (arith, no_letter, no_digit)
letters-invalid (suc n) = ground (arith, no_letter, no_digit)

is_punctuation : punctuation 0xfffd ≡ true
unfolding cp_is_space
is_punctuation = rw (no_letter, no_digit) refl

run_end-punctuation : (n : ℕ) → run_end punctuation (replicate n 0xfffd) 0 ≡ n
unfolding run_end
run_end-punctuation n = omega (arith, run-replicate punctuation n 0xfffd is_punctuation)

run_end-newline : (n : ℕ) → run_end newline (replicate n 0xfffd) n ≡ n
unfolding run_end run
run_end-newline n = omega (arith, ap (λ (t : List ℕ). run newline t) (drop_all n 0xfffd))

symbols-invalid : (n : ℕ) → symbols (replicate (suc n) 0xfffd) 0 ≡ some (suc n)
unfolding symbols
symbols-invalid n =
    rw (is_punctuation, run_end-punctuation (suc n), run_end-newline (suc n)) (ground arith)

digits-invalid : (n : ℕ) → digits (replicate (suc n) 0xfffd) 0 ≡ none
unfolding digits
digits-invalid n = rw no_digit refl

-- a run of them is one word
pretok_next-invalid : (n : ℕ) → pretok_next (replicate (suc n) 0xfffd) 0 ≡ suc n
unfolding pretok_next first_of contraction
pretok_next-invalid n = rw (letters-invalid n, digits-invalid n, symbols-invalid n) refl

take_all : (n x : ℕ) → take n (replicate n x) ≡ replicate n x
take_all zero x = refl
take_all (suc n) x = ap (λ t. x ∷ t) (take_all n x)

cut_words-end : (fuel : ℕ) (cp : List ℕ) (i : ℕ) → length cp ≤ i → cut_words fuel cp i ≡ []
unfolding cut_words
cut_words-end zero cp i h = refl
cut_words-end (suc fuel) cp i h = ground arith

word_end-invalid : (n : ℕ) → word_end (replicate (suc n) 0xfffd) 0 ≡ suc n
unfolding word_end
word_end-invalid n = rw (pretok_next-invalid n) (ground arith)

cut_words-invalid :
    (n : ℕ) → cut_words (suc n) (replicate (suc n) 0xfffd) 0 ≡ replicate (suc n) 0xfffd ∷ []
unfolding cut_words
cut_words-invalid n =
    let whole : List ℕ = replicate (suc n) 0xfffd in
    let rest : cut_words n whole (suc n) ≡ [] =
      cut_words-end n whole (suc n) (omega (arith, length-replicate {A = ℕ} n 0xfffd)) in
    let width : suc n - 0 ≡ suc n = omega arith in
    rw (word_end-invalid n, rest, width, take_all (suc n) 0xfffd) (ground arith)

-- A text of `n` bytes 0xff, five or more of them, none of which begins a character, is one word to
-- encode_span, and its spelling is longer than the `n * 4 + 8` bytes of the buffer.
pub word_too_long :
    (n : ℕ)
    → 5 ≤ n
    → (cut_words n (code_points n (replicate n 0xff)) 0 ≡ code_points n (replicate n 0xff) ∷ [])
      × (4 * n + 8 < length (word_bytes (code_points n (replicate n 0xff))))
word_too_long zero h = absurd (omega arith)
word_too_long (suc n) h =
    let read = code_points-invalid (suc n) in
    rw read (cut_words-invalid n, omega (arith, length-word_bytes-replicate (suc n)))
