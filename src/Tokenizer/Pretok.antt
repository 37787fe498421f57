-- ===== src/Tokenizer/Pretok.antt =====
-- pretok_next of src/tokenizer.c: where the word that begins at a place of the text ends. The text is the
-- list of its code points, and `at` reads it (0 out of range, where the code does not look).
pub mod Progress
use charsiu.Prelude.{
  Bool, List, Option, [], bit_or, drop, get_or, if◌then◌else◌, leb, length, ltb, min, none, not,
  some, suc, take, zero, ℕ, ◌&&◌, ◌+◌, ◌-◌, ◌==◌, ◌||◌, ◌∷◌,
}
use charsiu.Tokenizer.Classes.{cp_is_space, cp_is_letter, cp_is_digit}

abbrev pub at : List ℕ → ℕ → ℕ
at cp i = get_or cp i 0

-- how many elements at the head of the list pass a test
unfoldable pub run : (ℕ → Bool) → List ℕ → ℕ
run test [] = 0
run test (c ∷ cs) = let more = run test cs in if test c then suc more else 0

-- `while (j < n && test(cp[j])) j++` from `s`
unfoldable pub run_end : (ℕ → Bool) → List ℕ → ℕ → ℕ
unfolding run
run_end test cp s = s + run test (drop s cp)

abbrev pub newline : ℕ → Bool
newline c = c == 13 || c == 10

-- `[^\s\p{L}\p{N}]`
abbrev pub punctuation : ℕ → Bool
punctuation c = not (cp_is_space c) && (not (cp_is_letter c) && not (cp_is_digit c))

-- 1. the contractions; `| 32` makes an ASCII letter small
unfoldable pub contraction : List ℕ → ℕ → Option ℕ
contraction cp i =
    if not (at cp i == 39 && ltb (i + 1) (length cp))
    then none
    else let a = bit_or (at cp (i + 1)) 32 in
      let b = if ltb (i + 2) (length cp) then bit_or (at cp (i + 2)) 32 else 0 in
      if a == 115 || (a == 116 || (a == 109 || a == 100))
      then some (i + 2)
      else if (a == 114 && b == 101) || ((a == 118 && b == 101) || (a == 108 && b == 108))
      then some (i + 3)
      else none

-- 2. an optional lead-in, then letters
unfoldable pub letters : List ℕ → ℕ → Option ℕ
letters cp i =
    let c = at cp i in
    let s = if not (cp_is_letter c) && (not (newline c) && not (cp_is_digit c)) then i + 1 else i in
    if ltb s (length cp) && cp_is_letter (at cp s) then some (run_end cp_is_letter cp s) else none

-- 3. one to three digits
unfoldable pub digits : List ℕ → ℕ → Option ℕ
digits cp i = if cp_is_digit (at cp i) then some (i + min 3 (run cp_is_digit (drop i cp))) else none

-- 4. an optional space, punctuation, and the newlines after it
unfoldable pub symbols : List ℕ → ℕ → Option ℕ
symbols cp i =
    let s = if at cp i == 32 then i + 1 else i in
    if ltb s (length cp) && punctuation (at cp s)
    then some (run_end newline cp (run_end punctuation cp s))
    else none

-- one past the last newline among the first `k` elements, if there is one
unfoldable pub past_newline : ℕ → List ℕ → Option ℕ
past_newline zero cs = none
past_newline (suc k) [] = none
past_newline (suc k) (c ∷ cs) = elim (past_newline k cs) [
  | some e ↦ some (suc e)
  | none ↦ if newline c then some 1 else none
]

-- 5. the whitespace up to the last newline of its run
unfoldable pub newlines : List ℕ → ℕ → Option ℕ
newlines cp i =
    if cp_is_space (at cp i)
    then elim (past_newline (run cp_is_space (drop i cp)) (drop i cp)) [
      | none ↦ none
      | some e ↦ some (i + e)
    ]
    else none

-- 6 and 7. a run of whitespace, less its last element where a word follows
unfoldable pub spaces : List ℕ → ℕ → Option ℕ
spaces cp i =
    if not (cp_is_space (at cp i))
    then none
    else let j = run_end cp_is_space cp i in
      some (if ltb j (length cp) && ltb 1 (j - i) then j - 1 else j)

-- the branches in the order in which they are tried
unfoldable pub first_of : List (Option ℕ) → ℕ → ℕ
first_of [] d = d
first_of (some j ∷ rest) d = j
first_of (none ∷ rest) d = first_of rest d

unfoldable pub pretok_next : List ℕ → ℕ → ℕ
unfolding first_of
pretok_next cp i =
    first_of
      (contraction cp i
        ∷ letters cp i
        ∷ digits cp i
        ∷ symbols cp i
        ∷ newlines cp i
        ∷ spaces cp i
        ∷ [])
      (i + 1)

-- `if (j <= i) j = i + 1`, after pretok_next
unfoldable pub word_end : List ℕ → ℕ → ℕ
word_end cp i = let j = pretok_next cp i in if leb j i then i + 1 else j

-- The loop of encode_span that cuts a span into words, on fuel: a step takes an element or more.
unfoldable pub cut_words : ℕ → List ℕ → ℕ → List (List ℕ)
cut_words zero cp i = []
cut_words (suc fuel) cp i =
    let j = word_end cp i in
    let rest = cut_words fuel cp j in
    if ltb i (length cp) then take (j - i) (drop i cp) ∷ rest else []
