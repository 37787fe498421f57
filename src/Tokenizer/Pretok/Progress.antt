-- ===== src/Tokenizer/Pretok/Progress.antt =====
-- The words that pretok_next of src/tokenizer.c cuts, and the loop of encode_span that asks for them.
use charsiu.Prelude.{
  Bool, Bool-cases, List, Option, Option-cases, [], arith, drop, inl, inr, length, length-drop, ltb,
  none, refl, some, suc, sym, take, take-append-drop, true, zero, ℕ, ◌++◌, ◌+◌, ◌-◌, ◌<◌, ◌∷◌, ◌≡◌,
  ◌≤◌,
}
use charsiu.Tokenizer.Classes.{cp_is_space, cp_is_letter, cp_is_digit}
use charsiu.Tokenizer.Pretok.{
  at, run, run_end, newline, punctuation, contraction, letters, digits, symbols, newlines, spaces,
  past_newline, first_of, pretok_next, word_end, cut_words,
}

run-le : (test : ℕ → Bool) (cs : List ℕ) → run test cs ≤ length cs
unfolding run
run-le test [] = omega arith
run-le test (c ∷ cs) = ground (arith, run-le test cs)

run_pos :
    (test : ℕ → Bool) (cp : List ℕ) (s : ℕ)
    → s < length cp
    → test (at cp s) ≡ true
    → 1 ≤ run test (drop s cp)
unfolding run
run_pos test [] s h t = absurd (omega arith)
run_pos test (c ∷ cs) zero h t = ground arith
run_pos test (c ∷ cs) (suc s) h t = run_pos test cs s (omega arith) t

run_end_bounds :
    (test : ℕ → Bool) (cp : List ℕ) (s : ℕ)
    → s ≤ length cp
    → (s ≤ run_end test cp s) × (run_end test cp s ≤ length cp)
unfolding run_end
run_end_bounds test cp s h = omega (arith, run-le test (drop s cp), length-drop s cp)

-- a run that has an element goes on from it
run_end_past :
    (test : ℕ → Bool) (cp : List ℕ) (s : ℕ)
    → s < length cp
    → test (at cp s) ≡ true
    → (s < run_end test cp s) × (run_end test cp s ≤ length cp)
unfolding run_end
run_end_past test cp s h t =
    omega (arith, run_pos test cp s h t, run-le test (drop s cp), length-drop s cp)

past_newline-bounds :
    (k : ℕ) (cs : List ℕ) {e : ℕ} → past_newline k cs ≡ some e → (1 ≤ e) × (e ≤ length cs)
unfolding past_newline
past_newline-bounds zero cs p = ground arith
past_newline-bounds (suc k) [] p = ground arith
past_newline-bounds (suc k) (c ∷ cs) p = elim (Option-cases (past_newline k cs)) [
  | inl n ↦ ground arith
  | inr (e', y) ↦ ground (arith, past_newline-bounds k cs y)
]

module _ (cp : List ℕ) (i : ℕ) (inside : i < length cp) where
  InWord : ℕ → Type 0
  InWord j = (i < j) × (j ≤ length cp)

  contraction-InWord : (j : ℕ) → contraction cp i ≡ some j → InWord j
  unfolding contraction InWord
  contraction-InWord j e = ground arith

  letters-InWord : (j : ℕ) → letters cp i ≡ some j → InWord j
  unfolding letters InWord
  letters-InWord j e =
      ground (arith, run_end_past cp_is_letter cp i, run_end_past cp_is_letter cp (i + 1))

  digits-InWord : (j : ℕ) → digits cp i ≡ some j → InWord j
  unfolding digits InWord
  digits-InWord j e =
      ground
        (arith, run_pos cp_is_digit cp i inside, run-le cp_is_digit (drop i cp), length-drop i cp)

  symbols_from :
      (s : ℕ)
      → i ≤ s
      → s < length cp
      → punctuation (at cp s) ≡ true
      → InWord (run_end newline cp (run_end punctuation cp s))
  unfolding InWord
  symbols_from s from h t =
      let (past, within) = run_end_past punctuation cp s h t in
      let (more, last) = run_end_bounds newline cp (run_end punctuation cp s) within in
      (omega arith, last)

  symbols-InWord : (j : ℕ) → symbols cp i ≡ some j → InWord j
  unfolding symbols InWord
  symbols-InWord j e =
      ground (arith, symbols_from i (omega arith), symbols_from (i + 1) (omega arith))

  newlines-InWord : (j : ℕ) → newlines cp i ≡ some j → InWord j
  unfolding newlines InWord
  newlines-InWord j e =
      elim (Option-cases (past_newline (run cp_is_space (drop i cp)) (drop i cp))) [
        | inl n ↦ ground arith
        | inr (e', y) ↦ ground (
          arith,
          past_newline-bounds (run cp_is_space (drop i cp)) (drop i cp) y,
          length-drop i cp,
        )
      ]

  spaces-InWord : (j : ℕ) → spaces cp i ≡ some j → InWord j
  unfolding spaces InWord run_end
  spaces-InWord j e =
      ground
        (arith, run_pos cp_is_space cp i inside, run-le cp_is_space (drop i cp), length-drop i cp)

  first_of_step :
      (o : Option ℕ) (rest : List (Option ℕ))
      → ((j : ℕ) → o ≡ some j → InWord j)
      → InWord (first_of rest (i + 1))
      → InWord (first_of (o ∷ rest) (i + 1))
  unfolding first_of
  first_of_step none rest h w = w
  first_of_step (some j) rest h w = h j refl

  -- The word that begins inside the text ends after its first element and inside the text.
  pub pretok_next-bounds : (i < pretok_next cp i) × (pretok_next cp i ≤ length cp)
  unfolding pretok_next InWord first_of
  pretok_next-bounds = first_of_step (contraction cp i) _ contraction-InWord (
      first_of_step (letters cp i) _ letters-InWord (
        first_of_step (digits cp i) _ digits-InWord (
          first_of_step (symbols cp i) _ symbols-InWord (
            first_of_step (newlines cp i) _ newlines-InWord
              (first_of_step (spaces cp i) _ spaces-InWord (omega arith, omega arith))))))

-- the guard of the loop changes nothing
word_end_lem : (cp : List ℕ) (i : ℕ) → i < length cp → word_end cp i ≡ pretok_next cp i
unfolding word_end
word_end_lem cp i h = ground (arith, pretok_next-bounds cp i h)

unfoldable pub concat : List (List ℕ) → List ℕ
concat [] = []
concat (xs ∷ xss) = xs ++ concat xss

take-append-drop_from :
    (cp : List ℕ) (i k j : ℕ) → i + k ≡ j → take k (drop i cp) ++ drop j cp ≡ drop i cp
take-append-drop_from cp zero k j e =
    let same : j ≡ k = omega arith in rw same (take-append-drop k cp)
take-append-drop_from cp (suc i) k zero e = absurd (omega arith)
take-append-drop_from [] (suc i) zero (suc j) e = refl
take-append-drop_from [] (suc i) (suc k) (suc j) e = refl
take-append-drop_from (c ∷ cs) (suc i) k (suc j) e = take-append-drop_from cs i k j (omega arith)

drop_past : (cp : List ℕ) (i : ℕ) → length cp ≤ i → drop i cp ≡ []
drop_past [] zero h = refl
drop_past [] (suc i) h = refl
drop_past (c ∷ cs) zero h = absurd (omega arith)
drop_past (c ∷ cs) (suc i) h = drop_past cs i (omega arith)

-- The words that encode_span cuts from a place on make up the text from there, for any fuel of its
-- length or more.
pub concat-cut_words :
    (fuel : ℕ) (cp : List ℕ) (i : ℕ)
    → length cp - i ≤ fuel
    → concat (cut_words fuel cp i) ≡ drop i cp
unfolding cut_words concat
concat-cut_words zero cp i h = sym (drop_past cp i (omega arith))
concat-cut_words (suc fuel) cp i h = elim (Bool-cases (ltb i (length cp))) [
  | inr n ↦ rw n (sym (drop_past cp i (ground arith)))
  | inl y ↦
      let (past, within) = pretok_next-bounds cp i (ground arith) in
      let j = word_end cp i in
      let same : j ≡ pretok_next cp i = word_end_lem cp i (ground arith) in
      let later = concat-cut_words fuel cp (word_end cp i) (omega arith) in
      rw (y, later) (take-append-drop_from cp i (j - i) j (omega arith))
]
