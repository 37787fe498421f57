-- ===== src/Tokenizer/Classes/Search.antt =====
-- What in_ranges of src/tokenizer.c finds, and the order of the ranges of src/unicode_tables.h.
use charsiu.Prelude.{
  Bool, Bool-cases, List, [], arith, dec_lt, false, get_or, if◌then◌else◌, inl, inr, leb, length,
  ltb, refl, suc, true, zero, ℕ, ◌&&◌, ◌*◌, ◌+◌, ◌-◌, ◌/◌, ◌<◌, ◌||◌, ◌↔◌, ◌∷◌, ◌≡◌, ◌≤◌,
}
use charsiu.Tokenizer.UnicodeTables.{g_letter_ranges, g_number_ranges}
use charsiu.Tokenizer.Classes.{search, in_ranges, cp_is_letter, cp_is_digit}

-- the first and the last code point of range `i`
abbrev pub first : List ℕ → ℕ → ℕ
first r i = get_or r (2 * i) 0

abbrev pub last : List ℕ → ℕ → ℕ
last r i = get_or r (2 * i + 1) 0

-- range `i` of the list holds the code point
unfoldable pub InRange : List ℕ → ℕ → ℕ → Type 0
InRange r c i = (i < length r / 2) × (first r i ≤ c) × (c ≤ last r i)

search_found :
    (fuel : ℕ) (r : List ℕ) (lo hi c : ℕ)
    → hi ≤ length r / 2
    → search fuel r lo hi c ≡ true
    → (i : ℕ) × InRange r c i
unfolding search InRange
search_found zero r lo hi c h e = ground arith
search_found (suc fuel) r lo hi c h e =
    let mid = (lo + hi) / 2 in
    let below = ltb c (first r mid) in
    let above = ltb (last r mid) c in
    elim (Bool-cases (ltb lo hi)) [
      | inr n ↦ ground arith
      | inl y ↦ elim (Bool-cases (below || above)) [
        | inr here ↦ (mid, (ground arith, ground arith, ground arith))
        | inl on ↦
            search_found fuel r (if below then lo else mid + 1) (if below then mid else hi) c
              (ground arith) (ground arith)
      ]
    ]

-- Each range ends where it begins or later, and before the next begins.
unfoldable pub in_order : List ℕ → Bool
in_order [] = true
in_order (a ∷ []) = false
in_order (a ∷ b ∷ []) = leb a b
in_order (a ∷ b ∷ c ∷ r) = leb a b && (ltb b c && in_order (c ∷ r))

first-suc : (a b : ℕ) (r : List ℕ) (i : ℕ) → first (a ∷ b ∷ r) (suc i) ≡ first r i
first-suc a b r i = let e : 2 * suc i ≡ suc (suc (2 * i)) = omega arith in rw e refl

last-suc : (a b : ℕ) (r : List ℕ) (i : ℕ) → last (a ∷ b ∷ r) (suc i) ≡ last r i
last-suc a b r i = let e : 2 * suc i + 1 ≡ suc (suc (2 * i + 1)) = omega arith in rw e refl

in_order_rest : (a b : ℕ) (r : List ℕ) → in_order (a ∷ b ∷ r) ≡ true → (a ≤ b) × (in_order r ≡ true)
unfolding in_order
in_order_rest a b [] h = (ground arith, refl)
in_order_rest a b (c ∷ r) h = ground arith

first_le_last : (r : List ℕ) (i : ℕ) → in_order r ≡ true → i < length r / 2 → first r i ≤ last r i
first_le_last [] i h p = absurd (omega arith)
first_le_last (a ∷ []) i h p = absurd (omega arith)
first_le_last (a ∷ b ∷ r) zero h p = (in_order_rest a b r h).0
first_le_last (a ∷ b ∷ r) (suc i) h p = omega (
  arith,
  first-suc a b r i,
  last-suc a b r i,
  first_le_last r i (in_order_rest a b r h).1 (omega arith),
)

-- in a list in order, every range after the first begins after it
after_first :
    (a b : ℕ) (r : List ℕ) (j : ℕ) → in_order (a ∷ b ∷ r) ≡ true → j < length r / 2 → b < first r j
unfolding in_order
after_first a b [] j h p = absurd (omega arith)
after_first a b (c ∷ []) j h p = absurd (omega arith)
after_first a b (c ∷ d ∷ r) zero h p = ground arith
after_first a b (c ∷ d ∷ r) (suc j) h p =
    let rest = (in_order_rest a b (c ∷ d ∷ r) h).1 in
    let own = (in_order_rest c d r rest).0 in
    let begins : b < c = ground arith in
    omega (arith, first-suc c d r j, after_first c d r j rest (omega arith))

last_lt_first :
    (r : List ℕ) (i j : ℕ) → in_order r ≡ true → i < j → j < length r / 2 → last r i < first r j
last_lt_first [] i j h q p = absurd (omega arith)
last_lt_first (a ∷ []) i j h q p = absurd (omega arith)
last_lt_first (a ∷ b ∷ r) i zero h q p = absurd (omega arith)
last_lt_first (a ∷ b ∷ r) zero (suc j) h q p =
    omega (arith, first-suc a b r j, after_first a b r j h (omega arith))
last_lt_first (a ∷ b ∷ r) (suc i) (suc j) h q p = omega (
  arith,
  last-suc a b r i,
  first-suc a b r j,
  last_lt_first r i j (in_order_rest a b r h).1 (omega arith) (omega arith),
)

first_mono :
    (r : List ℕ) (i j : ℕ) → in_order r ≡ true → i ≤ j → j < length r / 2 → first r i ≤ first r j
first_mono r i j o h p = elim (dec_lt i j) [
  | yes q ↦ omega (arith, first_le_last r i o (omega arith), last_lt_first r i j o q p)
  | no n ↦ let same : i ≡ j = omega arith in rw same (omega arith)
]

last_mono :
    (r : List ℕ) (i j : ℕ) → in_order r ≡ true → i ≤ j → j < length r / 2 → last r i ≤ last r j
last_mono r i j o h p = elim (dec_lt i j) [
  | yes q ↦ omega (arith, last_lt_first r i j o q p, first_le_last r j o p)
  | no n ↦ let same : i ≡ j = omega arith in rw same (omega arith)
]

-- the half that the search keeps is the one with the range that holds the code point
goes_left :
    (r : List ℕ) (i mid c : ℕ)
    → in_order r ≡ true
    → i < length r / 2
    → first r i ≤ c
    → c < first r mid
    → i < mid
goes_left r i mid c o p a h = elim (dec_lt i mid) [
  | yes q ↦ q
  | no n ↦ absurd (omega (arith, first_mono r mid i o (omega arith) p))
]

goes_right :
    (r : List ℕ) (i mid c : ℕ)
    → in_order r ≡ true
    → mid < length r / 2
    → c ≤ last r i
    → last r mid < c
    → mid < i
goes_right r i mid c o p b h = elim (dec_lt mid i) [
  | yes q ↦ q
  | no n ↦ absurd (omega (arith, last_mono r i mid o (omega arith) p))
]

-- a range between `lo` and `hi` that holds the code point is not missed
search_finds :
    (fuel : ℕ) (r : List ℕ) (lo hi c i : ℕ)
    → in_order r ≡ true
    → hi ≤ length r / 2
    → lo ≤ i
    → i < hi
    → hi - lo ≤ fuel
    → first r i ≤ c
    → c ≤ last r i
    → search fuel r lo hi c ≡ true
unfolding search
search_finds zero r lo hi c i o h p q f a b = absurd (omega arith)
search_finds (suc fuel) r lo hi c i o h p q f a b =
    let mid = (lo + hi) / 2 in
    let low : ltb lo hi ≡ true = ground arith in
    elim (Bool-cases (ltb c (first r mid))) [
      | inl below ↦
          let left : i < mid = goes_left r i mid c o (omega arith) a (ground arith) in
          let later = search_finds fuel r lo mid c i o (omega arith) p left (omega arith) a b in
          ground arith
      | inr n ↦ elim (Bool-cases (ltb (last r mid) c)) [
        | inl above ↦
            let right : mid < i = goes_right r i mid c o (omega arith) b (ground arith) in
            let later =
              search_finds fuel r (mid + 1) hi c i o h (omega arith) q (omega arith) a b in
            ground arith
        | inr n' ↦ ground arith
      ]
    ]

-- For ranges in order, in_ranges finds a code point exactly when one of the ranges holds it.
pub in_ranges_iff :
    (r : List ℕ) (c : ℕ) → in_order r ≡ true → (in_ranges r c ≡ true) ↔ ((i : ℕ) × InRange r c i)
unfolding in_ranges InRange
in_ranges_iff r c o = (
  search_found (length r / 2) r 0 (length r / 2) c (omega arith),
  λ (i, (inside, a, b)).
      search_finds (length r / 2) r 0 (length r / 2) c i o (omega arith) (omega arith) inside
        (omega arith) a b,
)

letters_in_order : in_order g_letter_ranges ≡ true
unfolding in_order g_letter_ranges
letters_in_order = refl

numbers_in_order : in_order g_number_ranges ≡ true
unfolding in_order g_number_ranges
numbers_in_order = refl

-- A code point is a letter, or a digit, to the pre-tokenizer exactly when one of the ranges of the
-- letters, or of the numbers, holds it.
pub classes_iff :
    (c : ℕ)
    → ((cp_is_letter c ≡ true) ↔ ((i : ℕ) × InRange g_letter_ranges c i))
      × ((cp_is_digit c ≡ true) ↔ ((i : ℕ) × InRange g_number_ranges c i))
unfolding cp_is_letter cp_is_digit
classes_iff c = (
  in_ranges_iff g_letter_ranges c letters_in_order,
  in_ranges_iff g_number_ranges c numbers_in_order,
)
