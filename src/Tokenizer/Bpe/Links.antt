-- ===== src/Tokenizer/Bpe/Links.antt =====
-- The links between the symbols of a word in src/tokenizer.c, at the start and after a merge.
use charsiu.Prelude.{
  List, Option, Option-cases, [], ap, arith, get_elem?, if◌then◌else◌, inl, inr, length, length-set,
  none, refl, set, some, suc, zero, ℕ, ◌+◌, ◌-◌, ◌<◌, ◌==◌, ◌∙◌, ◌∷◌, ◌≡◌,
}
use charsiu.Tokenizer.Heap.Members.{get_elem?-set_cases}
use charsiu.Tokenizer.Bpe.{Sym, Cand, symbols_from, join}

-- a link from place `j` forward, in an array of `n`
abbrev pub IsForward : ℕ → ℕ → Option ℕ → Type 0
IsForward n j o = (k : ℕ) → o ≡ some k → (j < k) × (k < n)

abbrev pub IsBack : ℕ → Option ℕ → Type 0
IsBack j o = (p : ℕ) → o ≡ some p → p < j

abbrev pub AreLinked : List Sym → Type 0
AreLinked sy =
    (j : ℕ) (s : Sym) → get_elem? sy j ≡ some s → IsForward (length sy) j s.next × IsBack j s.prev

AreLinked-set :
    (sy : List Sym) (i : ℕ) (v : Sym)
    → AreLinked sy
    → IsForward (length sy) i v.next
    → IsBack i v.prev
    → AreLinked (set sy i v)
AreLinked-set sy i v links f b j s e =
    let long = length-set sy i v in
    elim (get_elem?-set_cases sy i v j s e) [
      | inl (at, same) ↦ rw (long, at, same) (f, b)
      | inr there ↦ rw long (links j s there)
    ]

-- a candidate's places, in their order
abbrev pub IsOrdered : Cand → Type 0
IsOrdered c = c.left < c.right

pub AreLinked-join :
    (sy : List Sym) (c : Cand) {a b : Sym}
    → AreLinked sy
    → IsOrdered c
    → get_elem? sy c.left ≡ some a
    → get_elem? sy c.right ≡ some b
    → AreLinked (join sy c a b) × (length (join sy c a b) ≡ length sy)
unfolding join
AreLinked-join sy c {a = a} {b = b} links order x y =
    let taken : Sym = record a { n = a.n + b.n; next = b.next } in
    let joined = set sy c.left taken in
    let gone : Sym = record b { n = 0 } in
    let emptied = set joined c.right gone in
    let (fb, bb) = links c.right b y in
    let (fa, ba) = links c.left a x in
    let one = length-set sy c.left taken in
    let two : length emptied ≡ length sy = length-set joined c.right gone ∙ one in
    let first : AreLinked joined =
      AreLinked-set sy c.left taken links (λ k e. (omega (arith, fb k e), (fb k e).1)) ba in
    let second : AreLinked emptied = AreLinked-set joined c.right gone first (rw one fb) bb in
    elim (Option-cases b.next) [
      | inl n ↦ rw (n, join) (second, two)
      | inr (k, e) ↦ elim (Option-cases (get_elem? emptied k)) [
        | inl n ↦ rw (e, n, join) (second, two)
        | inr (s, z) ↦
            let back : Sym = record s { prev = some c.left } in
            let behind : c.left < k = omega (arith, fb k e) in
            rw (e, z, join)
              (
                AreLinked-set emptied k back second (second k s z).0
                    (λ p q. (let same : c.left ≡ p = ground arith in omega arith)),
                length-set emptied k back ∙ two,
              )
      ]
    ]

-- at the start
abbrev next_of : Option Sym → Option ℕ
next_of none = none
next_of (some s) = s.next

abbrev prev_of : Option Sym → Option ℕ
prev_of none = none
prev_of (some s) = s.prev

first_next :
    (n j k : ℕ) → (if n == 0 then none else some (j + 1)) ≡ some k → (k ≡ j + 0 + 1) × (1 < suc n)
first_next n j k e = ground arith

first_prev : (j p : ℕ) → (if j == 0 then none else some (j - 1)) ≡ some p → p + 1 ≡ j + 0
first_prev j p e = ground arith

symbols_from-links :
    (ls : List ℕ) (j i t : ℕ) (s : Sym)
    → get_elem? (symbols_from ls j i) t ≡ some s
    → ((k : ℕ) → s.next ≡ some k → (k ≡ j + t + 1) × (t + 1 < length ls))
      × ((p : ℕ) → s.prev ≡ some p → p + 1 ≡ j + t)
unfolding symbols_from
symbols_from-links [] j i t s e = grind arith
symbols_from-links (l ∷ ls) j i zero s e =
    (λ k h. first_next (length ls) j k (ap next_of e ∙ h), λ p h. first_prev j p (ap prev_of e ∙ h))
symbols_from-links (l ∷ ls) j i (suc t) s e =
    let (f, b) = symbols_from-links ls (j + 1) (i + l) t s e in
    (λ k h. (omega (arith, f k h), omega (arith, f k h)), λ p h. omega (arith, b p h))

pub length-symbols_from : (ls : List ℕ) (j i : ℕ) → length (symbols_from ls j i) ≡ length ls
unfolding symbols_from
length-symbols_from [] j i = refl
length-symbols_from (l ∷ ls) j i = ap suc (length-symbols_from ls (j + 1) (i + l))

pub AreLinked-symbols_from : (ls : List ℕ) → AreLinked (symbols_from ls 0 0)
AreLinked-symbols_from ls j s e =
    let (f, b) = symbols_from-links ls 0 0 j s e in
    let long = length-symbols_from ls 0 0 in
    (λ k h. (omega (arith, f k h), omega (arith, f k h)), λ p h. omega (arith, b p h))
