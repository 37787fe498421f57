-- ===== src/Tokenizer/Bpe/Ends.antt =====
-- The end of the merge loop of bpe_word in src/tokenizer.c.
use charsiu.Prelude.{
  Bool-cases, List, Option, Option-cases, [], ap, arith, get_elem?, get_elem?-set_ne, if◌then◌else◌,
  inl, inr, leb, length, none, refl, set, some, suc, sym, true, zero, ℕ, ◌*◌, ◌++◌, ◌+◌, ◌-◌, ◌==◌,
  ◌∙◌, ◌∷◌, ◌≡◌, ◌≢◌, ◌≤◌,
}
use charsiu.Tokenizer.Smap.{smap_get}
use charsiu.Tokenizer.Heap.Size.{length-heap_push, length-heap_pop}
use charsiu.Tokenizer.Bpe.{
  Tokenizer, Sym, Cand, cand_better, sym_text, try_bigram, first_symbols, first_bigrams,
  still_there, join, merge_one, merge_loop,
}

abbrev flag : ℕ → ℕ
flag n = if n == 0 then 0 else 1

flag_full : (n : ℕ) → n ≢ 0 → flag n ≡ 1
flag_full n h = ground arith

-- how many symbols are not empty
unfoldable pub live : List Sym → ℕ
live [] = 0
live (s ∷ sy) = flag s.n + live sy

pub live-le : (sy : List Sym) → live sy ≤ length sy
unfolding live
live-le [] = omega arith
live-le (s ∷ sy) = ground (arith, live-le sy)

live-set :
    (sy : List Sym) (i : ℕ) (a b : Sym)
    → get_elem? sy i ≡ some a
    → live (set sy i b) + flag a.n ≡ live sy + flag b.n
unfolding live
live-set [] i a b e = ground arith
live-set (s ∷ sy) zero a b e = let same : s.n ≡ a.n = ground arith in rw same (omega arith)
live-set (s ∷ sy) (suc i) a b e = omega (arith, live-set sy i a b e)

try_bigram-le :
    (tk : Tokenizer) (w : List ℕ) (sy : List Sym) (h : List Cand) (l r : Option ℕ)
    → length (try_bigram tk w sy h l r) ≤ suc (length h)
unfolding try_bigram
try_bigram-le tk w sy h none r = omega arith
try_bigram-le tk w sy h (some l) none = omega arith
try_bigram-le tk w sy h (some l) (some r) = elim (Option-cases (get_elem? sy l)) [
  | inl n ↦ rw (n, try_bigram) (omega arith)
  | inr (a, x) ↦ elim (Option-cases (get_elem? sy r)) [
    | inl n ↦ rw (x, n, try_bigram) (omega arith)
    | inr (b, y) ↦ elim (Bool-cases (leb 512 (a.n + 1 + b.n))) [
      | inl long ↦ rw (x, y, long, try_bigram) (omega arith)
      | inr n ↦ elim (Option-cases (smap_get tk.merges (sym_text w a ++ 32 ∷ sym_text w b))) [
        | inl none_e ↦ rw (x, y, n, none_e, try_bigram) (omega arith)
        | inr (rank, z) ↦
            rw (x, y, n, z, try_bigram)
              (omega (
                arith,
                length-heap_push cand_better h
                    (record { left = l; right = r; rank = rank; size = a.n + b.n }),
              ))
      ]
    ]
  ]
]

-- a pair that is still there has two different places
still_there-apart :
    (sy : List Sym) (c : Cand) {a b : Sym}
    → get_elem? sy c.left ≡ some a
    → get_elem? sy c.right ≡ some b
    → still_there a b c ≡ true
    → (c.left ≢ c.right) × (a.n ≢ 0) × (b.n ≢ 0)
unfolding still_there
still_there-apart sy c {a = a} {b = b} x y h =
    let kept : (a.n ≢ 0) × (b.n ≢ 0) × (a.text + a.n ≡ b.text) = ground arith in
    (
      λ e.
          let one : some a ≡ some b = sym x ∙ ap (λ i. get_elem? sy i) e ∙ y in
          let same : a.text ≡ b.text = ground arith in kept.0 (omega (arith, kept.2, same)),
      kept.0,
      kept.1,
    )

pub join-live :
    (sy : List Sym) (c : Cand) {a b : Sym}
    → get_elem? sy c.left ≡ some a
    → get_elem? sy c.right ≡ some b
    → c.left ≢ c.right
    → a.n ≢ 0
    → b.n ≢ 0
    → live (join sy c a b) + 1 ≡ live sy
unfolding join
join-live sy c {a = a} {b = b} x y apart full_a full_b =
    let taken : Sym = record a { n = a.n + b.n; next = b.next } in
    let joined = set sy c.left taken in
    let at_right : get_elem? joined c.right ≡ some b = get_elem?-set_ne sy taken apart ∙ y in
    let emptied = set joined c.right (record b { n = 0 }) in
    let first = live-set sy c.left a taken x in
    let second = live-set joined c.right b (record b { n = 0 }) at_right in
    let two : live emptied + 1 ≡ live sy = omega (
      arith,
      first,
      second,
      flag_full a.n full_a,
      flag_full b.n full_b,
      flag_full (a.n + b.n) (omega arith),
    ) in
    elim (Option-cases b.next) [
      | inl n ↦ rw (n, join) two
      | inr (k, e) ↦ elim (Option-cases (get_elem? emptied k)) [
        | inl n ↦ rw (e, n, join) two
        | inr (s, z) ↦
            rw (e, z, join)
              (omega (arith, two, live-set emptied k s (record s { prev = some c.left }) z))
      ]
    ]

module _ (tk : Tokenizer) (w : List ℕ) where
  -- what a round weighs: the candidates, and two for each symbol that is not empty
  merge_one-le :
      (c : Cand) (sy : List Sym) (h : List Cand)
      → length (merge_one tk w c sy h).1 + 2 * live (merge_one tk w c sy h).0
        ≤ length h + 2 * live sy
  unfolding merge_one
  merge_one-le c sy h = elim (Option-cases (get_elem? sy c.left)) [
    | inl n ↦ rw (n, merge_one) (omega arith)
    | inr (a, x) ↦ elim (Option-cases (get_elem? sy c.right)) [
      | inl n ↦ rw (x, n, merge_one) (omega arith)
      | inr (b, y) ↦ elim (Bool-cases (still_there a b c)) [
        | inr n ↦ rw (x, y, n, merge_one) (omega arith)
        | inl there ↦
            let after = join sy c a b in
            let (apart, full_a, full_b) = still_there-apart sy c x y there in
            let h' = try_bigram tk w after h a.prev (some c.left) in
            rw (x, y, there, merge_one)
              (omega (
                arith,
                join-live sy c x y apart full_a full_b,
                try_bigram-le tk w after h a.prev (some c.left),
                try_bigram-le tk w after h' (some c.left) b.next,
              ))
      ]
    ]
  ]

  merge_loop-empty :
      (fuel : ℕ) (sy : List Sym) (h : List Cand)
      → length h + 2 * live sy ≤ fuel
      → (merge_loop fuel tk w sy h).1 ≡ []
  unfolding merge_loop
  merge_loop-empty zero sy [] p = refl
  merge_loop-empty zero sy (c ∷ h) p = absurd (omega arith)
  merge_loop-empty (suc fuel) sy h p = elim (length-heap_pop cand_better h) [
    | inl (e, n) ↦ rw (n, merge_loop) e
    | inr (c, (h', (e, one))) ↦
        let round = merge_one tk w c sy h' in
        rw (e, merge_loop)
          (merge_loop-empty fuel round.0 round.1 (omega (arith, one, merge_one-le c sy h')))
  ]

  first_bigrams-le :
      (left j : ℕ) (sy : List Sym) (h : List Cand)
      → length (first_bigrams left j tk w sy h) ≤ left + length h
  unfolding first_bigrams
  first_bigrams-le zero j sy h = omega arith
  first_bigrams-le (suc left) j sy h =
      let next = try_bigram tk w sy h (some (j - 1)) (some j) in
      omega (
        arith,
        first_bigrams-le left (j + 1) sy next,
        try_bigram-le tk w sy h (some (j - 1)) (some j),
      )

  pub merge_loop-ends :
      (merge_loop
        (3 * length (first_symbols w))
        tk
        w
        (first_symbols w)
        (first_bigrams (length (first_symbols w) - 1) 1 tk w (first_symbols w) [])).1
      ≡ []
  merge_loop-ends =
      let sy = first_symbols w in
      let few = first_bigrams-le (length sy - 1) 1 sy [] in
      merge_loop-empty (3 * length sy) sy (first_bigrams (length sy - 1) 1 tk w sy [])
        (omega (arith, few, live-le sy))
