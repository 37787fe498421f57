-- ===== src/Tokenizer/Encode/Special.antt =====
-- Which special token special_at of src/tokenizer.c gives for a text.
use charsiu.Prelude.{
  Bool-cases, List, Option, [], ap, arith, get_elem?, get_or, if◌then◌else◌, inl, inr, leb, length,
  ltb, none, not, refl, some, subst, suc, sym, take, true, zero, ℕ, ◌&&◌, ◌==◌, ◌∷◌, ◌≡◌, ◌≤◌,
}
use charsiu.Gguf.Lookup.{bytes_eq}
use charsiu.Tokenizer.Bpe.{Tokenizer}
use charsiu.Tokenizer.Encode.{special_from, special_at}

abbrev spelt : Tokenizer → ℕ → List ℕ
spelt tk id = get_or tk.spelling id []

-- the text begins with the spelling of the token
unfoldable pub Begins : Tokenizer → List ℕ → ℕ → Type 0
Begins tk s id =
    (length (get_or tk.spelling id []) ≤ length s)
    × (bytes_eq (take (length (get_or tk.spelling id [])) s) (get_or tk.spelling id []) ≡ true)

-- the best after one more token
unfoldable next_best : Tokenizer → List ℕ → ℕ → Option ℕ × ℕ → Option ℕ × ℕ
next_best tk s id best =
    let l = length (spelt tk id) in
    if not (l == 0) && (leb l (length s) && (ltb best.1 l && bytes_eq (take l s) (spelt tk id)))
    then (some id, l)
    else best

next_best-grows :
    (tk : Tokenizer) (s : List ℕ) (id : ℕ) (best : Option ℕ × ℕ)
    → best.1 ≤ (next_best tk s id best).1
unfolding next_best
next_best-grows tk s id best =
    let l = length (spelt tk id) in
    let better =
      not (l == 0) && (leb l (length s) && (ltb best.1 l && bytes_eq (take l s) (spelt tk id))) in
    elim (Bool-cases better) [
      | inl y ↦ rw (y, next_best) (ground arith)
      | inr n ↦ rw (n, next_best) (omega arith)
    ]

next_best-longest :
    (tk : Tokenizer) (s : List ℕ) (id : ℕ) (best : Option ℕ × ℕ)
    → Begins tk s id
    → length (spelt tk id) ≤ (next_best tk s id best).1
unfolding next_best Begins
next_best-longest tk s id best b =
    let l = length (spelt tk id) in
    let better =
      not (l == 0) && (leb l (length s) && (ltb best.1 l && bytes_eq (take l s) (spelt tk id))) in
    elim (Bool-cases better) [
      | inl y ↦ rw (y, next_best) (omega arith)
      | inr n ↦ rw (n, next_best) (ground arith)
    ]

special_from-grows :
    (tk : Tokenizer) (s ids : List ℕ) (best : Option ℕ × ℕ)
    → best.1 ≤ (special_from tk s ids best).1
unfolding special_from next_best
special_from-grows tk s [] best = omega arith
special_from-grows tk s (id ∷ ids) best =
    omega
      (arith, next_best-grows tk s id best, special_from-grows tk s ids (next_best tk s id best))

special_from-longest :
    (tk : Tokenizer) (s ids : List ℕ) (best : Option ℕ × ℕ) (i id : ℕ)
    → get_elem? ids i ≡ some id
    → Begins tk s id
    → length (spelt tk id) ≤ (special_from tk s ids best).1
unfolding special_from next_best
special_from-longest tk s [] best i id e b = ground arith
special_from-longest tk s (x ∷ ids) best (suc i) id e b =
    special_from-longest tk s ids (next_best tk s x best) i id e b
special_from-longest tk s (x ∷ ids) best zero id e b =
    let same : x ≡ id = ground arith in
    let own = next_best-longest tk s x best (subst (λ (t : ℕ). Begins tk s t) (sym same) b) in
    let more = special_from-grows tk s ids (next_best tk s x best) in
    let size : length (spelt tk x) ≡ length (spelt tk id) =
      ap (λ (t : ℕ). length (spelt tk t)) same in
    omega arith

-- a special token
abbrev IsSpecial : Tokenizer → ℕ → Type 0
IsSpecial tk id = (i : ℕ) × (get_elem? tk.special i ≡ some id)

-- what a result of special_at is of: nothing, or the spelling of a special token that the text begins with
unfoldable pub IsFound : Tokenizer → List ℕ → Option ℕ × ℕ → Type 0
unfolding Begins
IsFound tk s (none, n) = n ≡ 0
IsFound tk s (some id, n) =
    IsSpecial tk id × Begins tk s id × (n ≡ length (get_or tk.spelling id [])) × (1 ≤ n)

next_best-IsFound :
    (tk : Tokenizer) (s : List ℕ) (id : ℕ) (best : Option ℕ × ℕ)
    → IsSpecial tk id
    → IsFound tk s best
    → IsFound tk s (next_best tk s id best)
unfolding next_best IsFound Begins
next_best-IsFound tk s id best there found =
    let l = length (spelt tk id) in
    let better =
      not (l == 0) && (leb l (length s) && (ltb best.1 l && bytes_eq (take l s) (spelt tk id))) in
    elim (Bool-cases better) [
      | inl y ↦ rw (y, next_best) (there, (ground arith, ground arith), refl, ground arith)
      | inr n ↦ rw (n, next_best) found
    ]

special_from-IsFound :
    (tk : Tokenizer) (s ids : List ℕ) (best : Option ℕ × ℕ)
    → ((i id : ℕ) → get_elem? ids i ≡ some id → IsSpecial tk id)
    → IsFound tk s best
    → IsFound tk s (special_from tk s ids best)
unfolding special_from next_best
special_from-IsFound tk s [] best all found = found
special_from-IsFound tk s (x ∷ ids) best all found =
    special_from-IsFound tk s ids (next_best tk s x best) (λ i id e. all (suc i) id e)
      (next_best-IsFound tk s x best (all 0 x refl) found)

-- special_at gives the id of a special token, with the length of its spelling, only where the text begins
-- with that spelling and it is not empty; where it gives no id the length is 0. Every special token that the
-- text begins with is as long as the one given, or shorter.
pub special_at-longest :
    (tk : Tokenizer) (s : List ℕ)
    → IsFound tk s (special_at tk s)
      × ((i id : ℕ)
          → get_elem? tk.special i ≡ some id
          → Begins tk s id
          → length (get_or tk.spelling id []) ≤ (special_at tk s).1)
unfolding special_at IsFound
special_at-longest tk s = (
  special_from-IsFound tk s tk.special (none, 0) (λ i id e. (i, e)) refl,
  λ i id e b. special_from-longest tk s tk.special (none, 0) i id e b,
)
