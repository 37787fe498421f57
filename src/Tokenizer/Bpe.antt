-- ===== src/Tokenizer/Bpe.antt =====
-- The merge loop of src/tokenizer.c: bpe_word with its symbols, its candidates and try_bigram. A pointer
-- into the word is an offset, an index of -1 is `none`, and an allocation that fails is left out.
pub mod Output
pub mod Ends
pub mod Links
pub mod Walk
use charsiu.Prelude.{
  Bool, List, Option, [], drop, false, get_elem?, if◌then◌else◌, leb, length, ltb, max, none, not,
  set, some, suc, take, true, zero, ℕ, ◌%◌, ◌&&◌, ◌*◌, ◌++◌, ◌+◌, ◌-◌, ◌/◌, ◌==◌, ◌∷◌,
}
use charsiu.Tokenizer.Utf8.{char_lengths}
use charsiu.Tokenizer.Smap.{Smap, smap_get}
use charsiu.Tokenizer.Heap.{heap_push, heap_pop}

-- `struct tokenizer`; `spelling` is `tok` with `toklen`, `score` holds the bits of each float
pub record Tokenizer : Type 0 where
  pub spelling : List (List ℕ)
  pub type : List ℕ
  pub vocab : Smap
  pub merges : Smap
  pub score : List ℕ
  pub spm : Bool
  pub special : List ℕ
  pub bos : Option ℕ
  pub eos : Option ℕ
  pub eot : Option ℕ
  pub add_bos : Bool

-- `struct sym`
pub record Sym : Type 0 where
  pub text : ℕ
  pub n : ℕ
  pub prev : Option ℕ
  pub next : Option ℕ

-- `struct cand`
pub record Cand : Type 0 where
  pub left : ℕ
  pub right : ℕ
  pub rank : ℕ
  pub size : ℕ

unfoldable pub cand_better : Cand → Cand → Bool
cand_better x y = if x.rank == y.rank then ltb x.left y.left else ltb x.rank y.rank

-- the bytes of a symbol
unfoldable pub sym_text : List ℕ → Sym → List ℕ
sym_text w s = take s.n (drop s.text w)

-- try_bigram; the key is built in 512 bytes, so a longer pair is not looked up
unfoldable pub try_bigram :
    Tokenizer → List ℕ → List Sym → List Cand → Option ℕ → Option ℕ → List Cand
try_bigram tk w sy h none r = h
try_bigram tk w sy h (some l) none = h
try_bigram tk w sy h (some l) (some r) = elim (get_elem? sy l) [
  | none ↦ h
  | some a ↦ elim (get_elem? sy r) [
    | none ↦ h
    | some b ↦
        if leb 512 (a.n + 1 + b.n)
        then h
        else elim (smap_get tk.merges (sym_text w a ++ 32 ∷ sym_text w b)) [
          | none ↦ h
          | some rank ↦
              heap_push cand_better h
                (record { left = l; right = r; rank = rank; size = a.n + b.n })
        ]
  ]
]

-- one symbol for each character, from symbol `j` at offset `i` on; the last has no next
unfoldable pub symbols_from : List ℕ → ℕ → ℕ → List Sym
symbols_from [] j i = []
symbols_from (l ∷ ls) j i =
    record {
      text = i;
      n = l;
      prev = if j == 0 then none else some (j - 1);
      next = if length ls == 0 then none else some (j + 1);
    }
    ∷ symbols_from ls (j + 1) (i + l)

unfoldable pub first_symbols : List ℕ → List Sym
first_symbols w = symbols_from (char_lengths (length w) w) 0 0

-- `for (j = 1; j < nsym; j++) try_bigram(j - 1, j)`, with the number of rounds left
unfoldable pub first_bigrams : ℕ → ℕ → Tokenizer → List ℕ → List Sym → List Cand → List Cand
first_bigrams zero j tk w sy h = h
first_bigrams (suc left) j tk w sy h =
    first_bigrams left (j + 1) tk w sy (try_bigram tk w sy h (some (j - 1)) (some j))

-- is the pair of a candidate still there, side by side and of the size it had?
unfoldable pub still_there : Sym → Sym → Cand → Bool
still_there a b c =
    not (a.n == 0) && (not (b.n == 0) && (a.n + b.n == c.size && a.text + a.n == b.text))

-- the left symbol takes the right one in
unfoldable pub join : List Sym → Cand → Sym → Sym → List Sym
join sy c a b =
    let joined = set sy c.left (record a { n = a.n + b.n; next = b.next }) in
    let emptied = set joined c.right (record b { n = 0 }) in
    elim (b.next) [
      | none ↦ emptied
      | some x ↦ elim (get_elem? emptied x) [
        | none ↦ emptied
        | some s ↦ set emptied x (record s { prev = some c.left })
      ]
    ]

-- what one candidate that was popped does to the symbols and the heap
unfoldable pub merge_one : Tokenizer → List ℕ → Cand → List Sym → List Cand → List Sym × List Cand
merge_one tk w c sy h = elim (get_elem? sy c.left) [
  | none ↦ (sy, h)
  | some a ↦ elim (get_elem? sy c.right) [
    | none ↦ (sy, h)
    | some b ↦
        if not (still_there a b c)
        then (sy, h)
        else let after = join sy c a b in
          let h' = try_bigram tk w after h a.prev (some c.left) in
          (after, try_bigram tk w after h' (some c.left) b.next)
  ]
]

-- `while (heap_pop(&h, &c))`, on fuel: a round takes a candidate out, and one that puts up to two in
-- empties a symbol
unfoldable pub merge_loop : ℕ → Tokenizer → List ℕ → List Sym → List Cand → List Sym × List Cand
merge_loop zero tk w sy h = (sy, h)
merge_loop (suc fuel) tk w sy h = elim (heap_pop cand_better h) [
  | none ↦ (sy, h)
  | some (c, h1) ↦ let (sy', h') = merge_one tk w c sy h1 in merge_loop fuel tk w sy' h'
]

-- an upper-case hexadecimal digit
unfoldable pub hex_digit : ℕ → ℕ
hex_digit d = if ltb d 10 then 48 + d else 55 + d

-- spm_byte: the id of `<0xNN>`
unfoldable pub spm_byte : Tokenizer → ℕ → Option ℕ
spm_byte tk b =
    smap_get tk.vocab (60 ∷ 48 ∷ 120 ∷ hex_digit (b / 16) ∷ hex_digit (b % 16) ∷ 62 ∷ [])

-- `if (cnt >= max) return -1; out[cnt++] = id`
unfoldable pub emit : ℕ → List ℕ → ℕ → Option (List ℕ)
emit max out id = if leb max (length out) then none else some (out ++ id ∷ [])

-- the byte fallback
unfoldable pub emit_bytes : Tokenizer → ℕ → List ℕ → List ℕ → Option (List ℕ)
emit_bytes tk max out [] = some out
emit_bytes tk max out (b ∷ bs) = elim (spm_byte tk b) [
  | none ↦ none
  | some id ↦ elim (emit max out id) [ none ↦ none | some out' ↦ emit_bytes tk max out' bs ]
]

-- the ids of one symbol; one that was merged away has none
unfoldable pub emit_symbol : Tokenizer → List ℕ → ℕ → List ℕ → Sym → Option (List ℕ)
emit_symbol tk w max out s =
    if s.n == 0 then some out else elim (smap_get tk.vocab (sym_text w s)) [
      | some id ↦ emit max out id
      | none ↦ emit_bytes tk max out (sym_text w s)
    ]

-- How the walk over the symbols ends: with the ids, with -1, or, which never happens, at a link that leads
-- out of the array or back.
pub data Walked : Type 0 where
  written : List ℕ → Walked
  no_room : Walked
  lost : Walked

unfoldable pub is_lost : Walked → Bool
is_lost lost = true
is_lost no_room = false
is_lost (written ids) = false

unfoldable pub ids_of : Walked → Option (List ℕ)
ids_of (written ids) = some ids
ids_of no_room = none
ids_of lost = none

-- The walk along `next` from symbol `j`, on fuel: the links run forward, so no symbol comes twice.
unfoldable pub emit_symbols : ℕ → Tokenizer → List ℕ → ℕ → List Sym → List ℕ → ℕ → Walked
emit_symbols zero tk w max sy out j = lost
emit_symbols (suc fuel) tk w max sy out j = elim (get_elem? sy j) [
  | none ↦ lost
  | some s ↦ elim (emit_symbol tk w max out s) [
    | none ↦ no_room
    | some out' ↦ elim (s.next) [
      | none ↦ written out'
      | some k ↦ emit_symbols fuel tk w max sy out' k
    ]
  ]
]

-- the symbols of a word when the heap is empty
unfoldable pub merged_symbols : Tokenizer → List ℕ → List Sym
unfolding first_symbols first_bigrams merge_loop
merged_symbols tk w =
    let sy = first_symbols w in
    let h = first_bigrams (length sy - 1) 1 tk w sy [] in (merge_loop (3 * length sy) tk w sy h).0

-- the walk of bpe_word
unfoldable pub word_walk : Tokenizer → List ℕ → ℕ → List ℕ → Walked
unfolding merged_symbols emit_symbols
word_walk tk w max out =
    emit_symbols (length (first_symbols w)) tk w max (merged_symbols tk w) out 0

-- bpe_word: `out` holds the ids so far, and `none` is the result -1
unfoldable pub bpe_word : Tokenizer → List ℕ → ℕ → List ℕ → Option (List ℕ)
unfolding word_walk ids_of
bpe_word tk [] max out = some out
bpe_word tk (b ∷ bs) max out = ids_of (word_walk tk (b ∷ bs) max out)
