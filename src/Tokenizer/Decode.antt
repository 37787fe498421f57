-- ===== src/Tokenizer/Decode.antt =====
-- tokenizer_decode of src/tokenizer.c, with hexval. The buffer of 512 bytes is the list of the bytes
-- written to it.
pub mod Spelling
use charsiu.Prelude.{
  Bool, List, Option, [], drop, false, get_elem?, get_or, if◌then◌else◌, leb, length, ltb, none,
  some, suc, u8, zero, ℕ, ◌&&◌, ◌*◌, ◌++◌, ◌+◌, ◌-◌, ◌==◌, ◌||◌, ◌∷◌,
}
use charsiu.Tokenizer.Utf8.{utf8_decode, utf8_encode}
use charsiu.Tokenizer.ByteTable.{u2b}
use charsiu.Tokenizer.Bpe.{Tokenizer}

-- the value of a hexadecimal digit, if it is one
unfoldable pub hexval : ℕ → Option ℕ
hexval c =
    if leb 48 c && leb c 57
    then some (c - 48)
    else if leb 97 c && leb c 102
    then some (c - 97 + 10)
    else if leb 65 c && leb c 70
    then some (c - 65 + 10)
    else none

-- the byte that a piece `<0xNN>` stands for
unfoldable pub byte_piece : List ℕ → Option ℕ
byte_piece (a ∷ b ∷ c ∷ x ∷ y ∷ z ∷ []) =
    if a == 60 && (b == 48 && (c == 120 && z == 62))
    then elim (hexval x) [
      | none ↦ none
      | some hi ↦ elim (hexval y) [ none ↦ none | some lo ↦ some (u8 (hi * 16 + lo)) ]
    ]
    else none
byte_piece _ = none

-- does U+2581 stand here?
unfoldable pub at_mark : List ℕ → Bool
at_mark s =
    leb 3 (length s) && (get_or s 0 0 == 0xe2 && (get_or s 1 0 == 0x96 && get_or s 2 0 == 0x81))

-- The loop over a SentencePiece piece, with `w` bytes written, on fuel: a step takes a byte or more.
unfoldable pub unmark : ℕ → List ℕ → ℕ → List ℕ
unmark zero s w = []
unmark (suc fuel) [] w = []
unmark (suc fuel) (b ∷ bs) w =
    let marked = at_mark (b ∷ bs) in
    let rest = unmark fuel (if marked then drop 3 (b ∷ bs) else bs) (w + 1) in
    if leb 512 (w + 4) then [] else (if marked then 32 else b) ∷ rest

-- the bytes of one code point of a spelling
unfoldable pub decoded : ℕ → List ℕ
decoded cp = elim (u2b cp) [ some b ↦ b ∷ [] | none ↦ utf8_encode cp ]

-- The loop over a byte-encoded spelling, with `w` bytes written, on fuel, likewise.
unfoldable pub decode_spelling : ℕ → List ℕ → ℕ → List ℕ
decode_spelling zero s w = []
decode_spelling (suc fuel) [] w = []
decode_spelling (suc fuel) (b ∷ bs) w =
    let (l, cp) = utf8_decode (b ∷ bs) in
    let new = decoded cp in
    let rest = decode_spelling fuel (drop l (b ∷ bs)) (w + length new) in
    if leb 512 (w + 4) then [] else new ++ rest

abbrev pub control : ℕ
control = 3

-- tokenizer_is_control, for an id that is not negative
unfoldable pub is_control : Tokenizer → ℕ → Bool
is_control tk id = ltb id (length tk.spelling) && get_or tk.type id 0 == control

-- tokenizer_is_eog, for an id that is not negative
unfoldable pub is_eog : Tokenizer → ℕ → Bool
is_eog tk id =
    elim (tk.eos) [ none ↦ false | some e ↦ id == e ]
    || elim (tk.eot) [ none ↦ false | some e ↦ id == e ]

-- tokenizer_decode, for an id that is not negative
unfoldable pub tokenizer_decode : Tokenizer → ℕ → List ℕ
tokenizer_decode tk id = elim (get_elem? tk.spelling id) [
  | none ↦ []
  | some s ↦
      if get_or tk.type id 0 == control
      then s
      else if tk.spm
      then elim (byte_piece s) [ some b ↦ b ∷ [] | none ↦ unmark (length s) s 0 ]
      else decode_spelling (length s) s 0
]
