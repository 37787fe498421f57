-- ===== src/Tokenizer/Utf8.antt =====
-- utf8_decode and utf8_encode of src/tokenizer.c, and the loop over a text's characters. Every element of
-- a text is a byte, below 256: `& 0xe0` keeps the top three bits of one, and `/ 32` shows them.
pub mod RoundTrip
use charsiu.Prelude.{
  List, [], bit_or, drop, get_or, if◌then◌else◌, leb, length, ltb, suc, u8, zero, ℕ, ◌%◌, ◌&&◌, ◌*◌,
  ◌++◌, ◌+◌, ◌/◌, ◌==◌, ◌^◌, ◌∷◌,
}

-- utf8_decode: the length and the code point. An empty text has length 0, and its code point is not
-- written (0 here); no caller asks for it.
unfoldable pub utf8_decode : List ℕ → ℕ × ℕ
utf8_decode [] = (0, 0)
utf8_decode (a ∷ u) =
    if ltb a 0x80
    then (1, a)
    else if a / 32 == 6 && leb 1 (length u)
    then (2, a % 32 * 2 ^ 6 + get_or u 0 0 % 64)
    else if a / 16 == 14 && leb 2 (length u)
    then (3, a % 16 * 2 ^ 12 + get_or u 0 0 % 64 * 2 ^ 6 + get_or u 1 0 % 64)
    else if a / 8 == 30 && leb 3 (length u)
    then (
      4,
      a % 8 * 2 ^ 18 + get_or u 0 0 % 64 * 2 ^ 12 + get_or u 1 0 % 64 * 2 ^ 6 + get_or u 2 0 % 64,
    )
    else (1, 0xfffd)

-- utf8_encode; in the first three cases the shifted bits stay clear of the mark, so `|` adds them
unfoldable pub utf8_encode : ℕ → List ℕ
utf8_encode cp =
    if ltb cp 0x80
    then cp ∷ []
    else if ltb cp 0x800
    then (0xc0 + cp / 2 ^ 6) ∷ (0x80 + cp % 64) ∷ []
    else if ltb cp 0x10000
    then (0xe0 + cp / 2 ^ 12) ∷ (0x80 + cp / 2 ^ 6 % 64) ∷ (0x80 + cp % 64) ∷ []
    else u8 (bit_or 0xf0 (cp / 2 ^ 18))
      ∷ (0x80 + cp / 2 ^ 12 % 64)
      ∷ (0x80 + cp / 2 ^ 6 % 64)
      ∷ (0x80 + cp % 64)
      ∷ []

-- The loop that decodes a text from its start on: the code points in order. The first argument is the
-- fuel; the length of the text is enough, since a step takes a byte or more.
unfoldable pub code_points : ℕ → List ℕ → List ℕ
code_points zero s = []
code_points (suc fuel) [] = []
code_points (suc fuel) (a ∷ u) =
    let (l, cp) = utf8_decode (a ∷ u) in cp ∷ code_points fuel (drop l (a ∷ u))

-- The same loop, as the lengths of the characters.
unfoldable pub char_lengths : ℕ → List ℕ → List ℕ
char_lengths zero s = []
char_lengths (suc fuel) [] = []
char_lengths (suc fuel) (a ∷ u) =
    let l = (utf8_decode (a ∷ u)).0 in l ∷ char_lengths fuel (drop l (a ∷ u))

-- a run of code points written out
unfoldable pub utf8_text : List ℕ → List ℕ
utf8_text [] = []
utf8_text (cp ∷ cps) = utf8_encode cp ++ utf8_text cps
