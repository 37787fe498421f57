-- ===== src/Tokenizer/Utf8/RoundTrip.antt =====
-- utf8_decode of src/tokenizer.c on what utf8_encode writes.
use charsiu.Prelude.{
  List, [], arith, bit_or, drop, drop-append, length, length-append, length-drop, refl, suc, zero,
  ℕ, ◌++◌, ◌+◌, ◌/◌, ◌<◌, ◌^◌, ◌∙◌, ◌∷◌, ◌≡◌, ◌≤◌,
}
use charsiu.Tokenizer.Utf8.{utf8_decode, utf8_encode, code_points, char_lengths, utf8_text}

bit_or_mark : (x : ℕ) → x < 8 → bit_or 0xf0 x ≡ 0xf0 + x
bit_or_mark zero h = refl
bit_or_mark (suc zero) h = refl
bit_or_mark (suc (suc zero)) h = refl
bit_or_mark (suc (suc (suc zero))) h = refl
bit_or_mark (suc (suc (suc (suc zero)))) h = refl
bit_or_mark (suc (suc (suc (suc (suc zero))))) h = refl
bit_or_mark (suc (suc (suc (suc (suc (suc zero)))))) h = refl
bit_or_mark (suc (suc (suc (suc (suc (suc (suc zero))))))) h = refl
bit_or_mark (suc (suc (suc (suc (suc (suc (suc (suc x)))))))) h = absurd (omega arith)

-- A code point below 2 ^ 21 is read back from its encoding, whatever follows it.
pub utf8_decode-utf8_encode :
    (cp : ℕ) (rest : List ℕ)
    → cp < 2 ^ 21
    → utf8_decode (utf8_encode cp ++ rest) ≡ (length (utf8_encode cp), cp)
unfolding utf8_decode utf8_encode
utf8_decode-utf8_encode cp rest h = ground (arith, bit_or_mark (cp / 2 ^ 18))

pub length-utf8_encode : (cp : ℕ) → (1 ≤ length (utf8_encode cp)) × (length (utf8_encode cp) ≤ 4)
unfolding utf8_encode
length-utf8_encode cp = ground arith

-- a character takes a byte at least, and no more than the text has
pub utf8_decode-bounds :
    (a : ℕ) (u : List ℕ)
    → (1 ≤ (utf8_decode (a ∷ u)).0) × ((utf8_decode (a ∷ u)).0 ≤ length (a ∷ u))
unfolding utf8_decode
utf8_decode-bounds a u = ground arith

-- every code point of the list is one that four bytes can carry
unfoldable pub IsEncodable : List ℕ → Type 0
IsEncodable [] = Unit
IsEncodable (cp ∷ cps) = (cp < 2 ^ 21) × IsEncodable cps

-- one step of the loop, where the text does not begin with an empty character
code_points_step :
    (fuel : ℕ) (s : List ℕ)
    → 0 < length s
    → code_points (suc fuel) s ≡ (utf8_decode s).1 ∷ code_points fuel (drop (utf8_decode s).0 s)
unfolding code_points
code_points_step fuel [] h = absurd (omega arith)
code_points_step fuel (a ∷ u) h = refl

code_points-empty : (fuel : ℕ) → code_points fuel [] ≡ []
unfolding code_points
code_points-empty zero = refl
code_points-empty (suc fuel) = refl

-- Decoding a run of code points that was written out gives the run, for any fuel of its bytes or more.
pub code_points-utf8_text :
    (fuel : ℕ) (cps : List ℕ)
    → IsEncodable cps
    → length (utf8_text cps) ≤ fuel
    → code_points fuel (utf8_text cps) ≡ cps
unfolding utf8_text IsEncodable
code_points-utf8_text fuel [] v h = code_points-empty fuel
code_points-utf8_text zero (cp ∷ cps) v h =
    absurd (omega (arith, length-utf8_encode cp, length-append (utf8_encode cp) (utf8_text cps)))
code_points-utf8_text (suc fuel) (cp ∷ cps) (small, v) h =
    let read = utf8_decode-utf8_encode cp (utf8_text cps) small in
    let long = length-utf8_encode cp in
    let both = length-append (utf8_encode cp) (utf8_text cps) in
    let rest = drop-append (utf8_encode cp) (utf8_text cps) in
    code_points_step fuel (utf8_encode cp ++ utf8_text cps) (omega arith)
    ∙ rw (read, rest, code_points-utf8_text fuel cps v (omega arith)) refl

unfoldable pub sum : List ℕ → ℕ
sum [] = 0
sum (x ∷ xs) = x + sum xs

-- The characters of a text make up the text: the fuel that the loop is given lets it reach the end.
pub sum-char_lengths :
    (fuel : ℕ) (s : List ℕ) → length s ≤ fuel → sum (char_lengths fuel s) ≡ length s
unfolding char_lengths sum
sum-char_lengths zero [] h = refl
sum-char_lengths zero (a ∷ u) h = absurd (omega arith)
sum-char_lengths (suc fuel) [] h = refl
sum-char_lengths (suc fuel) (a ∷ u) h =
    let l = (utf8_decode (a ∷ u)).0 in
    let step = utf8_decode-bounds a u in
    let left = length-drop l (a ∷ u) in
    omega (arith, sum-char_lengths fuel (drop l (a ∷ u)) (omega arith))
