-- ===== src/Tokenizer/Decode/Spelling.antt =====
-- tokenizer_decode of src/tokenizer.c on what encode_span spells.
use charsiu.Prelude.{
  List, [], arith, drop, drop-append, false, get_elem?, get_or, length, length-append, refl, some,
  suc, zero, ℕ, ◌++◌, ◌+◌, ◌<◌, ◌∙◌, ◌∷◌, ◌≡◌, ◌≢◌, ◌≤◌,
}
use charsiu.Tokenizer.Utf8.{utf8_decode, utf8_encode}
use charsiu.Tokenizer.Utf8.RoundTrip.{utf8_decode-utf8_encode, length-utf8_encode}
use charsiu.Tokenizer.ByteTable.{b2u, spell}
use charsiu.Tokenizer.ByteTable.Inverse.{u2b-b2u}
use charsiu.Tokenizer.Bpe.{Tokenizer}
use charsiu.Tokenizer.Decode.{decode_spelling, decoded, tokenizer_decode, control}

-- every element is a byte
unfoldable pub IsBytes : List ℕ → Type 0
IsBytes [] = Unit
IsBytes (b ∷ bs) = (b < 256) × IsBytes bs

decoded-b2u : (b : ℕ) → b < 256 → decoded (b2u b) ≡ b ∷ []
unfolding decoded
decoded-b2u b h = let read = (u2b-b2u b h).1 in rw (read, decoded) refl

decode_spelling_step :
    (fuel : ℕ) (s : List ℕ) (w : ℕ)
    → 0 < length s
    → w + 4 < 512
    → decode_spelling (suc fuel) s w
      ≡ decoded ((utf8_decode s).1)
        ++ decode_spelling fuel
            (drop ((utf8_decode s).0) s)
            (w + length (decoded ((utf8_decode s).1)))
unfolding decode_spelling
decode_spelling_step fuel [] w h p = absurd (omega arith)
decode_spelling_step fuel (b ∷ bs) w h p = ground arith

decode_spelling-empty : (fuel w : ℕ) → decode_spelling fuel [] w ≡ []
unfolding decode_spelling
decode_spelling-empty zero w = refl
decode_spelling-empty (suc fuel) w = refl

-- the loop reads the spelling of bytes back, as long as there is room
decode_spelling-spell :
    (fuel : ℕ) (bs : List ℕ) (w : ℕ)
    → IsBytes bs
    → length (spell bs) ≤ fuel
    → w + length bs ≤ 508
    → decode_spelling fuel (spell bs) w ≡ bs
unfolding spell IsBytes
decode_spelling-spell fuel [] w v h p = decode_spelling-empty fuel w
decode_spelling-spell zero (b ∷ bs) w v h p =
    absurd
      (omega (arith, length-utf8_encode (b2u b), length-append (utf8_encode (b2u b)) (spell bs)))
decode_spelling-spell (suc fuel) (b ∷ bs) w (small, v) h p =
    let range = u2b-b2u b small in
    let read = utf8_decode-utf8_encode (b2u b) (spell bs) (omega arith) in
    let long = length-utf8_encode (b2u b) in
    let both = length-append (utf8_encode (b2u b)) (spell bs) in
    let later = decode_spelling-spell fuel bs (w + 1) v (omega arith) (omega arith) in
    decode_spelling_step fuel (utf8_encode (b2u b) ++ spell bs) w (omega arith) (omega arith)
    ∙ rw (read, drop-append (utf8_encode (b2u b)) (spell bs), decoded-b2u b small, later) refl

-- A token of the BPE kind that is not a control token, and whose spelling is that of at most 508 bytes,
-- decodes to those bytes.
pub tokenizer_decode-spell :
    (tk : Tokenizer) (id : ℕ) (bs : List ℕ)
    → IsBytes bs
    → length bs ≤ 508
    → tk.spm ≡ false
    → get_or tk.type id 0 ≢ control
    → get_elem? tk.spelling id ≡ some (spell bs)
    → tokenizer_decode tk id ≡ bs
unfolding tokenizer_decode
tokenizer_decode-spell tk id bs v short bpe plain at =
    let read = decode_spelling-spell (length (spell bs)) bs 0 v (omega arith) (omega arith) in
    ground arith
