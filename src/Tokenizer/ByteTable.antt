-- ===== src/Tokenizer/ByteTable.antt =====
-- The GPT-2 table of src/tokenizer.c, which gives each byte a printable code point, and the spelling of
-- bytes by it.
pub mod Inverse
use charsiu.Prelude.{
  Bool, List, Option, [], get_or, if◌then◌else◌, leb, ltb, none, replicate, set, some, suc, zero, ℕ,
  ◌&&◌, ◌++◌, ◌+◌, ◌||◌, ◌∷◌,
}
use charsiu.Tokenizer.Utf8.{utf8_encode}

-- `used[b]`: the bytes that stand for themselves
unfoldable pub used : ℕ → Bool
used b = (leb 33 b && leb b 126) || ((leb 0xa1 b && leb b 0xac) || (leb 0xae b && leb b 0xff))

-- the loop of build_byte_table over `g_b2u` from byte `b`, with `n` bytes moved up so far
unfoldable pub b2u_from : ℕ → ℕ → ℕ → List ℕ
unfolding used
b2u_from zero b n = []
b2u_from (suc left) b n =
    let own = used b in
    (if own then b else 256 + n) ∷ b2u_from left (b + 1) (if own then n else n + 1)

-- the same loop over `g_u2b`, from the code points that the bytes from `b` on were given
unfoldable pub u2b_from : List ℕ → ℕ → List (Option ℕ) → List (Option ℕ)
u2b_from [] b t = t
u2b_from (c ∷ cs) b t = u2b_from cs (b + 1) (if ltb c 512 then set t c (some b) else t)

-- g_b2u, and g_u2b with `none` for -1
unfoldable pub b2u_table : List ℕ
unfolding b2u_from
b2u_table = b2u_from 256 0 0

unfoldable pub u2b_table : List (Option ℕ)
unfolding u2b_from b2u_table
u2b_table = u2b_from b2u_table 0 (replicate 512 none)

unfoldable pub b2u : ℕ → ℕ
b2u b = get_or b2u_table b 0

-- `cp < 512 && g_u2b[cp] >= 0`, and the byte
unfoldable pub u2b : ℕ → Option ℕ
u2b cp = if ltb cp 512 then get_or u2b_table cp none else none

-- the loop of encode_span that spells the raw bytes of a word
unfoldable pub spell : List ℕ → List ℕ
spell [] = []
spell (b ∷ bs) = utf8_encode (b2u b) ++ spell bs
