-- ===== src/Codes.antt =====
-- The codes of a row of src/npuquant.c: q_put and q_at, one code to a byte or two. A row is a function from
-- the index of a byte to its 8 bits, and a code is an integer.
pub mod Packed
mod Tests
use charsiu.Prelude.{
  Bool, bit_or, if◌then◌else◌, leb, ltb, not, suc, u32, u32_mod, u8, zero, ℕ, ◌%◌, ◌*◌, ◌+◌, ◌-◌,
  ◌/◌, ◌==◌,
}
use charsiu.Prelude.Int.{ℤ, pos, negsuc}
use charsiu.Pack.Writes.{store}

-- `(unsigned)v`
abbrev pub pattern : ℤ → ℕ
pattern (pos n) = u32 n
pattern (negsuc n) = u32_mod - 1 - n % u32_mod

-- npu_q_stride_t: the bytes of a row of `k` codes
unfoldable pub q_stride : Bool → ℕ → ℕ
q_stride packed k = if packed then (k + 1) / 2 else k

-- q_put
unfoldable pub q_put : Bool → (ℕ → ℕ) → ℕ → ℤ → (ℕ → ℕ)
unfolding store
q_put packed row i v =
    if not packed
    then store row i (u8 (pattern v))
    else if i % 2 == 1
    then store row (i / 2) (u8 (bit_or (u8 (row (i / 2))) (pattern v % 16 * 16)))
    else store row (i / 2) (pattern v % 16)

-- an int8_t, and a nibble, as integers
abbrev pub signed8 : ℕ → ℤ
signed8 b = if ltb b 128 then pos b else negsuc (255 - b)

abbrev pub signed4 : ℕ → ℤ
signed4 v = if leb 8 v then negsuc (15 - v) else pos v

-- q_at
unfoldable pub q_at : Bool → (ℕ → ℕ) → ℕ → ℤ
q_at packed row i =
    if not packed
    then signed8 (u8 (row i))
    else (let v = u8 (row (i / 2)) in signed4 (if i % 2 == 1 then v / 16 else v % 16))

-- the loop of w4file_codes over a row, in ascending order
unfoldable pub put_codes : Bool → (ℕ → ℤ) → ℕ → (ℕ → ℕ) → (ℕ → ℕ)
unfolding q_put
put_codes packed v zero row = row
put_codes packed v (suc i) row = let rest = put_codes packed v i row in q_put packed rest i (v i)
