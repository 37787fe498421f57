-- ===== src/Codes/Packed.antt =====
-- Rows of src/npuquant.c that are written code by code, and what is read of them.
use charsiu.Prelude.{
  Bool, ap, ap₂, arith, bit_or, false, if◌then◌else◌, leb, ltb, max, refl, suc, sym, true, u32,
  u32_mod, u8, zero, ℕ, ℕ_discrete, ◌%◌, ◌*◌, ◌+◌, ◌-◌, ◌/◌, ◌<◌, ◌==◌, ◌∙◌, ◌≡◌, ◌≤◌,
}
use Prim.Native.Nat.{digits, bit_or-bitwise}
use charsiu.Prelude.Int.{ℤ, pos, negsuc, pos_part, neg_part}
use charsiu.Pack.Writes.{store, store_at, store_other}
use charsiu.Codes.{q_stride, pattern, q_put, signed8, signed4, q_at, put_codes}

pow2 : ℕ → ℕ
pow2 zero = 1
pow2 (suc j) = 2 * pow2 j

-- `|` of numbers without a common bit is their sum
or-digits :
    (j steps x m : ℕ)
    → x ≤ steps
    → x < pow2 j
    → digits (λ b. b) max steps x (m * pow2 j) ≡ x + m * pow2 j
unfolding pow2
or-digits j zero zero m h k = omega arith
or-digits j zero (suc x) m h k = grind arith
or-digits j (suc steps) zero m h k = omega arith
or-digits zero (suc steps) (suc x) m h k = grind arith
or-digits (suc j) (suc steps) (suc x) m h k =
    let half : m * (2 * pow2 j) / 2 ≡ m * pow2 j = omega arith in
    let later = or-digits j steps (suc x / 2) m (omega arith) (omega arith) in
    let even : max (suc x % 2) (m * (2 * pow2 j) % 2) ≡ suc x % 2 = omega arith in
    ap₂ (λ (a : ℕ) (b : ℕ). a * 2 + b) (ap (digits (λ b. b) max steps (suc x / 2)) half ∙ later)
      even
    ∙ omega arith

bit_or_nibbles : (a b : ℕ) → a < 16 → b < 16 → u8 (bit_or (u8 a) (b * 16)) ≡ a + b * 16
unfolding pow2
bit_or_nibbles a b h k =
    let small : u8 a ≡ a = omega arith in
    let joined : bit_or a (b * 16) ≡ a + b * 16 =
      bit_or-bitwise a (b * 16) ∙ or-digits 4 a a b (omega arith) h in
    rw (small, joined) (omega arith)

abbrev nibble : ℤ → ℕ
nibble v = pattern v % 16

-- the loop, a step at a time
put_even :
    (v : ℕ → ℤ) (i : ℕ) (row : ℕ → ℕ)
    → i % 2 ≡ 0
    → put_codes true v (suc i) row ≡ store (put_codes true v i row) (i / 2) (nibble (v i))
unfolding put_codes q_put
put_even v i row h = let t : (i % 2 == 1) ≡ false = ground arith in rw t refl

put_odd :
    (v : ℕ → ℤ) (i : ℕ) (row : ℕ → ℕ)
    → i % 2 ≡ 1
    → put_codes true v (suc i) row
      ≡ store
          (put_codes true v i row)
          (i / 2)
          (u8 (bit_or (u8 (put_codes true v i row (i / 2))) (nibble (v i) * 16)))
unfolding put_codes q_put
put_odd v i row h = let t : (i % 2 == 1) ≡ true = ground arith in rw t refl

-- a byte of which one code is written, and a byte of which both are
byte_half :
    (v : ℕ → ℤ) (j : ℕ) (row : ℕ → ℕ) → put_codes true v (suc (2 * j)) row j ≡ nibble (v (2 * j))
byte_half v j row =
    let at : 2 * j / 2 ≡ j = omega arith in
    ap (λ (r : ℕ → ℕ). r j) (put_even v (2 * j) row (omega arith))
    ∙ ap (λ (a : ℕ). store (put_codes true v (2 * j) row) a (nibble (v (2 * j))) j) at
    ∙ store_at (put_codes true v (2 * j) row) j (nibble (v (2 * j)))

byte_full :
    (v : ℕ → ℤ) (j : ℕ) (row : ℕ → ℕ)
    → put_codes true v (suc (suc (2 * j))) row j
      ≡ nibble (v (2 * j)) + nibble (v (suc (2 * j))) * 16
byte_full v j row =
    let at : suc (2 * j) / 2 ≡ j = omega arith in
    let was = put_codes true v (suc (2 * j)) row in
    ap (λ (r : ℕ → ℕ). r j) (put_odd v (suc (2 * j)) row (omega arith))
    ∙ ap (λ (a : ℕ). store was a (u8 (bit_or (u8 (was a)) (nibble (v (suc (2 * j))) * 16))) j) at
    ∙ store_at was j (u8 (bit_or (u8 (was j)) (nibble (v (suc (2 * j))) * 16)))
    ∙ ap (λ (b : ℕ). u8 (bit_or (u8 b) (nibble (v (suc (2 * j))) * 16))) (byte_half v j row)
    ∙ bit_or_nibbles (nibble (v (2 * j))) (nibble (v (suc (2 * j)))) (omega arith) (omega arith)

absurd_half : (j i : ℕ) → j ≡ i / 2 → 2 * j + 2 ≤ i → ⊥
absurd_half j i e h = omega arith

byte_kept :
    (v : ℕ → ℤ) (j i : ℕ) (row : ℕ → ℕ)
    → 2 * j + 2 ≤ i
    → put_codes true v (suc i) row j ≡ put_codes true v i row j
byte_kept v j i row h = elim (ℕ_discrete (i % 2) 0) [
  | yes e ↦
      ap (λ (r : ℕ → ℕ). r j) (put_even v i row e)
      ∙ store_other (put_codes true v i row) (i / 2) (nibble (v i)) j (λ f. absurd_half j i f h)
  | no e ↦
      ap (λ (r : ℕ → ℕ). r j) (put_odd v i row (omega arith))
      ∙ store_other (put_codes true v i row) (i / 2)
          (u8 (bit_or (u8 (put_codes true v i row (i / 2))) (nibble (v i) * 16))) j
          (λ f. absurd_half j i f h)
]

byte_later :
    (v : ℕ → ℤ) (j more : ℕ) (row : ℕ → ℕ)
    → put_codes true v (more + suc (suc (2 * j))) row j
      ≡ nibble (v (2 * j)) + nibble (v (suc (2 * j))) * 16
byte_later v j zero row = ap (λ (n : ℕ). put_codes true v n row j) (omega arith) ∙ byte_full v j row
byte_later v j (suc more) row =
    ap (λ (n : ℕ). put_codes true v n row j) (omega arith)
    ∙ byte_kept v j (more + suc (suc (2 * j))) row (omega arith)
    ∙ byte_later v j more row

-- what a byte of the row holds after all the codes
byte_of :
    (v : ℕ → ℤ) (k j : ℕ) (row : ℕ → ℕ)
    → 2 * j < k
    → put_codes true v k row j
      ≡ nibble (v (2 * j)) + (if ltb (2 * j + 1) k then nibble (v (suc (2 * j))) * 16 else 0)
byte_of v k j row h = elim (ℕ_discrete k (suc (2 * j))) [
  | yes e ↦
      let last : ltb (2 * j + 1) k ≡ false = ground arith in
      rw last (ap (λ (n : ℕ). put_codes true v n row j) e ∙ byte_half v j row ∙ omega arith)
  | no e ↦
      let both : ltb (2 * j + 1) k ≡ true = ground arith in
      let more : k ≡ (k - (2 * j + 2)) + suc (suc (2 * j)) = omega arith in
      rw both (ap (λ (n : ℕ). put_codes true v n row j) more ∙ byte_later v j (k - (2 * j + 2)) row)
]

signed4-nibble : (v : ℤ) → pos_part v ≤ 7 → neg_part v ≤ 8 → signed4 (nibble v) ≡ v
signed4-nibble (pos n) h k =
    let low : u32 n % 16 ≡ n = omega arith in
    let t : leb 8 n ≡ false = ground arith in rw (low, t) refl
signed4-nibble (negsuc n) h k =
    let high : (u32_mod - 1 - n % u32_mod) % 16 ≡ 15 - n = omega arith in
    let t : leb 8 (15 - n) ≡ true = ground arith in rw (high, t) (ap negsuc (omega arith))

signed8-pattern : (v : ℤ) → pos_part v ≤ 127 → neg_part v ≤ 128 → signed8 (u8 (u8 (pattern v))) ≡ v
signed8-pattern (pos n) h k =
    let low : u8 (u8 (u32 n)) ≡ n = omega arith in
    let t : ltb n 128 ≡ true = ground arith in rw (low, t) refl
signed8-pattern (negsuc n) h k =
    let high : u8 (u8 (u32_mod - 1 - n % u32_mod)) ≡ 255 - n = omega arith in
    let t : ltb (255 - n) 128 ≡ false = ground arith in rw (high, t) (ap negsuc (omega arith))

-- an unpacked row
code_of :
    (v : ℕ → ℤ) (k i : ℕ) (row : ℕ → ℕ) → i < k → put_codes false v k row i ≡ u8 (pattern (v i))
unfolding put_codes q_put
code_of v zero i row h = grind arith
code_of v (suc k) i row h = elim (ℕ_discrete i k) [
  | yes e ↦
      ap (store (put_codes false v k row) k (u8 (pattern (v k)))) e
      ∙ store_at (put_codes false v k row) k (u8 (pattern (v k)))
      ∙ ap (λ (n : ℕ). u8 (pattern (v n))) (sym e)
  | no e ↦
      store_other (put_codes false v k row) k (u8 (pattern (v k))) i e
      ∙ code_of v k i row (omega arith)
]

low_half :
    (b x y : ℕ) (t : Bool) → b ≡ x + (if t then y * 16 else 0) → x < 16 → y < 16 → u8 b % 16 ≡ x
low_half b x y true e h k = omega arith
low_half b x y false e h k = omega arith

high_half :
    (b x y : ℕ) (t : Bool)
    → b ≡ x + (if t then y * 16 else 0)
    → t ≡ true
    → x < 16
    → y < 16
    → u8 b / 16 ≡ y
high_half b x y true e f h k = omega arith
high_half b x y false e f h k = grind arith

-- the codes that a width has
abbrev pub IsCode : Bool → ℤ → Type 0
IsCode packed v =
    (pos_part v ≤ (if packed then 7 else 127)) × (neg_part v ≤ (if packed then 8 else 128))

-- A row of codes that is written in ascending order reads back, at 4 and at 8 bits, for rows of odd and of
-- even length, and whatever the memory held before: the column `i` of `k` has its own code, if that is one
-- of the width's.
pub q_at-put_codes :
    (packed : Bool) (v : ℕ → ℤ) (k i : ℕ) (row : ℕ → ℕ)
    → i < k
    → IsCode packed (v i)
    → q_at packed (put_codes packed v k row) i ≡ v i
unfolding q_at
q_at-put_codes false v k i row h (p, n) =
    ap (λ (b : ℕ). signed8 (u8 b)) (code_of v k i row h) ∙ signed8-pattern (v i) p n
q_at-put_codes true v k i row h (p, n) =
    let j = i / 2 in
    let here = byte_of v k j row (omega arith) in
    elim (ℕ_discrete (i % 2) 0) [
      | yes e ↦
          let t : (i % 2 == 1) ≡ false = ground arith in
          let low : 2 * (i / 2) ≡ i = omega arith in
          let value : u8 (put_codes true v k row j) % 16 ≡ nibble (v i) =
            low_half (put_codes true v k row j) (nibble (v (2 * j))) (nibble (v (suc (2 * j))))
              (ltb (2 * j + 1) k) here (omega arith) (omega arith)
            ∙ ap (λ (c : ℕ). nibble (v c)) low in
          rw t (ap signed4 value ∙ signed4-nibble (v i) p n)
      | no e ↦
          let t : (i % 2 == 1) ≡ true = ground arith in
          let low : suc (2 * (i / 2)) ≡ i = omega arith in
          let value : u8 (put_codes true v k row j) / 16 ≡ nibble (v i) =
            high_half (put_codes true v k row j) (nibble (v (2 * j))) (nibble (v (suc (2 * j))))
              (ltb (2 * j + 1) k) here (ground arith) (omega arith) (omega arith)
            ∙ ap (λ (c : ℕ). nibble (v c)) low in
          rw t (ap signed4 value ∙ signed4-nibble (v i) p n)
    ]

-- The bytes of a row depend on its codes alone: every one of them, the upper half of the last byte of an odd
-- row too, is the same whatever the memory held, so what the weight cache writes to its file is defined.
pub put_codes-defined :
    (packed : Bool) (v : ℕ → ℤ) (k j : ℕ) (row other : ℕ → ℕ)
    → j < q_stride packed k
    → put_codes packed v k row j ≡ put_codes packed v k other j
unfolding q_stride
put_codes-defined false v k j row other h = code_of v k j row h ∙ sym (code_of v k j other h)
put_codes-defined true v k j row other h =
    byte_of v k j row (omega arith) ∙ sym (byte_of v k j other (omega arith))
