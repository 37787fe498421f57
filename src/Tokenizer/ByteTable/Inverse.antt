-- ===== src/Tokenizer/ByteTable/Inverse.antt =====
-- The two tables of build_byte_table in src/tokenizer.c, one after the other.
use charsiu.Prelude.{
  Bool, Option, arith, false, ltb, none, refl, some, suc, true, zero, ℕ, ◌&&◌, ◌<◌, ◌==◌, ◌≡◌,
}
use charsiu.Tokenizer.ByteTable.{b2u, u2b, b2u_table, u2b_table, b2u_from, u2b_from, used}

-- a test that holds of every number below a bound, from the top down
each_below : (ℕ → Bool) → ℕ → Bool
each_below test zero = true
each_below test (suc n) = test n && each_below test n

each_below_at : (test : ℕ → Bool) (n b : ℕ) → each_below test n ≡ true → b < n → test b ≡ true
unfolding each_below
each_below_at test zero b h p = absurd (omega arith)
each_below_at test (suc n) b h p = ground (arith, each_below_at test n b)

-- is this code point below 512, and does it read back as the byte?
reads_back : ℕ → Option ℕ → ℕ → Bool
reads_back cp read b = ltb cp 512 && elim read [ none ↦ false | some v ↦ v == b ]

reads_back_lem :
    (cp : ℕ) (read : Option ℕ) (b : ℕ) → reads_back cp read b ≡ true → (cp < 512) × (read ≡ some b)
unfolding reads_back
reads_back_lem cp none b h = ground arith
reads_back_lem cp (some v) b h = ground arith

table_reads_back : each_below (λ b. reads_back (b2u b) (u2b (b2u b)) b) 256 ≡ true
unfolding each_below reads_back b2u u2b b2u_table u2b_table b2u_from u2b_from used
table_reads_back = refl

-- Every byte is read back from the code point that it is given, which is below 512.
pub u2b-b2u : (b : ℕ) → b < 256 → (b2u b < 512) × (u2b (b2u b) ≡ some b)
u2b-b2u b h =
    reads_back_lem (b2u b) (u2b (b2u b)) b
      (each_below_at (λ b. reads_back (b2u b) (u2b (b2u b)) b) 256 b table_reads_back h)
