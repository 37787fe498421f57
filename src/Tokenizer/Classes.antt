-- ===== src/Tokenizer/Classes.antt =====
-- The character classes of src/tokenizer.c: the spaces, and the letters and numbers by a binary search
-- in the ranges of src/unicode_tables.h.
pub mod Search
use charsiu.Prelude.{
  Bool, List, false, get_or, if◌then◌else◌, leb, length, ltb, suc, true, zero, ℕ, ◌&&◌, ◌*◌, ◌+◌,
  ◌/◌, ◌==◌, ◌||◌,
}
use charsiu.Tokenizer.UnicodeTables.{g_letter_ranges, g_number_ranges}

unfoldable pub cp_is_space : ℕ → Bool
cp_is_space c =
    (c == 0x20
      || (c == 9 || (c == 10 || (c == 13 || (c == 11 || (c == 12 || (c == 0x85 || c == 0xa0)))))))
    || (c == 0x1680
        || ((leb 0x2000 c && leb c 0x200a)
            || (c == 0x2028 || (c == 0x2029 || (c == 0x202f || (c == 0x205f || c == 0x3000))))))

-- The loop of in_ranges, on fuel: the distance from `lo` to `hi` shrinks at each step.
unfoldable pub search : ℕ → List ℕ → ℕ → ℕ → ℕ → Bool
search zero r lo hi c = false
search (suc fuel) r lo hi c =
    let mid = (lo + hi) / 2 in
    let below = ltb c (get_or r (2 * mid) 0) in
    let above = ltb (get_or r (2 * mid + 1) 0) c in
    elim (ltb lo hi) [
      | false ↦ false
      | true ↦ elim (below || above) [
        | false ↦ true
        | true ↦ search fuel r (if below then lo else mid + 1) (if below then mid else hi) c
      ]
    ]

-- in_ranges, with the fuel that its ranges ask for
unfoldable pub in_ranges : List ℕ → ℕ → Bool
in_ranges r c = search (length r / 2) r 0 (length r / 2) c

unfoldable pub cp_is_digit : ℕ → Bool
cp_is_digit c = in_ranges g_number_ranges c

unfoldable pub cp_is_letter : ℕ → Bool
cp_is_letter c = in_ranges g_letter_ranges c
