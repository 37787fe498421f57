-- ===== src/Sentinel.antt =====
-- src/sentinel.h: one poisoned word a row tells whether the hardware wrote an output. The buffer is the
-- list of its 32-bit words. An index out of range is undefined in C; here a write there is lost and a
-- read gives 0, and the theorems ask that the rows lie inside.
pub mod Verdict
pub mod Group
mod Tests
use charsiu.Prelude.{
  Bool, List, [], false, get_or, if◌then◌else◌, length, not, set, suc, true, zero, ℕ, ◌&&◌, ◌*◌,
  ◌+◌, ◌-◌, ◌==◌, ◌∷◌,
}

abbrev pub poison : ℕ
poison = 0xdeadbeef

-- the loop of charsiu_poison_rows from row `r`, with the number of rows left
unfoldable pub poison_rows_from : ℕ → ℕ → ℕ → List ℕ → List ℕ
poison_rows_from zero r n o = o
poison_rows_from (suc left) r n o = poison_rows_from left (r + 1) n (set o (r * n) poison)

unfoldable pub poison_rows : List ℕ → ℕ → ℕ → List ℕ
unfolding poison_rows_from
poison_rows o m n = poison_rows_from m 0 n o

-- has the first word of row `r` been written over?
unfoldable pub row_live : List ℕ → ℕ → ℕ → Bool
row_live o n r = not (get_or o (r * n) 0 == poison)

-- the loop of charsiu_poison_verdict, which counts the live rows
unfoldable pub live_from : ℕ → ℕ → List ℕ → ℕ → ℕ
unfolding row_live
live_from zero r o n = 0
live_from (suc left) r o n = (if row_live o n r then 1 else 0) + live_from left (r + 1) o n

-- `true` stands for 0 (the op wrote) and `false` for -1; beside it, `*unwritten`
unfoldable pub poison_verdict : List ℕ → ℕ → ℕ → Bool × ℕ
unfolding live_from
poison_verdict o m n = let live = live_from m 0 o n in (not (live == 0), m - live)

-- one op of a group: its region's offset in words, its rows and its row length
pub record Shape : Type 0 where
  pub ooff : ℕ
  pub m : ℕ
  pub n : ℕ

unfoldable pub same_shape : Shape → Shape → Bool
same_shape a b = a.ooff == b.ooff && (a.m == b.m && a.n == b.n)

-- the loop over the ops; where one list is longer the counts differ
unfoldable pub same_shapes : List Shape → List Shape → Bool
unfolding same_shape
same_shapes [] [] = true
same_shapes [] (q ∷ qs) = false
same_shapes (p ∷ ps) [] = false
same_shapes (p ∷ ps) (q ∷ qs) = same_shape p q && same_shapes ps qs

-- is the buffer still poisoned for exactly this group?
unfoldable pub poison_matches : List Shape → List Shape → Bool
unfolding same_shapes
poison_matches now before = not (length now == 0) && same_shapes now before
