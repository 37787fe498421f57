-- ===== src/Sentinel/Tests.antt =====
-- Runs and instances of the theorems on the sentinels, on a buffer of two rows of three words.
use charsiu.Prelude.{
  Bool, List, [], arith, false, get_or, length, not, refl, suc, true, zero, ℕ, ◌*◌, ◌<◌, ◌==◌, ◌∷◌,
  ◌≡◌, ◌≢◌,
}
use charsiu.Sentinel.{poison, poison_rows, poison_verdict, Shape}
use charsiu.Sentinel.Verdict.{untouched, Wrote, poison_verdict-poison_rows}

abbrev blank : List ℕ
blank = 0 ∷ 0 ∷ 0 ∷ 0 ∷ 0 ∷ 0 ∷ []

-- the job stopped after its first row
abbrev half : List ℕ
half = 5 ∷ 6 ∷ 7 ∷ poison ∷ 0 ∷ 0 ∷ []

abbrev first_row : ℕ → Bool
first_row r = r == 0

abbrev op : Shape
op = record { ooff = 0; m = 2; n = 3 }

dead_op : poison_verdict (poison_rows blank 2 3) 2 3 ≡ (false, 2)
unfolding poison_verdict poison_rows
dead_op = refl

half-Wrote : Wrote (poison_rows blank 2 3) half 2 3 first_row
unfolding poison_rows
half-Wrote = record { fresh = fresh_row; kept = kept_row }
  where
    fresh_row : (r : ℕ) → r < 2 → first_row r ≡ true → get_or half (r * 3) 0 ≢ poison
    fresh_row zero h e = omega arith
    fresh_row (suc r) h e = ground arith

    kept_row :
        (r : ℕ)
        → r < 2
        → first_row r ≡ false
        → get_or half (r * 3) 0 ≡ get_or (poison_rows blank 2 3) (r * 3) 0
    kept_row zero h e = cc
    kept_row (suc zero) h e = refl
    kept_row (suc (suc r)) h e = absurd (omega arith)

rows_inside : (r : ℕ) → r < 2 → r * 3 < length blank
rows_inside r h = omega arith

poison_verdict-poison_rows_example :
    poison_verdict half 2 3 ≡ (not (untouched 2 first_row == 2), untouched 2 first_row)
poison_verdict-poison_rows_example =
    poison_verdict-poison_rows blank half 2 3 first_row rows_inside half-Wrote
