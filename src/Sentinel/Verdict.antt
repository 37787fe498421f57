-- ===== src/Sentinel/Verdict.antt =====
-- What the verdict of src/sentinel.h tells about one output.
use charsiu.Prelude.{
  Bool, List, [], ap, arith, false, get_or, if◌then◌else◌, length, length-set, not, refl, set, suc,
  sym, true, zero, ℕ, ℕ_discrete, ◌*◌, ◌+◌, ◌<◌, ◌==◌, ◌∙◌, ◌∷◌, ◌≡◌, ◌≢◌, ◌≤◌,
}
use charsiu.Sentinel.{poison, poison_rows_from, poison_rows, live_from, poison_verdict, row_live}

get_or-set_self : (o : List ℕ) (i v : ℕ) → i < length o → get_or (set o i v) i 0 ≡ v
get_or-set_self [] i v h = absurd (omega arith)
get_or-set_self (x ∷ o) zero v h = refl
get_or-set_self (x ∷ o) (suc i) v h = get_or-set_self o i v (omega arith)

get_or-set_ne : (o : List ℕ) (i j v : ℕ) → i ≢ j → get_or (set o i v) j 0 ≡ get_or o j 0
get_or-set_ne [] i j v h = refl
get_or-set_ne (x ∷ o) zero zero v h = absurd (h refl)
get_or-set_ne (x ∷ o) zero (suc j) v h = refl
get_or-set_ne (x ∷ o) (suc i) zero v h = refl
get_or-set_ne (x ∷ o) (suc i) (suc j) v h = get_or-set_ne o i j v (λ e. h (ap suc e))

pub length-poison_rows_from :
    (left r n : ℕ) (o : List ℕ) → length (poison_rows_from left r n o) ≡ length o
unfolding poison_rows_from
length-poison_rows_from zero r n o = refl
length-poison_rows_from (suc left) r n o =
    length-poison_rows_from left (r + 1) n (set o (r * n) poison) ∙ length-set o (r * n) poison

-- a word that is no row's first keeps its value
poison_rows_from-other :
    (left r n : ℕ) (o : List ℕ) (j : ℕ)
    → ((i : ℕ) → i < r + left → j ≢ i * n)
    → get_or (poison_rows_from left r n o) j 0 ≡ get_or o j 0
unfolding poison_rows_from
poison_rows_from-other zero r n o j h = refl
poison_rows_from-other (suc left) r n o j h =
    poison_rows_from-other left (r + 1) n (set o (r * n) poison) j (λ i p. h i (omega arith))
    ∙ get_or-set_ne o (r * n) j poison (λ e. h r (omega arith) (sym e))

-- a poisoned word stays poisoned
poison_rows_from-keeps :
    (left r n : ℕ) (o : List ℕ) (j : ℕ)
    → j < length o
    → get_or o j 0 ≡ poison
    → get_or (poison_rows_from left r n o) j 0 ≡ poison
unfolding poison_rows_from
poison_rows_from-keeps zero r n o j h e = e
poison_rows_from-keeps (suc left) r n o j h e =
    poison_rows_from-keeps left (r + 1) n (set o (r * n) poison) j (rw length-set h)
      (elim (ℕ_discrete (r * n) j) [
        | yes same ↦ rw same (get_or-set_self o j poison h)
        | no other ↦ get_or-set_ne o (r * n) j poison other ∙ e
      ])

poison_rows_from-row :
    (left r n : ℕ) (o : List ℕ) (i : ℕ)
    → r ≤ i
    → i < r + left
    → i * n < length o
    → get_or (poison_rows_from left r n o) (i * n) 0 ≡ poison
unfolding poison_rows_from
poison_rows_from-row zero r n o i lo hi h = absurd (omega arith)
poison_rows_from-row (suc left) r n o i lo hi h = elim (ℕ_discrete r i) [
  | yes same ↦ rw same (
      poison_rows_from-keeps left (i + 1) n (set o (i * n) poison) (i * n) (rw length-set h)
        (get_or-set_self o (i * n) poison h))
  | no other ↦
      poison_rows_from-row left (r + 1) n (set o (r * n) poison) i (omega arith) (omega arith)
        (rw length-set h)
]

-- the rows that `written` does not hold of, among `left` of them from `r`
abbrev pub untouched_from : ℕ → ℕ → (ℕ → Bool) → ℕ
untouched_from zero r written = 0
untouched_from (suc left) r written =
    (if written r then 0 else 1) + untouched_from left (r + 1) written

abbrev pub untouched : ℕ → (ℕ → Bool) → ℕ
untouched m written = untouched_from m 0 written

untouched_from-le : (left r : ℕ) (written : ℕ → Bool) → untouched_from left r written ≤ left
untouched_from-le zero r written = omega arith
untouched_from-le (suc left) r written = ground (arith, untouched_from-le left (r + 1) written)

-- The hardware ran on the buffer `o` and left `o'`: it gave the rows in `written` a first word that is
-- not the poison, and left the first word of every other row alone.
pub record Wrote (o o' : List ℕ) (m n : ℕ) (written : ℕ → Bool) : Type 0 where
  pub fresh : (r : ℕ) → r < m → written r ≡ true → get_or o' (r * n) 0 ≢ poison
  pub kept : (r : ℕ) → r < m → written r ≡ false → get_or o' (r * n) 0 ≡ get_or o (r * n) 0

module _ (o o' : List ℕ) (m n : ℕ) (written : ℕ → Bool)
    (inside : (r : ℕ) → r < m → r * n < length o)
    (w : Wrote (poison_rows o m n) o' m n written) where
  row_live-eq-written : (r : ℕ) → r < m → row_live o' n r ≡ written r
  unfolding row_live poison_rows
  row_live-eq-written r h =
      ground (arith, w.fresh r h, w.kept r h, poison_rows_from-row m 0 n o r, inside r h)

  live_from-untouched :
      (left r : ℕ) → r + left ≤ m → live_from left r o' n + untouched_from left r written ≡ left
  unfolding live_from
  live_from-untouched zero r h = refl
  live_from-untouched (suc left) r h =
      rw (row_live-eq-written r (omega arith)) (ground (arith, live_from-untouched left (r + 1)))

  -- The verdict tells the three cases apart. If a buffer was poisoned for an op whose rows lie inside
  -- it, and the hardware then wrote some of the rows with a first word that is not the poison, the op
  -- counts as written exactly if some row was, and `*unwritten` is the number of rows that were not.
  pub poison_verdict-poison_rows :
      poison_verdict o' m n ≡ (not (untouched m written == m), untouched m written)
  unfolding poison_verdict
  poison_verdict-poison_rows =
      ground (arith, live_from-untouched m 0, untouched_from-le m 0 written)

-- Poisoning touches nothing but the first words of the op's rows: every other word keeps its value, and
-- so does the size of the buffer.
pub poison_rows-other :
    (o : List ℕ) (m n j : ℕ)
    → ((r : ℕ) → r < m → j ≢ r * n)
    → (get_or (poison_rows o m n) j 0 ≡ get_or o j 0) × (length (poison_rows o m n) ≡ length o)
unfolding poison_rows
poison_rows-other o m n j h =
    (poison_rows_from-other m 0 n o j (λ i p. h i (omega arith)), length-poison_rows_from m 0 n o)
