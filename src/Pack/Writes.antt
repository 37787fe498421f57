-- ===== src/Pack/Writes.antt =====
-- Loops that write: rows of cells, each at an index of its own.
use charsiu.Prelude.{
  ap, arith, false, if◌then◌else◌, refl, subst, suc, sym, true, zero, ℕ, ℕ_discrete, ◌+◌, ◌<◌, ◌==◌,
  ◌∙◌, ◌≡◌, ◌≢◌, ◌≤◌,
}

-- one store
unfoldable pub store : (ℕ → ℕ) → ℕ → ℕ → (ℕ → ℕ)
store m at v i = if i == at then v else m i

-- `for (i = 0; i < count; i++) m[at(i)] = val(i)`
unfoldable pub write_cells : (ℕ → ℕ) → (ℕ → ℕ) → ℕ → (ℕ → ℕ) → (ℕ → ℕ)
unfolding store
write_cells at val zero m = m
write_cells at val (suc i) m = let rest = write_cells at val i m in store rest (at i) (val i)

-- that loop for each of `rows` rows from `r` on
unfoldable pub write_rows : (ℕ → ℕ → ℕ) → (ℕ → ℕ → ℕ) → (ℕ → ℕ) → ℕ → ℕ → (ℕ → ℕ) → (ℕ → ℕ)
unfolding write_cells
write_rows at val count r zero m = m
write_rows at val count r (suc rows) m =
    write_rows at val count (suc r) rows (write_cells (at r) (val r) (count r) m)

pub store_at : (m : ℕ → ℕ) (at v : ℕ) → store m at v at ≡ v
unfolding store
store_at m at v = let t : (at == at) ≡ true = ground arith in rw t refl

pub store_other : (m : ℕ → ℕ) (at v i : ℕ) → i ≢ at → store m at v i ≡ m i
unfolding store
store_other m at v i h = let t : (i == at) ≡ false = ground arith in rw t refl

pub write_cells_other :
    (at val : ℕ → ℕ) (count : ℕ) (m : ℕ → ℕ) (j : ℕ)
    → ((i : ℕ) → i < count → j ≢ at i)
    → write_cells at val count m j ≡ m j
unfolding write_cells
write_cells_other at val zero m j h = refl
write_cells_other at val (suc i) m j h =
    store_other (write_cells at val i m) (at i) (val i) j (h i (omega arith))
    ∙ write_cells_other at val i m j (λ k b. h k (omega arith))

pub write_cells_at :
    (at val : ℕ → ℕ) (count : ℕ) (m : ℕ → ℕ) (i : ℕ)
    → i < count
    → ((k : ℕ) → k < count → at k ≡ at i → k ≡ i)
    → write_cells at val count m (at i) ≡ val i
unfolding write_cells
write_cells_at at val zero m i h inj = grind arith
write_cells_at at val (suc c) m i h inj = elim (ℕ_discrete (at i) (at c)) [
  | yes e ↦
      ap (store (write_cells at val c m) (at c) (val c)) e
      ∙ store_at (write_cells at val c m) (at c) (val c)
      ∙ ap val (inj c (omega arith) (sym e))
  | no e ↦ store_other (write_cells at val c m) (at c) (val c) (at i) e ∙ elim (ℕ_discrete i c) [
    | yes f ↦ elim (e (ap at f)) [ ]
    | no f ↦ write_cells_at at val c m i (omega arith) (λ k b. inj k (omega arith))
  ]
]

not_later : (q r p : ℕ) → p ≡ q → q ≡ r → suc r ≤ p → ⊥
not_later q r p a b c = omega arith

-- an index that no row writes keeps its value
pub write_rows_other :
    (at val : ℕ → ℕ → ℕ) (count : ℕ → ℕ) (r rows : ℕ) (m : ℕ → ℕ) (j : ℕ)
    → ((q i : ℕ) → r ≤ q → q < r + rows → i < count q → j ≢ at q i)
    → write_rows at val count r rows m j ≡ m j
unfolding write_rows
write_rows_other at val count r zero m j h = refl
write_rows_other at val count r (suc rows) m j h =
    write_rows_other at val count (suc r) rows (write_cells (at r) (val r) (count r) m) j
      (λ q i lo hi b. h q i (omega arith) (omega arith) b)
    ∙ write_cells_other (at r) (val r) (count r) m j (λ i b. h r i (omega arith) (omega arith) b)

-- where no two cells share an index, each holds its value after the loop
pub write_rows_at :
    (at val : ℕ → ℕ → ℕ) (count : ℕ → ℕ) (r rows : ℕ) (m : ℕ → ℕ) (q i : ℕ)
    → r ≤ q
    → q < r + rows
    → i < count q
    → ((p k : ℕ) → r ≤ p → p < r + rows → k < count p → at p k ≡ at q i → (p ≡ q) × (k ≡ i))
    → write_rows at val count r rows m (at q i) ≡ val q i
unfolding write_rows
write_rows_at at val count r zero m q i lo hi b inj = grind arith
write_rows_at at val count r (suc rows) m q i lo hi b inj = elim (ℕ_discrete q r) [
  | yes e ↦
      let same : at q i ≡ at r i = ap (λ (p : ℕ). at p i) e in
      let b' : i < count r = subst (λ (p : ℕ). i < count p) e b in
      write_rows_other at val count (suc r) rows (write_cells (at r) (val r) (count r) m) (at q i)
        (λ p k l h c f. not_later q r p (inj p k (omega arith) (omega arith) c (sym f)).0 e l)
      ∙ ap (write_cells (at r) (val r) (count r) m) same
      ∙ write_cells_at (at r) (val r) (count r) m i b'
          (λ k c f. (inj r k (omega arith) (omega arith) c (f ∙ sym same)).1)
      ∙ ap (λ (p : ℕ). val p i) (sym e)
  | no e ↦
      write_rows_at at val count (suc r) rows (write_cells (at r) (val r) (count r) m) q i
        (omega arith) (omega arith) b (λ p k l h c f. inj p k (omega arith) (omega arith) c f)
]
