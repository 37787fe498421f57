-- ===== src/Tokenizer/Smap/Filling.antt =====
-- The loop that smap_put and smap_get of src/tokenizer.c share, when a slot is filled.
use charsiu.Prelude.{
  Bool-cases, List, Option-cases, [], ap, arith, dec_lt, false, get_or, inl, inr, length,
  length-set, none, refl, set, some, suc, sym, true, zero, ℕ, ◌%◌, ◌+◌, ◌-◌, ◌<◌, ◌∙◌, ◌∷◌, ◌≡◌,
  ◌≢◌,
}
use native.Mathlib.Nat.{mod-lt, mod-add-mod, mod-eq_of_lt, add-mod_right}
use charsiu.Gguf.Lookup.{bytes_eq}
use charsiu.Tokenizer.Smap.{Slot, fnv, found, vacant, lost, probe, probe_key}

bytes_eq_refl : (k : List ℕ) → bytes_eq k k ≡ true
unfolding bytes_eq
bytes_eq_refl [] = refl
bytes_eq_refl (b ∷ bs) = ground (arith, bytes_eq_refl bs)

unfoldable pub at : List Slot → ℕ → Slot
at slots i = get_or slots i none

at-set_ne : (slots : List Slot) (i j : ℕ) (x : Slot) → i ≢ j → at (set slots i x) j ≡ at slots j
unfolding at
at-set_ne [] i j x h = refl
at-set_ne (s ∷ slots) zero zero x h = absurd (h refl)
at-set_ne (s ∷ slots) zero (suc j) x h = refl
at-set_ne (s ∷ slots) (suc i) zero x h = refl
at-set_ne (s ∷ slots) (suc i) (suc j) x h = at-set_ne slots i j x (λ e. h (ap suc e))

at-set_self : (slots : List Slot) (i : ℕ) (x : Slot) → i < length slots → at (set slots i x) i ≡ x
unfolding at
at-set_self [] i x h = absurd (omega arith)
at-set_self (s ∷ slots) zero x h = refl
at-set_self (s ∷ slots) (suc i) x h = at-set_self slots i x (omega arith)

-- the steps of a probe, by what the slot holds
probe-vacant :
    (left : ℕ) (slots : List Slot) (i : ℕ) (k : List ℕ)
    → at slots i ≡ none
    → probe (suc left) slots i k ≡ vacant i
unfolding at probe
probe-vacant left slots i k e = rw (e, probe) refl

probe-found :
    (left : ℕ) (slots : List Slot) (i : ℕ) (k key : List ℕ) (v : ℕ)
    → at slots i ≡ some (key, v)
    → bytes_eq key k ≡ true
    → probe (suc left) slots i k ≡ found v
unfolding at probe
probe-found left slots i k key v e h = rw (e, h, probe) refl

probe-on :
    (left : ℕ) (slots : List Slot) (i : ℕ) (k key : List ℕ) (v : ℕ)
    → at slots i ≡ some (key, v)
    → bytes_eq key k ≡ false
    → probe (suc left) slots i k ≡ probe left slots ((i + 1) % length slots) k
unfolding at probe
probe-on left slots i k key v e h = rw (e, h, probe) refl

probe-lost : (slots : List Slot) (i : ℕ) (k : List ℕ) → probe 0 slots i k ≡ lost
unfolding probe
probe-lost slots i k = refl

data Step (slots : List Slot) (i : ℕ) (k : List ℕ) : Type 0 where
  free : at slots i ≡ none → Step slots i k
  hit : (key : List ℕ) (v : ℕ) → at slots i ≡ some (key, v) → bytes_eq key k ≡ true → Step slots i k
  miss :
      (key : List ℕ) (v : ℕ) → at slots i ≡ some (key, v) → bytes_eq key k ≡ false → Step slots i k

slot_cases : (slots : List Slot) (i : ℕ) (k : List ℕ) → Step slots i k
slot_cases slots i k = elim (Option-cases (at slots i)) [
  | inl n ↦ free n
  | inr ((key, v), e) ↦ elim (Bool-cases (bytes_eq key k)) [
    | inl y ↦ hit key v e y
    | inr n ↦ miss key v e n
  ]
]

-- a slot that holds something is not the free one
taken-ne :
    (slots : List Slot) (i j : ℕ) {key : List ℕ} {v : ℕ}
    → at slots i ≡ none
    → at slots j ≡ some (key, v)
    → i ≢ j
taken-ne slots i j free_i taken e = ground (arith, sym free_i ∙ ap (at slots) e ∙ taken)

-- filling a free slot does not hide a key that is found
pub probe-keeps :
    (left : ℕ) (slots : List Slot) (j i : ℕ) (k : List ℕ) (v : ℕ) (x : Slot)
    → at slots i ≡ none
    → probe left slots j k ≡ found v
    → probe left (set slots i x) j k ≡ found v
probe-keeps zero slots j i k v x n e = let end = probe-lost slots j k in ground arith
probe-keeps (suc left) slots j i k v x n e = elim (slot_cases slots j k) [
  | free f ↦ let end = probe-vacant left slots j k f in ground arith
  | hit key v' a y ↦
      let end = probe-found left slots j k key v' a y in
      let same : v' ≡ v = ground arith in
      let kept = at-set_ne slots i j x (taken-ne slots i j n a) ∙ a in
      probe-found left (set slots i x) j k key v' kept y ∙ ap found same
  | miss key v' a y ↦
      let kept = at-set_ne slots i j x (taken-ne slots i j n a) ∙ a in
      let later =
        probe-keeps left slots ((j + 1) % length slots) i k v x n
          (sym (probe-on left slots j k key v' a y) ∙ e) in
      probe-on left (set slots i x) j k key v' kept y ∙ rw (length-set slots i x) later
]

-- where a probe ends free
pub probe-free :
    (left : ℕ) (slots : List Slot) (j i : ℕ) (k : List ℕ)
    → j < length slots
    → probe left slots j k ≡ vacant i
    → (at slots i ≡ none) × (i < length slots)
probe-free zero slots j i k h e = let end = probe-lost slots j k in ground arith
probe-free (suc left) slots j i k h e = elim (slot_cases slots j k) [
  | free f ↦
      let end = probe-vacant left slots j k f in
      let same : j ≡ i = ground arith in (ap (at slots) (sym same) ∙ f, omega arith)
  | hit key v' a y ↦ let end = probe-found left slots j k key v' a y in ground arith
  | miss key v' a y ↦
      probe-free left slots ((j + 1) % length slots) i k (mod-lt (j + 1) (omega arith))
        (sym (probe-on left slots j k key v' a y) ∙ e)
]

-- the slot where a probe ends free, once filled with its key, is where it ends
pub probe-fills :
    (left : ℕ) (slots : List Slot) (j i : ℕ) (k : List ℕ) (v : ℕ)
    → j < length slots
    → probe left slots j k ≡ vacant i
    → probe left (set slots i (some (k, v))) j k ≡ found v
probe-fills zero slots j i k v h e = let end = probe-lost slots j k in ground arith
probe-fills (suc left) slots j i k v h e = elim (slot_cases slots j k) [
  | free f ↦
      let end = probe-vacant left slots j k f in
      let same : i ≡ j = ground arith in
      let filled : at (set slots i (some (k, v))) j ≡ some (k, v) =
        rw same (at-set_self slots j (some (k, v)) h) in
      probe-found left (set slots i (some (k, v))) j k k v filled (bytes_eq_refl k)
  | hit key v' a y ↦ let end = probe-found left slots j k key v' a y in ground arith
  | miss key v' a y ↦
      let on = probe-on left slots j k key v' a y in
      let next = (j + 1) % length slots in
      let free_i = (probe-free (suc left) slots j i k h e).0 in
      let kept = at-set_ne slots i j (some (k, v)) (taken-ne slots i j free_i a) ∙ a in
      let later = probe-fills left slots next i k v (mod-lt (j + 1) (omega arith)) (sym on ∙ e) in
      probe-on left (set slots i (some (k, v))) j k key v' kept y
      ∙ rw (length-set slots i (some (k, v))) later
]

remainder_of : (n : ℕ) {x y : ℕ} → x ≡ y → x % n ≡ y % n
remainder_of n e = ap (λ (t : ℕ). t % n) e

-- a probe that has enough steps to come by a free slot is not lost
probe-ends :
    (left : ℕ) (slots : List Slot) (j i : ℕ) (k : List ℕ) (d : ℕ)
    → at slots i ≡ none
    → (j + d) % length slots ≡ i
    → j < length slots
    → d < left
    → probe left slots j k ≢ lost
probe-ends zero slots j i k d n e h p l = absurd (omega arith)
probe-ends (suc left) slots j i k d n e h p l = elim (slot_cases slots j k) [
  | free f ↦ let end = probe-vacant left slots j k f in ground arith
  | hit key v' a y ↦ let end = probe-found left slots j k key v' a y in ground arith
  | miss key v' a y ↦
      let on = probe-on left slots j k key v' a y in
      let past : 0 < d = elim (dec_lt 0 d) [
        | yes q ↦ q
        | no q ↦
            let same : i ≡ j =
              sym e
              ∙ remainder_of (length slots) {x = j + d} {y = j} (omega arith)
              ∙ mod-eq_of_lt h in
            absurd (taken-ne slots i j n a same)
      ] in
      let next = (j + 1) % length slots in
      let reach : (next + (d - 1)) % length slots ≡ i =
        mod-add-mod (j + 1) (length slots) (d - 1)
        ∙ remainder_of (length slots) {x = j + 1 + (d - 1)} {y = j + d} (omega arith)
        ∙ e in
      probe-ends left slots next i k (d - 1) n reach (mod-lt (j + 1) (omega arith)) (omega arith)
        (sym on ∙ l)
]

-- so in a table with a free slot no probe is lost
pub probe_key-ends :
    (slots : List Slot) (i : ℕ) (k : List ℕ)
    → i < length slots
    → at slots i ≡ none
    → probe_key slots k ≢ lost
unfolding probe_key
probe_key-ends slots i k h n =
    let j = fnv k % length slots in
    let inside = mod-lt (fnv k) {m = length slots} (omega arith) in
    elim (dec_lt i j) [
      | no q ↦
          let there : (j + (i - j)) % length slots ≡ i =
            remainder_of (length slots) {x = j + (i - j)} {y = i} (omega arith) ∙ mod-eq_of_lt h in
          probe-ends (length slots) slots j i k (i - j) n there inside (omega arith)
      | yes q ↦
          let there : (j + (i + length slots - j)) % length slots ≡ i =
            remainder_of (length slots) {x = j + (i + length slots - j)} {y = i + length slots}
              (omega arith)
            ∙ add-mod_right i (length slots)
            ∙ mod-eq_of_lt h in
          probe-ends (length slots) slots j i k (i + length slots - j) n there inside (omega arith)
    ]
