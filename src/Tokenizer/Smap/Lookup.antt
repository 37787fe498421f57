-- ===== src/Tokenizer/Smap/Lookup.antt =====
-- What the string map of src/tokenizer.c finds of what was put in.
use charsiu.Prelude.{
  List, [], arith, get_or, length, length-set, none, refl, set, some, sym, ℕ, ◌%◌, ◌<◌, ◌∙◌, ◌∷◌,
  ◌≡◌, ◌≢◌,
}
use native.Mathlib.Nat.{mod-lt}
use charsiu.Tokenizer.Smap.{
  Slot, Smap, fnv, Probe, found, vacant, lost, probe, probe_key, smap_put, smap_get,
}
use charsiu.Tokenizer.Smap.Filling.{at, probe-free, probe-keeps, probe-fills, probe_key-ends}

-- where a probe ends, a case for each
data End (slots : List Slot) (k : List ℕ) : Type 0 where
  known : (v : ℕ) → probe_key slots k ≡ found v → End slots k
  open_at : (i : ℕ) → probe_key slots k ≡ vacant i → End slots k
  nowhere : probe_key slots k ≡ lost → End slots k

probe_cases : (slots : List Slot) (k : List ℕ) → End slots k
probe_cases slots k = go (probe_key slots k) refl
  where
    go : (p : Probe) → probe_key slots k ≡ p → End slots k
    go (found v) e = known v e
    go (vacant i) e = open_at i e
    go lost e = nowhere e

smap_get-found :
    (m : Smap) (k : List ℕ) (v : ℕ) → probe_key m.slots k ≡ found v → smap_get m k ≡ some v
unfolding smap_get
smap_get-found m k v e = rw (e, smap_get) refl

smap_get-absent :
    (m : Smap) (k : List ℕ) → ((v : ℕ) → probe_key m.slots k ≢ found v) → smap_get m k ≡ none
unfolding smap_get
smap_get-absent m k h = elim (probe_cases m.slots k) [
  | known v e ↦ absurd (h v e)
  | open_at i e ↦ rw (e, smap_get) refl
  | nowhere e ↦ rw (e, smap_get) refl
]

smap_put-found :
    (m : Smap) (k : List ℕ) (v u : ℕ) → probe_key m.slots k ≡ found u → smap_put m k v ≡ m
unfolding smap_put
smap_put-found m k v u e = rw (e, smap_put) refl

smap_put-lost : (m : Smap) (k : List ℕ) (v : ℕ) → probe_key m.slots k ≡ lost → smap_put m k v ≡ m
unfolding smap_put
smap_put-lost m k v e = rw (e, smap_put) refl

smap_put-vacant :
    (m : Smap) (k : List ℕ) (v i : ℕ)
    → probe_key m.slots k ≡ vacant i
    → (smap_put m k v).slots ≡ set m.slots i (some (k, v))
unfolding smap_put
smap_put-vacant m k v i e = rw (e, smap_put) refl

-- the two facts on a probe, for the probe of a key; a table without slots has no probe that ends
start-lt : (slots : List Slot) (k : List ℕ) → 0 < length slots → fnv k % length slots < length slots
start-lt slots k h = mod-lt (fnv k) h

probe_key-vacant :
    (slots : List Slot) (k : List ℕ) (i : ℕ) → probe_key slots k ≡ vacant i → 0 < length slots
unfolding probe_key probe
probe_key-vacant [] k i e = ground arith
probe_key-vacant (s ∷ slots) k i e = omega arith

probe_key-free :
    (slots : List Slot) (k : List ℕ) (i : ℕ) → probe_key slots k ≡ vacant i → at slots i ≡ none
unfolding probe_key
probe_key-free slots k i e =
    (probe-free (length slots) slots (fnv k % length slots) i k
      (start-lt slots k (probe_key-vacant slots k i e)) e).0

probe_key-keeps :
    (slots : List Slot) (i : ℕ) (k : List ℕ) (v : ℕ) (x : Slot)
    → at slots i ≡ none
    → probe_key slots k ≡ found v
    → probe_key (set slots i x) k ≡ found v
unfolding probe_key
probe_key-keeps slots i k v x n e =
    rw (length-set slots i x) (probe-keeps (length slots) slots (fnv k % length slots) i k v x n e)

probe_key-fills :
    (slots : List Slot) (i : ℕ) (k : List ℕ) (v : ℕ)
    → probe_key slots k ≡ vacant i
    → probe_key (set slots i (some (k, v))) k ≡ found v
unfolding probe_key
probe_key-fills slots i k v e = rw (length-set slots i (some (k, v))) (
    probe-fills (length slots) slots (fnv k % length slots) i k v
      (start-lt slots k (probe_key-vacant slots k i e)) e)

-- A key that the map knows keeps its value, whatever is put in.
pub smap_put-keeps :
    (m : Smap) (k k' : List ℕ) (v v' : ℕ)
    → smap_get m k' ≡ some v'
    → smap_get (smap_put m k v) k' ≡ some v'
smap_put-keeps m k k' v v' e = elim (probe_cases m.slots k) [
  | known u f ↦ rw (smap_put-found m k v u f) e
  | nowhere f ↦ rw (smap_put-lost m k v f) e
  | open_at i f ↦ elim (probe_cases m.slots k') [
    | known u f' ↦
        let same : some u ≡ some v' = sym (smap_get-found m k' u f') ∙ e in
        let kept = probe_key-keeps m.slots i k' u (some (k, v)) (probe_key-free m.slots k i f) f' in
        smap_get-found (smap_put m k v) k' u (rw (smap_put-vacant m k v i f) kept) ∙ same
    | open_at i' f' ↦ let gone = smap_get-absent m k' (λ u f''. ground arith) in ground arith
    | nowhere f' ↦ let gone = smap_get-absent m k' (λ u f''. ground arith) in ground arith
  ]
]

-- In a map with a free slot, a key that is put in is found: with the value it had before, if it had one,
-- and else with the new value.
pub smap_get-smap_put :
    (m : Smap) (i : ℕ) (k : List ℕ) (v : ℕ)
    → i < length m.slots
    → get_or m.slots i none ≡ none
    → smap_get (smap_put m k v) k ≡ some (elim (smap_get m k) [ none ↦ v | some v' ↦ v' ])
unfolding at
smap_get-smap_put m i k v h n = elim (probe_cases m.slots k) [
  | nowhere f ↦ absurd (probe_key-ends m.slots i k h n f)
  | known u f ↦ let same = smap_get-found m k u f in rw (smap_put-found m k v u f, same) refl
  | open_at j f ↦
      let gone = smap_get-absent m k (λ u f'. ground arith) in
      rw gone (
        smap_get-found (smap_put m k v) k v
          (rw (smap_put-vacant m k v j f) (probe_key-fills m.slots j k v f)))
]
