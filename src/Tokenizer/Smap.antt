-- ===== src/Tokenizer/Smap.antt =====
-- The open addressed string map of src/tokenizer.c. A key is the list of its bytes and a slot holds the
-- key with its value, or nothing where the code has the value -1. The capacity is the number of slots, a
-- power of two, so `& (cap - 1)` is the remainder by it.
pub mod Filling
pub mod Lookup
use charsiu.Prelude.{
  List, Option, [], bit_xor, false, get_or, if◌then◌else◌, length, ltb, none, replicate, set, some,
  suc, true, u64, zero, ℕ, ◌%◌, ◌*◌, ◌+◌, ◌∷◌,
}
use charsiu.Gguf.Lookup.{bytes_eq}

-- fnv, at 64 bits
unfoldable pub fnv_from : ℕ → List ℕ → ℕ
fnv_from h [] = h
fnv_from h (b ∷ bs) = fnv_from (u64 (bit_xor h b * 1099511628211)) bs

unfoldable pub fnv : List ℕ → ℕ
fnv s = fnv_from 1469598103934665603 s

abbrev pub Slot : Type 0
Slot = Option (List ℕ × ℕ)

-- `struct smap`
pub record Smap : Type 0 where
  pub slots : List Slot
  pub used : ℕ

-- `while (cap < want * 2) cap <<= 1`, on fuel
unfoldable pub grow : ℕ → ℕ → ℕ → ℕ
grow zero cap want = cap
grow (suc fuel) cap want =
    let more = grow fuel (cap * 2) want in if ltb cap (want * 2) then more else cap

-- smap_init; sixty doublings pass any count of strings that fits in memory
unfoldable pub smap_init : ℕ → Smap
smap_init want = record { slots = replicate (grow 60 16 want) none; used = 0 }

-- Where a probe ends: at a slot with the key and its value, at an empty slot, or nowhere in a full table,
-- where the code would not stop.
pub data Probe : Type 0 where
  found : ℕ → Probe
  vacant : ℕ → Probe
  lost : Probe

-- The loop that smap_put and smap_get share, from slot `i` on, with the number of slots left to try.
unfoldable pub probe : ℕ → List Slot → ℕ → List ℕ → Probe
probe zero slots i k = lost
probe (suc left) slots i k = elim (get_or slots i none) [
  | none ↦ vacant i
  | some (key, v) ↦ elim (bytes_eq key k) [
    | true ↦ found v
    | false ↦ probe left slots ((i + 1) % length slots) k
  ]
]

unfoldable pub probe_key : List Slot → List ℕ → Probe
probe_key slots k = probe (length slots) slots (fnv k % length slots) k

-- smap_put: the first spelling wins
unfoldable pub smap_put : Smap → List ℕ → ℕ → Smap
smap_put m k v = elim (probe_key m.slots k) [
  | found _ ↦ m
  | vacant i ↦ record { slots = set m.slots i (some (k, v)); used = m.used + 1 }
  | lost ↦ m
]

-- smap_get, with `none` for -1
unfoldable pub smap_get : Smap → List ℕ → Option ℕ
smap_get m k = elim (probe_key m.slots k) [ found v ↦ some v | vacant _ ↦ none | lost ↦ none ]
