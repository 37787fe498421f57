-- ===== src/Gguf.antt =====
-- The gguf reader of src/gguf.c: the cursor over the mapped file. The file is the list of its bytes and
-- the cursor the bytes from `p` to `end`; a pointer into the mapping is the bytes from there on.
-- Numbers are little-endian, as on the target.
pub mod Values
pub mod Open
pub mod Lookup
pub mod Bounds
pub mod Format
mod Tests
use charsiu.Prelude.{
  Bool, List, Option, [], drop, if◌then◌else◌, length, ltb, none, some, take, true, ℕ, ◌*◌, ◌+◌,
  ◌||◌, ◌∷◌,
}

-- `struct cur`
pub record Cur : Type 0 where
  pub rest : List ℕ
  pub bad : Bool

-- the number whose bytes these are, the least significant first
unfoldable pub le_value : List ℕ → ℕ
le_value [] = 0
le_value (b ∷ bs) = b + 256 * le_value bs

-- cur_take; `none` stands for -1, where nothing is copied
unfoldable pub cur_take : Cur → ℕ → Option (List ℕ) × Cur
cur_take c n =
    if c.bad || ltb (length c.rest) n
    then (none, record c { bad = true })
    else (some (take n c.rest), record c { rest = drop n c.rest })

-- a number of `w` bytes, read into a variable that holds 0
unfoldable pub cur_number : ℕ → Cur → ℕ × Cur
unfolding cur_take le_value
cur_number w c =
    let (taken, c') = cur_take c w in (elim taken [ some bs ↦ le_value bs | none ↦ 0 ], c')

abbrev pub cur_u32 : Cur → ℕ × Cur
cur_u32 = cur_number 4

abbrev pub cur_u64 : Cur → ℕ × Cur
cur_u64 = cur_number 8

-- cur_str; `none` stands for the null pointer
unfoldable pub cur_str : Cur → Option (List ℕ) × Cur
unfolding cur_number
cur_str c =
    let (n, c') = cur_u64 c in
    if c'.bad || ltb (length c'.rest) n
    then (none, record c' { bad = true })
    else (some (take n c'.rest), record c' { rest = drop n c'.rest })
