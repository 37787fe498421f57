-- ===== src/Stream.antt =====
-- The register streams of src/regcmd.c and src/job.c: an entry names a unit, a register and a value, and a
-- stream is the list of the 64-bit words of its entries. Both files have the emitter; that of src/job.c
-- also looks a register up in CHARSIU_OVERRIDE, so the one of src/regcmd.c is that with nothing in it.
pub mod Emission
pub mod Matmul
pub mod Job
pub mod Patch
pub mod Vendor
pub mod Emit
mod Tests
use charsiu.Prelude.{
  List, Option, [], bit_or, if◌then◌else◌, leb, ltb, max, none, some, sub32, suc, u32, zero, ℕ, ◌*◌,
  ◌++◌, ◌+◌, ◌==◌, ◌^◌, ◌∷◌,
}

-- the units
abbrev pub cna : ℕ
cna = 0x0201

abbrev pub core : ℕ
core = 0x0801

abbrev pub dpu : ℕ
dpu = 0x1001

abbrev pub rdma : ℕ
rdma = 0x2001

abbrev pub u28 : ℕ
u28 = 0x0401

-- the arguments of one call of emit
pub record Entry : Type 0 where
  pub target : ℕ
  pub reg : ℕ
  pub val : ℕ

abbrev pub put : ℕ → ℕ → ℕ → Entry
put target reg val = record { target = target; reg = reg; val = val }

-- `target << 48 | val << 16 | reg`, where `val` has 32 bits and a target and a register have 16
unfoldable pub word : ℕ → ℕ → ℕ → ℕ
word target reg val = target * 2 ^ 48 + u32 val * 2 ^ 16 + reg

-- `struct emitter`, without the capacity, which does not change: `out` holds the entries written
pub record Emitter : Type 0 where
  pub out : List ℕ
  pub n : ℕ

-- override_for, over the pairs that it reads off CHARSIU_OVERRIDE: the last one of a register counts
unfoldable pub override_for : List (ℕ × ℕ) → ℕ → Option ℕ
override_for [] reg = none
override_for ((r, v) ∷ more) reg = elim (override_for more reg) [
  | some found ↦ some found
  | none ↦ if r == reg then some v else none
]

-- the value that is written
unfoldable pub value_of : List (ℕ × ℕ) → Entry → ℕ
value_of ov e = elim (override_for ov e.reg) [ none ↦ e.val | some v ↦ v ]

-- emit
unfoldable pub emit : List (ℕ × ℕ) → ℕ → Emitter → Entry → Emitter
emit ov max e entry =
    if leb max e.n
    then record e { n = max + 1 }
    else record { out = e.out ++ word entry.target entry.reg (value_of ov entry) ∷ []; n = e.n + 1 }

-- the calls of emit, one after the other
unfoldable pub emit_all : List (ℕ × ℕ) → ℕ → List Entry → Emitter → Emitter
emit_all ov max [] e = e
emit_all ov max (entry ∷ entries) e = emit_all ov max entries (emit ov max e entry)

-- an emission from an empty buffer of `max` entries: `e.n > max ? 0 : e.n`, with the words; `none` is 0
unfoldable pub stream : List (ℕ × ℕ) → ℕ → List Entry → Option (List ℕ)
unfolding emit_all
stream ov max entries =
    let e = emit_all ov max entries (record { out = []; n = 0 }) in
    if ltb max e.n then none else some e.out

-- `a << 16 | b` at 32 bits
abbrev pub hi_lo : ℕ → ℕ → ℕ
hi_lo a b = bit_or (u32 (a * 2 ^ 16)) b

-- `x - 1` at 32 bits
abbrev pub pred32 : ℕ → ℕ
pred32 x = sub32 x 1

-- `for (r = first; r <= last; r += 4) emit(r, 0)`, by the number of registers
unfoldable pub zeros : ℕ → ℕ → ℕ → List Entry
zeros target reg zero = []
zeros target reg (suc count) = put target reg 0 ∷ zeros target (reg + 4) count
