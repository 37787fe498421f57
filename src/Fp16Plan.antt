-- ===== src/Fp16Plan.antt =====
-- src/fp16plan.h: where the matmuls of one group lie inside four shared buffers. The arrays of
-- `struct charsiu_fp16_plan` are lists, one entry an op; a null pointer for the ops or the plan, which
-- the code refuses, has no counterpart.
pub mod Layout
pub mod Regions
pub mod Coefs
pub mod CoefLayout
mod Tests
use charsiu.Prelude.{
  Bool, List, Option, [], if◌then◌else◌, length, ltb, none, some, u64, ℕ, ◌&&◌, ◌*◌, ◌++◌, ◌+◌, ◌/◌,
  ◌==◌, ◌||◌, ◌∷◌,
}
use charsiu.Matmul.{Environment, Matmul, fp16, entries_per_row, weight_bytes, coef_bytes}

-- FP16_GROUP_MAX
abbrev pub group_max : ℕ
group_max = 64

-- `struct charsiu_fp16_op`, as far as the plan reads it; `on_device` says that `Wbuf` is not null
pub record Op : Type 0 where
  pub m : ℕ
  pub k : ℕ
  pub n : ℕ
  pub on_device : Bool

-- the entries of the arrays that belong to one op
pub record Placed : Type 0 where
  pub woff : ℕ
  pub wsz : ℕ
  pub ioff : ℕ
  pub isz : ℕ
  pub ooff : ℕ
  pub osz : ℕ
  pub coff : ℕ
  pub csz : ℕ

-- one distinct coefficient region: `coefn`, `coefsz` and `coefoff`
pub record Coef : Type 0 where
  pub n : ℕ
  pub size : ℕ
  pub off : ℕ

-- the running totals, the coefficient regions in the order made, and the widest op
pub record Totals : Type 0 where
  pub wtot : ℕ
  pub itot : ℕ
  pub otot : ℕ
  pub ctot : ℕ
  pub coefs : List Coef
  pub nmax : ℕ

pub record Plan : Type 0 where
  pub ops : List Placed
  pub totals : Totals

unfoldable pub up4k : ℕ → ℕ
up4k v = u64 (v + 4095) / 4096 * 4096

abbrev pub matmul_of : Op → Matmul
matmul_of o = record { m = o.m; k = o.k; n = o.n; wdtype = fp16; adtype = fp16 }

-- the refusal of one op: under the two byte feature atom on an axis, or no rows
unfoldable pub refused : Op → Bool
refused o = o.m == 0 || (ltb o.k 32 || ltb o.n 32)

unfoldable pub weight_size : Environment → Op → ℕ
weight_size env o = if o.on_device then 0 else weight_bytes env (matmul_of o)

unfoldable pub input_size : Environment → Op → ℕ
input_size env o = u64 (entries_per_row env (matmul_of o) * 64 * o.m)

unfoldable pub output_size : Op → ℕ
output_size o = u64 (o.m * o.n * 4)

unfoldable pub coef_size : Environment → Op → ℕ
coef_size env o = coef_bytes env (matmul_of o)

-- the search for a region of this `n` and size
unfoldable pub find_coef : ℕ → ℕ → List Coef → Option ℕ
find_coef n size [] = none
find_coef n size (c ∷ cs) = if c.n == n && c.size == size then some c.off else find_coef n size cs

-- the coefficient region of an op: shared, or made anew at the end
unfoldable pub take_coef : ℕ → ℕ → ℕ → List Coef → ℕ × ℕ × List Coef
unfolding find_coef up4k
take_coef n size ctot coefs = elim (find_coef n size coefs) [
  | some off ↦ (off, ctot, coefs)
  | none ↦ (ctot, u64 (ctot + up4k size), coefs ++ record { n = n; size = size; off = ctot } ∷ [])
]

-- the body of the loop, for an op that is not refused
unfoldable pub place : Environment → Totals → Op → Placed × Totals
unfolding weight_size input_size output_size coef_size take_coef up4k
place env t o =
    let wsz = weight_size env o in
    let isz = input_size env o in
    let osz = output_size o in
    let csz = coef_size env o in
    let (coff, ctot, coefs) = take_coef o.n csz t.ctot t.coefs in
    (
      record {
        woff = t.wtot;
        wsz = wsz;
        ioff = t.itot;
        isz = isz;
        ooff = t.otot;
        osz = osz;
        coff = coff;
        csz = csz;
      },
      record {
        wtot = u64 (t.wtot + (if wsz == 0 then 0 else up4k wsz));
        itot = u64 (t.itot + up4k isz);
        otot = u64 (t.otot + up4k osz);
        ctot = ctot;
        coefs = coefs;
        nmax = if ltb t.nmax o.n then o.n else t.nmax;
      },
    )

-- the loop: one bad op refuses the group
unfoldable pub place_ops : Environment → Totals → List Op → Option Plan
place_ops env t [] = some (record { ops = []; totals = t })
place_ops env t (o ∷ os) =
    let (p, t') = place env t o in
    let rest = place_ops env t' os in
    if refused o
    then none
    else elim rest [ none ↦ none | some plan ↦ some (record plan { ops = p ∷ plan.ops }) ]

abbrev pub start : Totals
start = record { wtot = 0; itot = 0; otot = 0; ctot = 0; coefs = []; nmax = 0 }

-- charsiu_fp16_make_plan; `none` stands for -1
unfoldable pub make_plan : Environment → List Op → Option Plan
make_plan env ops =
    if length ops == 0 || ltb group_max (length ops) then none else place_ops env start ops
