-- ===== src/Overlap.antt =====
-- src/overlap.h: may the two cores run at once? The rail's voltage and the clock are read from the
-- environment or from sysfs, and compared with the vendor's table. A `long` is an integer; the files
-- are an argument, with what each read of one gives.
pub mod Envelope
mod Tests
use charsiu.Prelude.{Bool, List, Option, [], false, if◌then◌else◌, none, not, some, true, ℕ, ◌∷◌}
use charsiu.Prelude.Int.{ℤ, pos, negsuc, ltb_ℤ, pos_part, neg_part}

-- A file that holds a number: it cannot be opened, or no number is scanned, or this number is.
pub data NumberFile : Type 0 where
  missing : NumberFile
  unparsed : NumberFile
  number : ℤ → NumberFile

-- sysfs_long; -1 where there is no number
unfoldable pub sysfs_long : NumberFile → ℤ
sysfs_long missing = negsuc 0
sysfs_long unparsed = negsuc 0
sysfs_long (number v) = v

-- An entry of /sys/class/regulator: does its name begin with a dot, what its `name` file holds (`none`
-- if it cannot be opened or scanned), and its `microvolts` file.
pub record Regulator : Type 0 where
  pub dotted : Bool
  pub is_npu_rail : Option Bool
  pub microvolts : NumberFile

abbrev pub is_negative : ℤ → Bool
is_negative v = ltb_ℤ v (pos 0)

abbrev pub le_ℤ : ℤ → ℤ → Bool
le_ℤ a b = not (ltb_ℤ b a)

-- one round of the directory walk: `uv` is written only where the entry is the NPU's rail
unfoldable pub read_entry : ℤ → Regulator → ℤ
unfolding sysfs_long
read_entry uv e =
    if e.dotted
    then uv
    else elim (e.is_npu_rail) [ some true ↦ sysfs_long e.microvolts | some false ↦ uv | none ↦ uv ]

-- `while (uv < 0 && (e = readdir(d)))`
unfoldable pub walk : ℤ → List Regulator → ℤ
unfolding read_entry
walk uv [] = uv
walk uv (e ∷ es) = walk (if is_negative uv then read_entry uv e else uv) es

-- npu_rail_uv: the first argument is CHARSIU_NPU_RAIL_UV if it is set and not empty, the second the
-- directory if it can be opened
unfoldable pub npu_rail_uv : Option ℤ → Option (List Regulator) → ℤ
unfolding walk
npu_rail_uv (some uv) dir = uv
npu_rail_uv none none = negsuc 0
npu_rail_uv none (some entries) = walk (negsuc 0) entries

-- npu_clk_hz: CHARSIU_NPU_CLK_HZ, or the clock's file, or mainline's default
unfoldable pub npu_clk_hz : Option ℤ → NumberFile → ℤ
unfolding sysfs_long
npu_clk_hz (some hz) file = hz
npu_clk_hz none file = let hz = sysfs_long file in if ltb_ℤ (pos 0) hz then hz else pos 800000000

-- the vendor's voltage for each step of the clock
abbrev pub opp : List (ℕ × ℕ)
opp = (600000000, 725000) ∷ (700000000, 775000) ∷ (800000000, 800000) ∷ (900000000, 850000) ∷ []

-- the voltage of the first step that reaches the clock; -1 if none does
unfoldable pub needed : ℤ → List (ℕ × ℕ) → ℤ
needed hz [] = negsuc 0
needed hz ((step, uv) ∷ steps) = if le_ℤ hz (pos step) then pos uv else needed hz steps

-- which sentence `why` gets
pub data Why : Type 0 where
  unreadable above_table compared : Why

-- overlap_safe, and so charsiu_npu_overlap_ok, with the two readings
unfoldable pub overlap_safe : ℤ → ℤ → Bool × Why
unfolding needed
overlap_safe uv hz =
    let need = needed hz opp in
    if is_negative uv
    then (false, unreadable)
    else if is_negative need
    then (false, above_table)
    else (le_ℤ need uv, compared)

-- the whole decision, from the environment and the files
unfoldable pub npu_overlap_ok : Option ℤ → Option ℤ → Option (List Regulator) → NumberFile → Bool
npu_overlap_ok env_uv env_hz dir clock =
    (overlap_safe (npu_rail_uv env_uv dir) (npu_clk_hz env_hz clock)).0
