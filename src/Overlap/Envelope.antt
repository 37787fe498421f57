-- ===== src/Overlap/Envelope.antt =====
-- The decision of src/overlap.h against the vendor's envelope.
use charsiu.Prelude.{
  List, Option, [], arith, false, none, refl, some, true, ℕ, ◌↔◌, ◌∷◌, ◌≡◌, ◌≢◌, ◌⊎◌,
}
use charsiu.Prelude.Int.{ℤ, pos, negsuc, ◌≤ℤ◌}
use charsiu.Overlap.{
  NumberFile, sysfs_long, Regulator, read_entry, walk, npu_rail_uv, npu_clk_hz, overlap_safe,
  npu_overlap_ok, is_negative,
}

-- at most `hz` on the clock and at least `uv` on the rail
abbrev pub Within : ℤ → ℤ → ℕ × ℕ → Type 0
Within uv hz step = (hz ≤ℤ pos step.0) × (pos step.1 ≤ℤ uv)

-- some step of the vendor's table covers the two readings
abbrev pub InEnvelope : ℤ → ℤ → Type 0
InEnvelope uv hz =
    Within uv hz (600000000, 725000)
    ⊎ Within uv hz (700000000, 775000)
    ⊎ Within uv hz (800000000, 800000)
    ⊎ Within uv hz (900000000, 850000)

-- The cores may overlap exactly if some step of the vendor's table has at least the clock that is read
-- and asks at most the voltage that is read; so a rail that cannot be read and a clock above the table
-- never pass.
pub overlap_safe_iff : (uv hz : ℤ) → ((overlap_safe uv hz).0 ≡ true) ↔ InEnvelope uv hz
unfolding overlap_safe
overlap_safe_iff (pos u) (pos h) = (λ e. ground arith, λ e. ground arith)
overlap_safe_iff (pos u) (negsuc h) = (λ e. ground arith, λ e. ground arith)
overlap_safe_iff (negsuc u) hz = (λ e. absurd (ground arith), λ e. ground arith)

-- no entry of the directory is the rail with a voltage that is not negative
abbrev pub NoRail : List Regulator → Type 0
NoRail [] = Unit
NoRail (e ∷ es) =
    ((e.dotted ≡ true)
      ⊎ (e.is_npu_rail ≢ some true)
      ⊎ (is_negative (sysfs_long e.microvolts) ≡ true))
    × NoRail es

read_entry-negative :
    (uv : ℤ) (e : Regulator)
    → is_negative uv ≡ true
    → ((e.dotted ≡ true)
        ⊎ (e.is_npu_rail ≢ some true)
        ⊎ (is_negative (sysfs_long e.microvolts) ≡ true))
    → is_negative (read_entry uv e) ≡ true
unfolding read_entry
read_entry-negative uv e neg h = ground arith

walk-negative :
    (uv : ℤ) (entries : List Regulator)
    → is_negative uv ≡ true
    → NoRail entries
    → is_negative (walk uv entries) ≡ true
unfolding walk
walk-negative uv [] neg h = neg
walk-negative uv (e ∷ es) neg h =
    rw neg (walk-negative (read_entry uv e) es (read_entry-negative uv e neg h.0) h.1)

overlap_safe-negative : (uv hz : ℤ) → is_negative uv ≡ true → (overlap_safe uv hz).0 ≡ false
unfolding overlap_safe
overlap_safe-negative (pos u) hz neg = absurd (ground arith)
overlap_safe-negative (negsuc u) hz neg = ground arith

-- An unreadable rail is unsafe: where CHARSIU_NPU_RAIL_UV is not set, a directory that cannot be opened
-- and one with no rail whose voltage can be read forbid the overlap, whatever the clock.
pub npu_overlap_ok-unreadable :
    (env_hz : Option ℤ) (clock : NumberFile) (entries : List Regulator)
    → NoRail entries
    → (npu_overlap_ok none env_hz none clock ≡ false)
      × (npu_overlap_ok none env_hz (some entries) clock ≡ false)
unfolding npu_overlap_ok npu_rail_uv
npu_overlap_ok-unreadable env_hz clock entries h = (
  overlap_safe-negative (negsuc 0) (npu_clk_hz env_hz clock) refl,
  overlap_safe-negative (walk (negsuc 0) entries) (npu_clk_hz env_hz clock)
      (walk-negative (negsuc 0) entries refl h),
)
