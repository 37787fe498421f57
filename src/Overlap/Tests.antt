-- ===== src/Overlap/Tests.antt =====
-- Runs and instances of the theorems on the overlap decision.
use charsiu.Prelude.{[], false, inl, inr, none, refl, some, true, ◌↔◌, ◌∷◌, ◌≡◌}
use charsiu.Prelude.Int.{pos}
use charsiu.Overlap.{
  missing, number, Regulator, npu_rail_uv, npu_clk_hz, overlap_safe, npu_overlap_ok, sysfs_long,
}
use charsiu.Overlap.Envelope.{InEnvelope, NoRail, overlap_safe_iff}

abbrev parent : Regulator
parent = record { dotted = true; is_npu_rail = none; microvolts = missing }

abbrev rail : Regulator
rail = record { dotted = false; is_npu_rail = some true; microvolts = number (pos 750000) }

-- mainline as shipped: 786 MHz at 750 mV must not overlap, 594 MHz may
mainline :
    npu_overlap_ok none none (some (parent ∷ rail ∷ [])) missing
      ∷ npu_overlap_ok none (some (pos 594000000)) (some (parent ∷ rail ∷ [])) missing
      ∷ []
    ≡ false ∷ true ∷ []
unfolding npu_overlap_ok npu_rail_uv npu_clk_hz overlap_safe
mainline = refl

overlap_safe_iff_example :
    ((overlap_safe (pos 800000) (pos 786430000)).0 ≡ true) ↔ InEnvelope (pos 800000) (pos 786430000)
overlap_safe_iff_example = overlap_safe_iff (pos 800000) (pos 786430000)

no_rail : NoRail (parent ∷ record rail { microvolts = missing } ∷ [])
unfolding sysfs_long
no_rail = (inl refl, (inr (inr refl), tt))
