-- ===== src/Stream/Job/Requant.antt =====
-- requant_of of src/job.c: the multiplier and the shift that the DPU scales an accumulator by, out of the
-- bits of a float.
use charsiu.Prelude.{arith, if◌then◌else◌, ltb, sub32, ℕ, ◌%◌, ◌+◌, ◌-◌, ◌/◌, ◌<◌, ◌==◌, ◌^◌, ◌≤◌}
use charsiu.Prelude.Bits.{bit}
use charsiu.Stream.Job.{JobEnvironment, Job, or_else}

-- `struct requant`; the offset is its 32-bit pattern
pub record Requant : Type 0 where
  pub scale : ℕ
  pub shift : ℕ
  pub offset : ℕ

-- `(bits >> 9) & 0x7fff`, plus one where bit 8 is set
unfoldable pub mantissa : ℕ → ℕ
mantissa bits = bits / 2 ^ 9 % 2 ^ 15 + (if bit bits 8 == 1 then 1 else 0)

-- the scale and the shift: a rounded mantissa that passes 15 bits is halved, and the leading bit is set
unfoldable pub scale_of : ℕ → ℕ × ℕ
unfolding mantissa
scale_of bits =
    let shift = sub32 (127 + 31 - 32 + 16) (bits / 2 ^ 23) in
    let scale = mantissa bits in
    if ltb 0x7fff scale
    then (2 ^ 14, sub32 (sub32 shift 1) 1)
    else if ltb scale (2 ^ 14)
    then (scale + 2 ^ 14, sub32 shift 1)
    else (scale, sub32 shift 1)

unfoldable pub requant_of : JobEnvironment → Job → Requant
unfolding scale_of
requant_of env job = record {
  scale = (scale_of job.conv_bits).0;
  shift = (scale_of job.conv_bits).1;
  offset = or_else env.out_off (sub32 job.output_zero_point 0x80);
}

-- The multiplier always has its leading bit, bit 14, and no higher one.
pub scale_of-normal : (bits : ℕ) → (2 ^ 14 ≤ (scale_of bits).0) × ((scale_of bits).0 < 2 ^ 15)
unfolding scale_of mantissa
scale_of-normal bits = ground arith
