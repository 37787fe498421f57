-- ===== src/Half.antt =====
-- The conversions between float and half on their bits: charsiu_f2h and a lane of charsiu_f2h_x4 of
-- include/charsiu.h, and charsiu_half_to_float of src/job.c. The fields that are joined by `|` do not
-- overlap, so they are added.
pub mod Lanes
pub mod Widened
pub mod Copies
mod Tests
use charsiu.Prelude.{
  Bool, if◌then◌else◌, leb, not, sub32, suc, u32, zero, ℕ, ◌%◌, ◌&&◌, ◌*◌, ◌+◌, ◌-◌, ◌/◌, ◌==◌, ◌^◌,
  ◌||◌,
}

-- charsiu_f2h: the exponent is `e - 127 + 15`, so that it is 0 or less up to 112, and 0x1f from 143 on
unfoldable pub f2h : ℕ → ℕ
f2h u =
    let sign = u / 2 ^ 31 % 2 * 2 ^ 15 in
    let e = u / 2 ^ 23 % 2 ^ 8 in
    let man = u % 2 ^ 23 in
    if leb e 112
    then sign
    else if leb 143 e
    then sign + 0x7c00
    else (sign + (e - 112) * 2 ^ 10 + man / 2 ^ 13) % 2 ^ 16

-- is a 32-bit lane negative, as a signed number?
abbrev pub is_negative : ℕ → Bool
is_negative x = leb (2 ^ 31) x

-- one lane of charsiu_f2h_x4: both results are there, and the comparisons select
unfoldable pub f2h_lane : ℕ → ℕ
f2h_lane u =
    let sign = u / 2 ^ 16 % 2 ^ 16 / 2 ^ 15 * 2 ^ 15 in
    let exp = sub32 (u / 2 ^ 23 % 2 ^ 8) (127 - 15) in
    let man = u % 2 ^ 23 / 2 ^ 13 in
    let norm = u32 (sign + (u32 (exp * 2 ^ 10) + man)) in
    let inf = sign + 0x7c00 in
    let r = if not (is_negative exp) && leb 0x1f exp then inf else norm in
    (if is_negative exp || exp == 0 then sign else r) % 2 ^ 16

-- the loop over a subnormal: `e` is the exponent plus 112, which is that of the float
unfoldable pub normalise : ℕ → ℕ → ℕ → ℕ × ℕ
normalise zero man e = (man, e)
normalise (suc fuel) man e =
    if man / 2 ^ 10 % 2 == 1 then (man, e) else normalise fuel (man * 2) (e - 1)

-- charsiu_half_to_float; ten rounds bring any mantissa that is not 0 to its leading bit
unfoldable pub half_to_float : ℕ → ℕ
unfolding normalise
half_to_float h =
    let sign = h / 2 ^ 15 % 2 * 2 ^ 31 in
    let exp = h / 2 ^ 10 % 2 ^ 5 in
    let man = h % 2 ^ 10 in
    if exp == 0
    then (if man == 0
        then sign
        else (let (m, e) = normalise 10 man 113 in sign + e * 2 ^ 23 + m % 2 ^ 10 * 2 ^ 13))
    else if exp == 0x1f
    then sign + 0x7f800000 + man * 2 ^ 13
    else sign + (exp + 112) * 2 ^ 23 + man * 2 ^ 13

-- the loop of half_to_float of src/gguf.c, whose exponent is unsigned: it wraps below 0
unfoldable pub renormalise : ℕ → ℕ → ℕ → ℕ × ℕ
renormalise zero m e = (m, e)
renormalise (suc fuel) m e =
    if m / 2 ^ 10 % 2 == 1 then (m, e) else renormalise fuel (u32 (m * 2)) (sub32 e 1)

-- half_to_float of src/gguf.c
unfoldable pub gguf_half_to_float : ℕ → ℕ
unfolding renormalise
gguf_half_to_float h =
    let s = u32 (h / 2 ^ 15 * 2 ^ 31) in
    let e = h / 2 ^ 10 % 2 ^ 5 in
    let m = h % 2 ^ 10 in
    if e == 0
    then (if m == 0
        then s
        else (let (n, f) = renormalise 10 m 1 in
            s + u32 (u32 (f + (127 - 15)) * 2 ^ 23) + n % 2 ^ 10 * 2 ^ 13))
    else if e == 0x1f
    then s + 0x7f800000 + m * 2 ^ 13
    else s + u32 (u32 (e + (127 - 15)) * 2 ^ 23) + m * 2 ^ 13
