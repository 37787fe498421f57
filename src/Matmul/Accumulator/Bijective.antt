-- ===== src/Matmul/Accumulator/Bijective.antt =====
-- The read order of src/job.c at an even batch width.
use charsiu.Prelude.{
  Bool, ap, arith, false, if◌then◌else◌, none, true, u32, u32_fits, u32_mod, ℕ, ◌%◌, ◌*◌, ◌+◌, ◌/◌,
  ◌<◌, ◌^◌, ◌∙◌, ◌≡◌, ◌≤◌,
}
use native.Mathlib.Nat.{mod-lt, div-add-mod, mul-le-mul_right}
use charsiu.Prelude.Radix.{radix_injective, radix-lt}
use charsiu.Matmul.{Environment}
use charsiu.Matmul.Accumulator.{acc_a_coeff, role_place, plain_place, acc_index, acc_width_ok}

-- In both orders a slot is a number with digits `outer` < 2, `block` < 4, `pair` < p, `half` < 2 and
-- `lane` < 4.
abbrev slot : ℕ → ℕ → ℕ → ℕ → ℕ → ℕ → ℕ
slot p outer block pair half lane =
    outer * (32 * p) + (block * (8 * p) + (pair * 8 + (half * 4 + lane)))

module _ (p : ℕ) where
  inner-lt :
      (b q h l : ℕ) → b < 4 → q < p → h < 2 → l < 4 → b * (8 * p) + (q * 8 + (h * 4 + l)) < 32 * p
  inner-lt b q h l hb hq hh hl =
      omega (arith, radix-lt (8 * p) b 4 (q * 8 + (h * 4 + l)) (omega arith) hb)

  slot-lt : (o b q h l : ℕ) → o < 2 → b < 4 → q < p → h < 2 → l < 4 → slot p o b q h l < 64 * p
  slot-lt o b q h l ho hb hq hh hl =
      omega (arith, radix-lt (32 * p) o 2 _ (inner-lt b q h l hb hq hh hl) ho)

  slot_injective :
      (o b q h l o' b' q' h' l' : ℕ)
      → b < 4
      → q < p
      → h < 2
      → l < 4
      → b' < 4
      → q' < p
      → h' < 2
      → l' < 4
      → slot p o b q h l ≡ slot p o' b' q' h' l'
      → (o ≡ o') × (b ≡ b') × (q ≡ q') × (h ≡ h') × (l ≡ l')
  slot_injective o b q h l o' b' q' h' l' hb hq hh hl hb' hq' hh' hl' e =
      let (outer, rest) =
        radix_injective (32 * p) o o' _ _ (inner-lt b q h l hb hq hh hl)
          (inner-lt b' q' h' l' hb' hq' hh' hl') e in
      let (block, pairs) =
        radix_injective (8 * p) b b' (q * 8 + (h * 4 + l)) (q' * 8 + (h' * 4 + l')) (omega arith)
          (omega arith) rest in
      (outer, block, omega arith, omega arith, omega arith)

-- the digits of the slot of row `mi` and channel `ni`, in the order that the format asks for
abbrev slot_of : Bool → ℕ → ℕ → ℕ → ℕ
slot_of w4wide p mi ni =
    let c = ni % 32 in
    let t = c % 16 in
    if w4wide
    then slot p (c / 16) (t / 4) (mi / 2) (mi % 2) (t % 4)
    else slot p (mi / p) (t / 4) (mi % p) (c / 16) (t % 4)

-- what CHARSIU_ACC_A leaves alone, at an even width of up to 2 ^ 20 rows
module _ (env : Environment) (default : env.acc_a ≡ none) (p : ℕ) (pos : 0 < p)
    (small : p ≤ 2 ^ 19) where
  coeff_default : acc_a_coeff env ≡ (4, 0)
  unfolding acc_a_coeff
  coeff_default = rw default

  halves : (mi : ℕ) → mi < 2 * p → (mi / p < 2) × (mi % p < p) × (p * (mi / p) + mi % p ≡ mi)
  halves mi h =
      ground (arith, mod-lt mi pos, div-add-mod mi p, mul-le-mul_right {m = 2} {n = mi / p} p)

  -- no 32-bit product wraps
  role_place-slot :
      (hi lo a t : ℕ)
      → hi < p
      → lo < 2
      → t < 16
      → role_place p hi lo a t ≡ slot p a (t / 4) hi lo (t % 4)
  unfolding role_place
  role_place-slot hi lo a t hh hl ht =
      let wide : u32 (32 * p) ≡ 32 * p = omega arith in
      let eight : u32 (8 * p) ≡ 8 * p = omega arith in
      let inside : t / 4 * (8 * p) + hi * 8 + lo * 4 + t % 4 < u32_mod =
        omega (arith, inner-lt p (t / 4) hi lo (t % 4) (omega arith) hh hl (omega arith)) in
      rw (wide, eight) (rw (u32_fits inside) (omega arith))

  plain_place-slot :
      (mi a t : ℕ)
      → mi < 2 * p
      → a < 2
      → t < 16
      → plain_place p mi a 4 t ≡ slot p (mi / p) (t / 4) (mi % p) a (t % 4)
  unfolding plain_place
  plain_place-slot mi a t hm ha ht =
      let wide : u32 (32 * p) ≡ 32 * p = omega arith in
      let eight : u32 (8 * p) ≡ 8 * p = omega arith in
      let four : u32 (a * 4) ≡ a * 4 = omega arith in
      let (_, pair, _) = halves mi hm in
      let inside : t / 4 * (8 * p) + mi % p * 8 + a * 4 + t % 4 < u32_mod =
        omega (arith, inner-lt p (t / 4) (mi % p) a (t % 4) (omega arith) pair ha (omega arith)) in
      rw (wide, eight, four) (rw (u32_fits inside) (omega arith))

  acc_index-slot :
      (mi ni : ℕ) (w4wide : Bool)
      → mi < 2 * p
      → acc_index env mi ni (2 * p) w4wide ≡ ni / 32 * (64 * p) + slot_of w4wide p mi ni
  unfolding acc_index
  acc_index-slot mi ni w4wide h =
      let half : 2 * p / 2 ≡ p = omega arith in
      let unread : acc_a_coeff env ≡ (4, 0) = coeff_default in
      rw (half, unread)
        (ground (
          arith,
          role_place-slot (mi / 2) (mi % 2) (ni % 32 / 16) (ni % 32 % 16),
          plain_place-slot mi (ni % 32 / 16) (ni % 32 % 16),
        ))

  slot_of-lt : (mi ni : ℕ) (w4wide : Bool) → mi < 2 * p → slot_of w4wide p mi ni < 64 * p
  slot_of-lt mi ni true h =
      slot-lt p (ni % 32 / 16) (ni % 32 % 16 / 4) (mi / 2) (mi % 2) (ni % 32 % 16 % 4) (omega arith)
        (omega arith) (omega arith) (omega arith) (omega arith)
  slot_of-lt mi ni false h =
      let (outer, pair, _) = halves mi h in
      slot-lt p (mi / p) (ni % 32 % 16 / 4) (mi % p) (ni % 32 / 16) (ni % 32 % 16 % 4) outer
        (omega arith) pair (omega arith) (omega arith)

  slot_of_injective :
      (mi ni mi' ni' : ℕ) (w4wide : Bool)
      → mi < 2 * p
      → mi' < 2 * p
      → slot_of w4wide p mi ni ≡ slot_of w4wide p mi' ni'
      → (mi ≡ mi') × (ni % 32 ≡ ni' % 32)
  slot_of_injective mi ni mi' ni' true h h' e =
      let (o, b, q, l, t) =
        slot_injective p (ni % 32 / 16) (ni % 32 % 16 / 4) (mi / 2) (mi % 2) (ni % 32 % 16 % 4)
          (ni' % 32 / 16) (ni' % 32 % 16 / 4) (mi' / 2) (mi' % 2) (ni' % 32 % 16 % 4) (omega arith)
          (omega arith) (omega arith) (omega arith) (omega arith) (omega arith) (omega arith)
          (omega arith) e in
      (omega arith, omega arith)
  slot_of_injective mi ni mi' ni' false h h' e =
      let (_, pair, whole) = halves mi h in
      let (_, pair', whole') = halves mi' h' in
      let (o, b, q, l, t) =
        slot_injective p (mi / p) (ni % 32 % 16 / 4) (mi % p) (ni % 32 / 16) (ni % 32 % 16 % 4)
          (mi' / p) (ni' % 32 % 16 / 4) (mi' % p) (ni' % 32 / 16) (ni' % 32 % 16 % 4) (omega arith)
          pair (omega arith) (omega arith) (omega arith) pair' (omega arith) (omega arith) e in
      (omega (arith, whole, whole', q, ap (λ (t : ℕ). p * t) o), omega arith)

whole_groups : (n : ℕ) → n % 32 ≡ 0 → n ≡ 32 * (n / 32)
whole_groups n h = omega arith

-- At every even width of 2 rows up to 2 ^ 20 the read order is a permutation of the surface of `m` rows
-- of `n` channels, `n` a multiple of 32: each index is inside, and two cells never share one. This is so
-- in both formats, where CHARSIU_ACC_A is not set.
pub acc_index_permutes :
    (env : Environment) (m n mi ni mi' ni' : ℕ) (w4wide : Bool)
    → env.acc_a ≡ none
    → acc_width_ok m ≡ true
    → 2 ≤ m
    → m ≤ 2 ^ 20
    → n % 32 ≡ 0
    → mi < m
    → ni < n
    → mi' < m
    → ni' < n
    → (acc_index env mi ni m w4wide < m * n)
      × (acc_index env mi ni m w4wide ≡ acc_index env mi' ni' m w4wide → (mi ≡ mi') × (ni ≡ ni'))
unfolding acc_width_ok
acc_index_permutes env m n mi ni mi' ni' w4wide default even two small groups hm hn hm' hn' =
    let p = m / 2 in
    let twice : m ≡ 2 * p = ground arith in
    let pos : 0 < p = omega arith in
    let row : mi < 2 * p = omega arith in
    let row' : mi' < 2 * p = omega arith in
    let at = acc_index-slot env default p pos (omega arith) mi ni w4wide row in
    let at' = acc_index-slot env default p pos (omega arith) mi' ni' w4wide row' in
    let inside = slot_of-lt env default p pos (omega arith) mi ni w4wide row in
    let inside' = slot_of-lt env default p pos (omega arith) mi' ni' w4wide row' in
    rw twice (
      rw at (
        omega (
          arith,
          radix-lt (64 * p) (ni / 32) (n / 32) (slot_of w4wide p mi ni) inside (omega arith),
          ap (λ (t : ℕ). p * t) (whole_groups n groups),
        ),
        (λ e.
            let (group, rest) =
              radix_injective (64 * p) (ni / 32) (ni' / 32) (slot_of w4wide p mi ni)
                (slot_of w4wide p mi' ni') inside inside' (e ∙ at') in
            let (rows, lanes) =
              slot_of_injective env default p pos (omega arith) mi ni mi' ni' w4wide row row'
                rest in
            (rows, omega (arith, group, lanes))),
      ))
