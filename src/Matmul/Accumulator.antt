-- ===== src/Matmul/Accumulator.antt =====
-- The read order of the accumulator surface: charsiu_acc_index and charsiu_acc_width_ok of src/job.c.
-- The 32-bit products are those of `unsigned`.
pub mod Bijective
use charsiu.Prelude.{
  Bool, if◌then◌else◌, ltb, none, some, u32, ℕ, ◌%◌, ◌&&◌, ◌*◌, ◌+◌, ◌-◌, ◌/◌, ◌==◌,
}
use charsiu.Matmul.{Environment, AccA, swap, roleswap, roleswap2, coeff}

-- the coefficient A and the variant that acc_a_coeff reads off CHARSIU_ACC_A, 0 for none
unfoldable pub acc_a_coeff : Environment → ℕ × ℕ
acc_a_coeff env = elim (env.acc_a) [
  | none ↦ (4, 0)
  | some swap ↦ (4, 1)
  | some roleswap ↦ (4, 2)
  | some roleswap2 ↦ (4, 3)
  | some (coeff a) ↦ (a, 0)
]

-- `if (!swap && w4wide) swap = 3`
unfoldable pub acc_variant : Environment → Bool → ℕ
unfolding acc_a_coeff
acc_variant env w4wide = let (_, v) = acc_a_coeff env in if v == 0 && w4wide then 3 else v

-- the place in a group of 32 channels, from the row's two parts `hi` and `lo`, with `a` outside
unfoldable pub role_place : ℕ → ℕ → ℕ → ℕ → ℕ → ℕ
role_place p hi lo a t = a * u32 (32 * p) + u32 (t / 4 * u32 (8 * p) + hi * 8 + lo * 4 + t % 4)

-- the same with the row's half outside and `a` inside
unfoldable pub plain_place : ℕ → ℕ → ℕ → ℕ → ℕ → ℕ
plain_place p mi a coefficient t =
    mi / p * u32 (32 * p) + u32 (t / 4 * u32 (8 * p) + mi % p * 8 + u32 (a * coefficient) + t % 4)

-- charsiu_acc_index
unfoldable pub acc_index : Environment → ℕ → ℕ → ℕ → Bool → ℕ
unfolding acc_variant role_place plain_place acc_a_coeff
acc_index env mi ni m w4wide =
    if ltb m 2
    then ni
    else let p = m / 2 in
      let variant = acc_variant env w4wide in
      let c = ni % 32 in
      let a = c / 16 in
      let t = c % 16 in
      let group = ni / 32 * m * 32 in
      if variant == 2
      then group + role_place p (mi % p) (mi / p) a t
      else if variant == 3
      then group + role_place p (mi / 2) (mi % 2) a t
      else let b = if variant == 0 then a else 1 - a in
        group + plain_place p mi b (acc_a_coeff env).0 t

-- charsiu_acc_width_ok
unfoldable pub acc_width_ok : ℕ → Bool
acc_width_ok m = m % 2 == 0
