-- ===== src/Fp16Plan/Regions.antt =====
-- The regions that src/fp16plan.h makes in the weight, input and output buffers.
use charsiu.Prelude.{
  List, Option-cases, [], ap, arith, false, if◌then◌else◌, inl, inr, length, length-map, map, some,
  ℕ, ◌*◌, ◌<◌, ◌==◌, ◌^◌, ◌∷◌, ◌≡◌, ◌≤◌,
}
use native.Mathlib.Nat.{mul-le-mul}
use charsiu.Matmul.{Environment, entries_per_row}
use charsiu.Matmul.Sizes.{IsModest, entries_per_row-le, weight_bytes-le}
use charsiu.Fp16Plan.{
  Op, Totals, Plan, matmul_of, refused, weight_size, input_size, output_size, up4k, place,
  place_ops, start, make_plan, group_max,
}
use charsiu.Fp16Plan.Layout.{
  Region, IsLaidOut, regions_from, end_from, AllSmall, regions_from-IsLaidOut,
}

abbrev pub weights : Plan → List Region
weights plan = map (λ p. (p.woff, p.wsz)) plan.ops

abbrev pub inputs : Plan → List Region
inputs plan = map (λ p. (p.ioff, p.isz)) plan.ops

abbrev pub outputs : Plan → List Region
outputs plan = map (λ p. (p.ooff, p.osz)) plan.ops

-- The loop hands the three buffers out in order.
record Follows (env : Environment) (t : Totals) (os : List Op) (plan : Plan) : Type 0 where
  weights_eq : weights plan ≡ regions_from t.wtot (map (weight_size env) os)
  wtot_eq : plan.totals.wtot ≡ end_from t.wtot (map (weight_size env) os)
  inputs_eq : inputs plan ≡ regions_from t.itot (map (input_size env) os)
  itot_eq : plan.totals.itot ≡ end_from t.itot (map (input_size env) os)
  outputs_eq : outputs plan ≡ regions_from t.otot (map output_size os)
  otot_eq : plan.totals.otot ≡ end_from t.otot (map output_size os)

-- a weight that is on the device takes no room
up4k-zero : (v : ℕ) → (if v == 0 then 0 else up4k v) ≡ up4k v
unfolding up4k
up4k-zero v = ground arith

pub place_ops-cons :
    (env : Environment) (t : Totals) (o : Op) (os : List Op) (plan : Plan)
    → place_ops env t (o ∷ os) ≡ some plan
    → (rest : Plan) × (refused o ≡ false)
      × (place_ops env (place env t o).1 os ≡ some rest)
      × (plan ≡ record rest { ops = (place env t o).0 ∷ rest.ops })
unfolding place_ops
place_ops-cons env t o os plan e = elim (Option-cases (place_ops env (place env t o).1 os)) [
  | inl n ↦ absurd (ground arith)
  | inr (rest, r) ↦ (rest, ground arith, r, ground arith)
]

place-Follows :
    (env : Environment) (t : Totals) (o : Op) (os : List Op) (rest : Plan)
    → Follows env (place env t o).1 os rest
    → Follows env t (o ∷ os) (record rest { ops = (place env t o).0 ∷ rest.ops })
unfolding place
place-Follows env t o os rest f = record {
  weights_eq =
      ap (◌∷◌ (t.wtot, weight_size env o)) (rw (up4k-zero (weight_size env o)) at f.weights_eq);
  wtot_eq = rw (up4k-zero (weight_size env o)) at f.wtot_eq;
  inputs_eq = ap (◌∷◌ (t.itot, input_size env o)) f.inputs_eq;
  itot_eq = f.itot_eq;
  outputs_eq = ap (◌∷◌ (t.otot, output_size o)) f.outputs_eq;
  otot_eq = f.otot_eq;
}

place_ops-Follows :
    (env : Environment) (t : Totals) (os : List Op) {plan : Plan}
    → place_ops env t os ≡ some plan
    → Follows env t os plan
unfolding place_ops
place_ops-Follows env t [] e = ground arith
place_ops-Follows env t (o ∷ os) e =
    let (rest, _, r, shape) = place_ops-cons env t o os _ e in
    let f = place_ops-Follows env (place env t o).1 os r in
    rw shape (place-Follows env t o os rest f)

-- every op is of a modest shape
abbrev pub AllModest : List Op → Type 0
AllModest [] = Unit
AllModest (o ∷ os) = IsModest (matmul_of o) × AllModest os

weights-AllSmall :
    (env : Environment) (os : List Op) → AllModest os → AllSmall (map (weight_size env) os)
unfolding weight_size
weights-AllSmall env [] v = tt
weights-AllSmall env (o ∷ os) v =
    (ground (arith, weight_bytes-le env (matmul_of o) v.0), weights-AllSmall env os v.1)

inputs-AllSmall :
    (env : Environment) (os : List Op) → AllModest os → AllSmall (map (input_size env) os)
unfolding input_size
inputs-AllSmall env [] v = tt
inputs-AllSmall env (o ∷ os) v =
    let few = entries_per_row-le env (matmul_of o) v.0.k_small in
    (
      omega (
        arith,
        mul-le-mul {n₁ = entries_per_row env (matmul_of o) * 64} {m₁ = o.m} {n₂ = 2 ^ 27}
            {m₂ = 2 ^ 20} (omega (arith, few)) v.0.m_small,
      ),
      inputs-AllSmall env os v.1,
    )

outputs-AllSmall : (os : List Op) → AllModest os → AllSmall (map output_size os)
unfolding output_size
outputs-AllSmall [] v = tt
outputs-AllSmall (o ∷ os) v = (
  omega
      (arith, mul-le-mul {n₁ = o.m} {m₁ = o.n} {n₂ = 2 ^ 20} {m₂ = 2 ^ 20} v.0.m_small v.0.n_small),
  outputs-AllSmall os v.1,
)

-- a plan is made only of 1 to 64 ops
pub make_plan_parts :
    (env : Environment) (os : List Op) {plan : Plan}
    → make_plan env os ≡ some plan
    → (0 < length os) × (length os ≤ group_max) × (place_ops env start os ≡ some plan)
unfolding make_plan
make_plan_parts env os e = ground arith

laid_out :
    (sizes : List ℕ) {rs : List Region} {total : ℕ}
    → AllSmall sizes
    → length sizes ≤ group_max
    → rs ≡ regions_from 0 sizes
    → total ≡ end_from 0 sizes
    → IsLaidOut total rs
laid_out sizes small few e f =
    rw (e, f) (regions_from-IsLaidOut 0 sizes (omega arith) (omega arith) small)

-- In a plan that is made for ops whose axes are at most 2 ^ 20, the regions of the weight buffer do not
-- overlap, each starts on a page and ends within the buffer's total; and so in the input buffer and in
-- the output buffer.
pub make_plan-IsLaidOut :
    (env : Environment) (os : List Op) {plan : Plan}
    → AllModest os
    → make_plan env os ≡ some plan
    → IsLaidOut plan.totals.wtot (weights plan)
      × IsLaidOut plan.totals.itot (inputs plan)
      × IsLaidOut plan.totals.otot (outputs plan)
make_plan-IsLaidOut env os v e =
    let (_, few, run) = make_plan_parts env os e in
    let f = place_ops-Follows env start os run in
    (
      laid_out _ (weights-AllSmall env os v) (rw length-map few) f.weights_eq f.wtot_eq,
      laid_out _ (inputs-AllSmall env os v) (rw length-map few) f.inputs_eq f.itot_eq,
      laid_out _ (outputs-AllSmall os v) (rw length-map few) f.outputs_eq f.otot_eq,
    )
