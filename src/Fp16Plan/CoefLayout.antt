-- ===== src/Fp16Plan/CoefLayout.antt =====
-- How the coefficient regions of src/fp16plan.h lie.
use charsiu.Prelude.{
  List, Option-cases, [], ap, arith, inl, inr, length, length-append, length-map, map, map-append,
  refl, some, suc, u64, ℕ, ◌++◌, ◌+◌, ◌^◌, ◌∷◌, ◌≡◌, ◌≤◌,
}
use charsiu.Matmul.{Environment}
use charsiu.Matmul.Sizes.{coef_bytes-le}
use charsiu.Fp16Plan.{
  Op, Coef, Totals, Plan, matmul_of, coef_size, find_coef, take_coef, up4k, place, place_ops, start,
  make_plan,
}
use charsiu.Fp16Plan.Layout.{
  Region, IsLaidOut, regions_from, end_from, AllSmall, regions_from-IsLaidOut,
}
use charsiu.Fp16Plan.Regions.{place_ops-cons, make_plan_parts, AllModest}
use charsiu.Fp16Plan.Coefs.{CoefsFound, place_ops-found}

regions_from-append :
    (at : ℕ) (xs : List ℕ) (s : ℕ)
    → regions_from at (xs ++ s ∷ []) ≡ regions_from at xs ++ (end_from at xs, s) ∷ []
regions_from-append at [] s = refl
regions_from-append at (x ∷ xs) s = ap (◌∷◌ (at, x)) (regions_from-append (u64 (at + up4k x)) xs s)

end_from-append :
    (at : ℕ) (xs : List ℕ) (s : ℕ) → end_from at (xs ++ s ∷ []) ≡ u64 (end_from at xs + up4k s)
end_from-append at [] s = refl
end_from-append at (x ∷ xs) s = end_from-append (u64 (at + up4k x)) xs s

AllSmall-append : (xs : List ℕ) (s : ℕ) → AllSmall xs → s ≤ 2 ^ 48 → AllSmall (xs ++ s ∷ [])
AllSmall-append [] s small h = (h, tt)
AllSmall-append (x ∷ xs) s small h = (small.0, AllSmall-append xs s small.1 h)

abbrev pub coef_regions : List Coef → List Region
coef_regions cs = map (λ c. (c.off, c.size)) cs

abbrev coef_sizes : List Coef → List ℕ
coef_sizes cs = map (λ c. c.size) cs

-- the regions made so far, at most `count` of them, were handed out in order
record IsPaged (count ctot : ℕ) (cs : List Coef) : Type 0 where
  regions_eq : coef_regions cs ≡ regions_from 0 (coef_sizes cs)
  end_eq : ctot ≡ end_from 0 (coef_sizes cs)
  few : length cs ≤ count
  small : AllSmall (coef_sizes cs)

take_coef-IsPaged :
    (n size count ctot : ℕ) (cs : List Coef)
    → size ≤ 2 ^ 48
    → IsPaged count ctot cs
    → let (_, ctot', cs') = take_coef n size ctot cs in IsPaged (count + 1) ctot' cs'
unfolding take_coef
take_coef-IsPaged n size count ctot cs h v = elim (Option-cases (find_coef n size cs)) [
  | inr (off, e) ↦
      rw (e, take_coef)
        (record {
          regions_eq = v.regions_eq;
          end_eq = v.end_eq;
          few = omega arith;
          small = v.small;
        })
  | inl e ↦
      rw (e, take_coef)
        (record {
          regions_eq = rw (map-append, map-append, regions_from-append, v.regions_eq, v.end_eq);
          end_eq = rw (map-append, end_from-append, v.end_eq);
          few = omega (arith, length-append cs (record { n = n; size = size; off = ctot } ∷ []));
          small = rw map-append (AllSmall-append (coef_sizes cs) size v.small h);
        })
]

-- CHARSIU_COEF_ELEMS asks for at most 2 ^ 40 elements, if it is set
abbrev pub AsksLittle : Environment → Type 0
AsksLittle env = (want : ℕ) → env.coef_elems ≡ some want → want ≤ 2 ^ 40

coef_size-small :
    (env : Environment) (o : Op) → AsksLittle env → AllModest (o ∷ []) → coef_size env o ≤ 2 ^ 48
unfolding coef_size
coef_size-small env o asked v = omega (arith, coef_bytes-le env (matmul_of o) v.0 asked)

place-IsPaged :
    (env : Environment) (t : Totals) (o : Op) (count : ℕ)
    → coef_size env o ≤ 2 ^ 48
    → IsPaged count t.ctot t.coefs
    → let (_, t') = place env t o in IsPaged (count + 1) t'.ctot t'.coefs
unfolding place
place-IsPaged env t o count h v = take_coef-IsPaged o.n (coef_size env o) count t.ctot t.coefs h v

place_ops-IsPaged :
    (env : Environment) (t : Totals) (os : List Op) (plan : Plan) (count : ℕ)
    → AsksLittle env
    → AllModest os
    → IsPaged count t.ctot t.coefs
    → place_ops env t os ≡ some plan
    → IsPaged (count + length os) plan.totals.ctot plan.totals.coefs
unfolding place_ops
place_ops-IsPaged env t [] plan count asked m v e =
    let done : record { ops = []; totals = t } ≡ plan = cc in
    let same : count + 0 ≡ count = omega arith in rw (← done) (rw same v)
place_ops-IsPaged env t (o ∷ os) plan count asked m v e =
    let (rest, _, run, shape) = place_ops-cons env t o os plan e in
    let next = place-IsPaged env t o count (coef_size-small env o asked (m.0, tt)) v in
    let same : count + suc (length os) ≡ count + 1 + length os = omega arith in
    rw (shape, same)
      (place_ops-IsPaged env (place env t o).1 os rest (count + 1) asked m.1 next run)

-- In a plan that is made for ops whose axes are at most 2 ^ 20, with CHARSIU_COEF_ELEMS not set or at most
-- 2 ^ 40, each op has the coefficient region that
-- the plan holds for the op's channel count and size, so ops alike in both share one; and the distinct
-- regions do not overlap, start on pages and end within the buffer's total.
pub make_plan-coefs :
    (env : Environment) (os : List Op) {plan : Plan}
    → AsksLittle env
    → AllModest os
    → make_plan env os ≡ some plan
    → CoefsFound env plan.totals.coefs os plan.ops
      × IsLaidOut plan.totals.ctot (coef_regions plan.totals.coefs)
make_plan-coefs env os {plan} asked m e =
    let (_, few, run) = make_plan_parts env os e in
    let fresh : IsPaged 0 0 [] = record {
      regions_eq = refl;
      end_eq = refl;
      few = omega arith;
      small = tt;
    } in
    let v = place_ops-IsPaged env start os plan 0 asked m fresh run in
    (
      (place_ops-found env start os plan run).0,
      rw (v.regions_eq, v.end_eq)
          (regions_from-IsLaidOut 0 _ (omega arith) (rw length-map (omega (arith, v.few))) v.small),
    )
