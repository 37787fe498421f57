-- ===== src/Fp16Plan/Coefs.antt =====
-- The coefficient regions of src/fp16plan.h: one for each distinct pair of channel count and size.
use charsiu.Prelude.{List, Option-cases, [], arith, inl, inr, none, refl, some, ℕ, ◌++◌, ◌∷◌, ◌≡◌}
use charsiu.Matmul.{Environment}
use charsiu.Fp16Plan.{
  Op, Placed, Coef, Totals, Plan, coef_size, find_coef, take_coef, place, place_ops,
}
use charsiu.Fp16Plan.Regions.{place_ops-cons}

-- An op's region, once taken, is found under the op's pair for ever after.
find_coef-append :
    (n size off : ℕ) (cs ds : List Coef)
    → find_coef n size cs ≡ some off
    → find_coef n size (cs ++ ds) ≡ some off
unfolding find_coef
find_coef-append n size off [] ds h = cc
find_coef-append n size off (c ∷ cs) ds h = ground (arith, find_coef-append n size off cs ds)

find_coef-new :
    (n size off : ℕ) (cs : List Coef)
    → find_coef n size cs ≡ none
    → find_coef n size (cs ++ record { n = n; size = size; off = off } ∷ []) ≡ some off
unfolding find_coef
find_coef-new n size off [] h = ground arith
find_coef-new n size off (c ∷ cs) h = ground (arith, find_coef-new n size off cs)

-- what an op takes is found afterwards, and nothing that was found is lost
take_coef-found :
    (n size ctot : ℕ) (cs : List Coef)
    → let (off, _, cs') = take_coef n size ctot cs in
      (find_coef n size cs' ≡ some off)
      × ((n' size' off' : ℕ)
          → find_coef n' size' cs ≡ some off'
          → find_coef n' size' cs' ≡ some off')
unfolding take_coef
take_coef-found n size ctot cs = elim (Option-cases (find_coef n size cs)) [
  | inl e ↦
      rw (e, take_coef)
        (find_coef-new n size ctot cs e, λ n' size' off' h. find_coef-append n' size' off' cs _ h)
  | inr (off, e) ↦ rw (e, take_coef) (e, λ n' size' off' h. h)
]

-- the region of each op is the one that the finished plan holds for the op's pair
abbrev pub CoefsFound : Environment → List Coef → List Op → List Placed → Type 0
CoefsFound env cs [] [] = Unit
CoefsFound env cs [] (p ∷ ps) = ⊥
CoefsFound env cs (o ∷ os) [] = ⊥
CoefsFound env cs (o ∷ os) (p ∷ ps) =
    (p.csz ≡ coef_size env o)
    × (find_coef o.n (coef_size env o) cs ≡ some p.coff)
    × CoefsFound env cs os ps

-- everything that is found before the loop is found after it
abbrev Kept : List Coef → List Coef → Type 0
Kept cs ds = (n size off : ℕ) → find_coef n size cs ≡ some off → find_coef n size ds ≡ some off

place-found :
    (env : Environment) (t : Totals) (o : Op)
    → let (p, t') = place env t o in
      (p.csz ≡ coef_size env o)
      × (find_coef o.n (coef_size env o) t'.coefs ≡ some p.coff)
      × Kept t.coefs t'.coefs
unfolding place
place-found env t o =
    let (found, kept) = take_coef-found o.n (coef_size env o) t.ctot t.coefs in (refl, found, kept)

pub place_ops-found :
    (env : Environment) (t : Totals) (os : List Op) (plan : Plan)
    → place_ops env t os ≡ some plan
    → CoefsFound env plan.totals.coefs os plan.ops × Kept t.coefs plan.totals.coefs
unfolding place_ops
place_ops-found env t [] plan e =
    let done : record { ops = []; totals = t } ≡ plan = cc in rw (← done) (tt, λ n size off h. h)
place_ops-found env t (o ∷ os) plan e =
    let (rest, _, run, shape) = place_ops-cons env t o os plan e in
    let (size_eq, here, kept) = place-found env t o in
    let (found, later) = place_ops-found env (place env t o).1 os rest run in
    rw shape
      ((size_eq, later _ _ _ here, found), λ n size off h. later n size off (kept n size off h))
