-- ===== src/Pool/Again.antt =====
-- A weight of src/npupool.c that charsiu_pool_get is asked for again.
use charsiu.Prelude.{
  List, Option, [], arith, inl, inr, length, none, refl, some, subst, sym, ℕ, ◌∷◌, ◌≡◌,
}
use charsiu.Pool.{Weight, Device, PoolEnvironment, Slot, Pool, place_on, slot_of, pool_get}
use charsiu.Pool.Slots.{
  slot_for, none≢some, pool_get-cases, pool_get-there, slot_of-append, slot_of-pool_get,
}
use charsiu.Pool.Stage.{stage_each}

-- a weight's slot is at place `i`, and it was staged from where the weight's data are
abbrev pub HasSlot : {S : Type 0} → List (Slot S) → Weight → ℕ → Slot S → Type 0
HasSlot slots w i s = (slot_of slots w.address ≡ some (i, s)) × (s.src ≡ w.data_at)

-- what a call that gives a place leaves
pool_get-HasSlot :
    {D S R O : Type 0} (ops : Device D S R O) (env : PoolEnvironment) (p : Pool D S) (w : Weight)
    (i : ℕ)
    → (pool_get ops env p w).1 ≡ some i
    → (s : Slot S) × HasSlot (pool_get ops env p w).0.slots w i s
pool_get-HasSlot {D = D} {S = S} ops env p w i h =
    let T : Pool D S × Option ℕ → Type 0 =
      λ r. r.1 ≡ some i → (s : Slot S) × HasSlot r.0.slots w i s in
    elim (pool_get-cases ops env p w) [
      | inl e ↦ subst T (sym e) (λ k. elim (none≢some k) [ ]) h
      | inr (inl (j, s, f, same, e)) ↦
          subst T (sym e) (λ k. (s, (let here : j ≡ i = ground arith in rw⁻¹ here f, same))) h
      | inr (inr (staged, f, room, e)) ↦
          let slot = slot_for w staged (place_on ops env p.dev w staged).1 in
          subst T (sym e)
            (λ k.
              let here : length p.slots ≡ i = ground arith in
              (slot, (rw⁻¹ here (slot_of-append p.slots slot w.address f refl), refl)))
            h
    ]

slot_of-stage_each :
    {D S R O : Type 0} (ops : Device D S R O) (env : PoolEnvironment) (p : Pool D S)
    (ws : List (Option Weight)) (key : ℕ) (r : ℕ × Slot S)
    → slot_of p.slots key ≡ some r
    → slot_of (stage_each ops env p ws).slots key ≡ some r
unfolding stage_each
slot_of-stage_each ops env p [] key r h = h
slot_of-stage_each ops env p (none ∷ ws) key r h = slot_of-stage_each ops env p ws key r h
slot_of-stage_each ops env p (some w ∷ ws) key r h =
    slot_of-stage_each ops env (pool_get ops env p w).0 ws key r
      (slot_of-pool_get ops env p w key r h)

-- A weight that charsiu_pool_get gives a place keeps it: after calls for any other weights, in any order, its
-- slot is at the same place with the same staged weight and the same id, and asked for it again the pool
-- gives that place and does not change, so the weight is neither built nor put on the device again.
pub pool_get-again :
    {D S R O : Type 0} (ops : Device D S R O) (env : PoolEnvironment) (p : Pool D S) (w : Weight)
    (i : ℕ) (ws : List (Option Weight))
    → (pool_get ops env p w).1 ≡ some i
    → (s : Slot S) × (slot_of (pool_get ops env p w).0.slots w.address ≡ some (i, s))
      × (slot_of (stage_each ops env (pool_get ops env p w).0 ws).slots w.address ≡ some (i, s))
      × (pool_get ops env (stage_each ops env (pool_get ops env p w).0 ws) w
          ≡ (stage_each ops env (pool_get ops env p w).0 ws, some i))
pool_get-again ops env p w i ws h =
    let (s, (there, same)) = pool_get-HasSlot ops env p w i h in
    let later = slot_of-stage_each ops env (pool_get ops env p w).0 ws w.address (i, s) there in
    (
      s,
      there,
      later,
      pool_get-there ops env (stage_each ops env (pool_get ops env p w).0 ws) w i s later same,
    )
