-- ===== src/Pool/Stage.antt =====
-- charsiu_pool_stage_all and charsiu_pool_report of src/npupool.c: what is staged at the start, and how much
-- of it is on the device.
use charsiu.Prelude.{
  Bool-cases, List, Option, Option-cases, [], arith, if◌then◌else◌, inl, inr, length, none, refl,
  some, ℕ, ◌+◌, ◌∙◌, ◌∷◌, ◌≡◌, ◌≤◌,
}
use charsiu.Pool.{Weight, Device, PoolEnvironment, Slot, Pool, pool_get, is_open}
use charsiu.Pool.Slots.{IsPool, IsPool-pool_get, cap-pool_get, IsPool-length}

-- how many slots have an id: `on`
unfoldable pub on_hardware : {S : Type 0} → List (Slot S) → ℕ
on_hardware [] = 0
on_hardware (s ∷ slots) = (elim s.id [ none ↦ 0 | some id ↦ 1 ]) + on_hardware slots

-- the loop over the weights, where `none` is a null pointer
unfoldable pub stage_each :
    {D S R O : Type 0}
    → Device D S R O
    → PoolEnvironment
    → Pool D S
    → List (Option Weight)
    → Pool D S
unfolding pool_get
stage_each ops env p [] = p
stage_each ops env p (none ∷ ws) = stage_each ops env p ws
stage_each ops env p (some w ∷ ws) = stage_each ops env (pool_get ops env p w).0 ws

-- charsiu_pool_stage_all: the pool and `staged`, or -1; the weight cache is npuquant.c's
unfoldable pub stage_all :
    {D S R O : Type 0}
    → Device D S R O
    → PoolEnvironment
    → Pool D S
    → List (Option Weight)
    → Pool D S × Option ℕ
unfolding stage_each on_hardware
stage_all ops env p ws =
    if is_open p.dev
    then (let q = stage_each ops env p ws in (q, some (on_hardware q.slots)))
    else (p, none)

on_hardware-le-length : {S : Type 0} (slots : List (Slot S)) → on_hardware slots ≤ length slots
unfolding on_hardware
on_hardware-le-length [] = omega arith
on_hardware-le-length (s ∷ slots) = elim (Option-cases s.id) [
  | inl n ↦ rw (n, on_hardware) (omega (arith, on_hardware-le-length slots))
  | inr (i, e) ↦ rw (e, on_hardware) (omega (arith, on_hardware-le-length slots))
]

IsPool-stage_each :
    {D S R O : Type 0} (ops : Device D S R O) (env : PoolEnvironment) (p : Pool D S)
    (ws : List (Option Weight))
    → IsPool p
    → IsPool (stage_each ops env p ws) × ((stage_each ops env p ws).cap ≡ p.cap)
unfolding stage_each
IsPool-stage_each ops env p [] h = (h, refl)
IsPool-stage_each ops env p (none ∷ ws) h = IsPool-stage_each ops env p ws h
IsPool-stage_each ops env p (some w ∷ ws) h =
    let (g, c) =
      IsPool-stage_each ops env (pool_get ops env p w).0 ws (IsPool-pool_get ops env p w h) in
    (g, c ∙ cap-pool_get ops env p w)

-- how many tensors a result says are on the hardware
abbrev pub staged_or_zero : Option ℕ → ℕ
staged_or_zero none = 0
staged_or_zero (some n) = n

-- Staging any list of weights, null pointers and repeated ones among them, keeps a pool to its bounds: one
-- slot for a key and no more than its capacity. What it says is on the hardware is never more than the slots
-- that the pool has, so neither more than the capacity that the pool was made with.
pub IsPool-stage_all :
    {D S R O : Type 0} (ops : Device D S R O) (env : PoolEnvironment) (p : Pool D S)
    (ws : List (Option Weight))
    → IsPool p
    → IsPool (stage_all ops env p ws).0
      × (staged_or_zero (stage_all ops env p ws).1 ≤ length (stage_all ops env p ws).0.slots)
      × (length (stage_all ops env p ws).0.slots ≤ p.cap)
unfolding stage_all
IsPool-stage_all ops env p ws h = elim (Bool-cases (is_open p.dev)) [
  | inr e ↦ rw (e, stage_all) (h, omega arith, IsPool-length p h)
  | inl e ↦
      let (g, c) = IsPool-stage_each ops env p ws h in
      let fits = IsPool-length (stage_each ops env p ws) g in
      rw (e, stage_all) (g, on_hardware-le-length (stage_each ops env p ws).slots, omega arith)
]
