-- ===== src/Pool/Slots.antt =====
-- The slots of the pool of src/npupool.c under charsiu_pool_get.
use charsiu.Prelude.{
  Bool-cases, List, Option, Option-cases, [], arith, false, inl, inr, length, length-append, none,
  refl, some, subst, suc, sym, true, ℕ, ℕ_discrete, ◌++◌, ◌==◌, ◌∙◌, ◌∷◌, ◌≡◌, ◌≢◌, ◌≤◌, ◌⊎◌,
}
use charsiu.Pool.{Weight, Device, PoolEnvironment, Slot, Pool, place_on, slot_of, stage, pool_get}

pub none≢some : {A : Type 0} {a : A} → none ≡ some a → ⊥
none≢some h = grind arith

-- no two slots have one key
Distinct : {S : Type 0} → List (Slot S) → Type 0
Distinct [] = Unit
Distinct (s ∷ slots) = (slot_of slots s.key ≡ none) × Distinct slots

-- the pool keeps to its bounds
pub IsPool : {D S : Type 0} → Pool D S → Type 0
unfolding Distinct
IsPool p = Distinct p.slots × (length p.slots ≤ p.cap)

-- the slot of a weight
abbrev pub slot_for : {S : Type 0} → Weight → S → Option ℕ → Slot S
slot_for w staged id = record { key = w.address; src = w.data_at; staged = staged; id = id }

slot_of-other :
    {S : Type 0} (s : Slot S) (slots : List (Slot S)) (key : ℕ)
    → slot_of (s ∷ slots) key ≡ none
    → (s.key ≢ key) × (slot_of slots key ≡ none)
unfolding slot_of
slot_of-other s slots key h = elim (ℕ_discrete s.key key) [
  | yes e ↦
      let t : (s.key == key) ≡ true = ground arith in
      let found : slot_of (s ∷ slots) key ≡ some (0, s) = rw t refl in
      elim (none≢some (sym h ∙ found)) [ ]
  | no e ↦ elim (Option-cases (slot_of slots key)) [
    | inl n ↦ (e, n)
    | inr ((i, t), f) ↦
        let b : (s.key == key) ≡ false = ground arith in
        let found : slot_of (s ∷ slots) key ≡ some (suc i, t) = rw (b, f) refl in
        elim (none≢some (sym h ∙ found)) [ ]
  ]
]

pub slot_of-append :
    {S : Type 0} (slots : List (Slot S)) (s : Slot S) (key : ℕ)
    → slot_of slots key ≡ none
    → s.key ≡ key
    → slot_of (slots ++ s ∷ []) key ≡ some (length slots, s)
unfolding slot_of
slot_of-append [] s key h e = let t : (s.key == key) ≡ true = ground arith in rw t refl
slot_of-append (x ∷ slots) s key h e =
    let (other, rest) = slot_of-other x slots key h in
    let t : (x.key == key) ≡ false = ground arith in rw (t, slot_of-append slots s key rest e) refl

slot_of-append_other :
    {S : Type 0} (slots : List (Slot S)) (s : Slot S) (key : ℕ)
    → slot_of slots key ≡ none
    → s.key ≢ key
    → slot_of (slots ++ s ∷ []) key ≡ none
unfolding slot_of
slot_of-append_other [] s key h e = let t : (s.key == key) ≡ false = ground arith in rw t refl
slot_of-append_other (x ∷ slots) s key h e =
    let (other, rest) = slot_of-other x slots key h in
    let t : (x.key == key) ≡ false = ground arith in
    rw (t, slot_of-append_other slots s key rest e) refl

Distinct-append :
    {S : Type 0} (slots : List (Slot S)) (s : Slot S)
    → Distinct slots
    → slot_of slots s.key ≡ none
    → Distinct (slots ++ s ∷ [])
unfolding Distinct slot_of
Distinct-append [] s d h = (refl, tt)
Distinct-append (x ∷ slots) s (own, d) h =
    let (other, rest) = slot_of-other x slots s.key h in
    (slot_of-append_other slots s x.key own (λ e. other (sym e)), Distinct-append slots s d rest)

-- the three ways in which pool_get ends: nothing happens, a slot is there, or there is a new one
pub pool_get-cases :
    {D S R O : Type 0} (ops : Device D S R O) (env : PoolEnvironment) (p : Pool D S) (w : Weight)
    → (pool_get ops env p w ≡ (p, none))
      ⊎ (((i : ℕ) × (s : Slot S) × (slot_of p.slots w.address ≡ some (i, s))
            × (s.src ≡ w.data_at)
            × (pool_get ops env p w ≡ (p, some i)))
          ⊎ ((staged : S) × (slot_of p.slots w.address ≡ none)
              × (length p.slots ≢ p.cap)
              × (pool_get ops env p w ≡ (
                record p {
                  slots = p.slots ++ slot_for w staged (place_on ops env p.dev w staged).1 ∷ [];
                  dev = (place_on ops env p.dev w staged).0;
                },
                some (length p.slots),
              ))))
unfolding pool_get stage
pool_get-cases ops env p w = elim (Option-cases (slot_of p.slots w.address)) [
  | inr ((i, s), f) ↦ elim (ℕ_discrete s.src w.data_at) [
    | yes e ↦
        let t : (s.src == w.data_at) ≡ true = ground arith in
        inr (inl (i, s, f, e, rw (f, pool_get) (rw (t, pool_get) refl)))
    | no e ↦
        let t : (s.src == w.data_at) ≡ false = ground arith in
        inl (rw (f, pool_get) (rw (t, pool_get) refl))
  ]
  | inl f ↦ elim (ℕ_discrete (length p.slots) p.cap) [
    | yes e ↦
        let t : (length p.slots == p.cap) ≡ true = ground arith in
        inl (rw (f, pool_get) (rw (t, stage) refl))
    | no e ↦
        let t : (length p.slots == p.cap) ≡ false = ground arith in
        elim (Option-cases (ops.build w)) [
          | inl n ↦ inl (rw (f, pool_get) (rw (t, n, stage) refl))
          | inr (staged, b) ↦ inr (inr (staged, f, e, rw (f, pool_get) (rw (t, b, stage) refl)))
        ]
  ]
]

pub pool_get-there :
    {D S R O : Type 0} (ops : Device D S R O) (env : PoolEnvironment) (p : Pool D S) (w : Weight)
    (i : ℕ) (s : Slot S)
    → slot_of p.slots w.address ≡ some (i, s)
    → s.src ≡ w.data_at
    → pool_get ops env p w ≡ (p, some i)
unfolding pool_get
pool_get-there ops env p w i s f e =
    let t : (s.src == w.data_at) ≡ true = ground arith in rw (f, pool_get) (rw (t, pool_get) refl)

slot_of-append_kept :
    {S : Type 0} (slots more : List (Slot S)) (key : ℕ) (r : ℕ × Slot S)
    → slot_of slots key ≡ some r
    → slot_of (slots ++ more) key ≡ some r
unfolding slot_of
slot_of-append_kept [] more key r h = elim (none≢some h) [ ]
slot_of-append_kept (x ∷ slots) more key r h = elim (Bool-cases (x.key == key)) [
  | inl e ↦ let found : slot_of (x ∷ slots) key ≡ some (0, x) = rw e refl in rw e (sym found ∙ h)
  | inr e ↦ elim (Option-cases (slot_of slots key)) [
    | inl n ↦
        let found : slot_of (x ∷ slots) key ≡ none = rw (e, n) refl in
        elim (none≢some (sym found ∙ h)) [ ]
    | inr ((i, t), f) ↦
        let found : slot_of (x ∷ slots) key ≡ some (suc i, t) = rw (e, f) refl in
        rw (e, slot_of-append_kept slots more key (i, t) f) (sym found ∙ h)
  ]
]

pub IsPool-pool_get :
    {D S R O : Type 0} (ops : Device D S R O) (env : PoolEnvironment) (p : Pool D S) (w : Weight)
    → IsPool p
    → IsPool (pool_get ops env p w).0
unfolding IsPool
IsPool-pool_get {D = D} {S = S} ops env p w (d, b) =
    let T : Pool D S × Option ℕ → Type 0 = λ q. IsPool q.0 in
    elim (pool_get-cases ops env p w) [
      | inl e ↦ subst T (sym e) (d, b)
      | inr (inl (j, s, f, same, e)) ↦ subst T (sym e) (d, b)
      | inr (inr (staged, f, room, e)) ↦
          let slot = slot_for w staged (place_on ops env p.dev w staged).1 in
          let more = length-append p.slots (slot ∷ []) in
          subst T (sym e) (Distinct-append p.slots slot d f, omega arith)
    ]

-- charsiu_pool_get leaves a slot that is there in its place, with what it holds, whatever weight it is called
-- for: what the earlier calls gave stays good.
pub slot_of-pool_get :
    {D S R O : Type 0} (ops : Device D S R O) (env : PoolEnvironment) (p : Pool D S) (w : Weight)
    (key : ℕ) (r : ℕ × Slot S)
    → slot_of p.slots key ≡ some r
    → slot_of (pool_get ops env p w).0.slots key ≡ some r
slot_of-pool_get {D = D} {S = S} ops env p w key r h =
    let T : Pool D S × Option ℕ → Type 0 = λ q. slot_of q.0.slots key ≡ some r in
    elim (pool_get-cases ops env p w) [
      | inl e ↦ subst T (sym e) h
      | inr (inl (j, s, f, same, e)) ↦ subst T (sym e) h
      | inr (inr (staged, f, room, e)) ↦ subst T (sym e) (
          slot_of-append_kept p.slots (slot_for w staged (place_on ops env p.dev w staged).1 ∷ [])
            key r h)
    ]

pub cap-pool_get :
    {D S R O : Type 0} (ops : Device D S R O) (env : PoolEnvironment) (p : Pool D S) (w : Weight)
    → (pool_get ops env p w).0.cap ≡ p.cap
cap-pool_get {D = D} {S = S} ops env p w =
    let T : Pool D S × Option ℕ → Type 0 = λ q. q.0.cap ≡ p.cap in
    elim (pool_get-cases ops env p w) [
      | inl e ↦ subst T (sym e) refl
      | inr (inl (j, s, f, same, e)) ↦ subst T (sym e) refl
      | inr (inr (staged, f, room, e)) ↦ subst T (sym e) refl
    ]

pub IsPool-length : {D S : Type 0} (p : Pool D S) → IsPool p → length p.slots ≤ p.cap
unfolding IsPool
IsPool-length p h = h.1

-- an empty pool keeps to its bounds
pub IsPool-empty : {D S : Type 0} (p : Pool D S) → p.slots ≡ [] → IsPool p
unfolding IsPool Distinct
IsPool-empty {S = S} p e =
    subst (λ (l : List (Slot S)). Distinct l × (length l ≤ p.cap)) (sym e) (tt, omega arith)
