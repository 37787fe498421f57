-- ===== src/Stream/Vendor/Replayed.antt =====
-- The geometry of the captured stream under emit_vendor_stream of src/job.c.
use charsiu.Prelude.{
  Bool, Bool-cases, List, Option-cases, [], ap, arith, false, if◌then◌else◌, inl, inr, leb, length,
  length-append, length-map, length-take, map, max, min, none, not, refl, suc, take, true, zero, ℕ,
  ℕ_discrete, ◌&&◌, ◌++◌, ◌+◌, ◌-◌, ◌<◌, ◌==◌, ◌∙◌, ◌∷◌, ◌≡◌, ◌≤◌,
}
use charsiu.Stream.{cna, core, dpu, word}
use charsiu.Stream.Job.{Job}
use charsiu.Stream.Vendor.{
  reg_of, val_of, is_address, address_for, patch_addr, emit_vendor_stream, last_value,
  vendor_stream_shape,
}

reg_of-patch_addr : (job : Job) (w : ℕ) → reg_of (patch_addr job w) ≡ reg_of w
unfolding patch_addr
reg_of-patch_addr job w = elim (Option-cases (address_for job (reg_of w))) [
  | inl n ↦ rw (n, patch_addr) refl
  | inr (v, e) ↦ rw (e, patch_addr) (omega arith)
]

address_for-none : (job : Job) (reg : ℕ) → is_address reg ≡ false → address_for job reg ≡ none
unfolding is_address
address_for-none job reg h = ground arith

patch_addr-same : (job : Job) (w : ℕ) → is_address (reg_of w) ≡ false → patch_addr job w ≡ w
unfolding patch_addr
patch_addr-same job w h = rw (address_for-none job (reg_of w) h, patch_addr) refl

last_value-map :
    (job : Job) (ws : List ℕ) (reg v : ℕ)
    → is_address reg ≡ false
    → last_value (map (patch_addr job) ws) reg v ≡ last_value ws reg v
unfolding last_value
last_value-map job [] reg v h = refl
last_value-map job (w ∷ ws) reg v h =
    let same = reg_of-patch_addr job w in
    let now : (if reg_of (patch_addr job w) == reg then val_of (patch_addr job w) else v)
        ≡ (if reg_of w == reg then val_of w else v) =
      elim (ℕ_discrete (reg_of w) reg) [
        | yes e ↦
            ap (λ (x : ℕ). if reg_of x == reg then val_of x else v) (patch_addr-same job w (rw e h))
        | no e ↦ ground arith
      ] in
    ap (λ (x : ℕ). last_value (map (patch_addr job) ws) reg x) now ∙ last_value-map job ws reg _ h

last_value-append :
    (xs ys : List ℕ) (reg v : ℕ)
    → last_value (xs ++ ys) reg v ≡ last_value ys reg (last_value xs reg v)
unfolding last_value
last_value-append [] ys reg v = refl
last_value-append (x ∷ xs) ys reg v = last_value-append xs ys reg _

take-map : {A B : Type 0} (f : A → B) (n : ℕ) (xs : List A) → take n (map f xs) ≡ map f (take n xs)
take-map f zero xs = refl
take-map f (suc n) [] = refl
take-map {B = B} f (suc n) (x ∷ xs) = ap (λ (r : List B). f x ∷ r) (take-map f n xs)

take-take : {A : Type 0} (n m : ℕ) (xs : List A) → n ≤ m → take n (take m xs) ≡ take n xs
take-take zero m xs h = refl
take-take (suc n) zero xs h = grind arith
take-take (suc n) (suc m) [] h = refl
take-take {A = A} (suc n) (suc m) (x ∷ xs) h =
    ap (λ (r : List A). x ∷ r) (take-take n m xs (omega arith))

take-append :
    {A : Type 0} (n : ℕ) (xs ys : List A) → take n (xs ++ ys) ≡ take n xs ++ take (n - length xs) ys
take-append {A = A} zero xs ys = let e : 0 - length xs ≡ 0 = omega arith in rw e refl
take-append {A = A} (suc n) [] ys = let e : suc n - 0 ≡ suc n = omega arith in rw e refl
take-append {A = A} (suc n) (x ∷ xs) ys =
    ap (λ (r : List A). x ∷ r)
      (let e : suc n - suc (length xs) ≡ n - length xs = omega arith in rw e (take-append n xs ys))

-- none of the words is of the register
lacks : List ℕ → ℕ → Bool
lacks [] reg = true
lacks (w ∷ ws) reg = not (reg_of w == reg) && lacks ws reg

last_value-take :
    (n : ℕ) (ws : List ℕ) (reg v : ℕ) → lacks ws reg ≡ true → last_value (take n ws) reg v ≡ v
unfolding last_value lacks
last_value-take zero ws reg v h = refl
last_value-take (suc n) [] reg v h = refl
last_value-take (suc n) (w ∷ ws) reg v h =
    let other : (reg_of w == reg) ≡ false = ground arith in
    rw (other, last_value) (last_value-take n ws reg v (ground arith))

trailer : List ℕ
trailer = word cna 0x1008 0x1d ∷ word core 0x3008 0x1d ∷ word dpu 0x4008 0x1d ∷ []

replay_short :
    (job : Job) (file : List ℕ) (max reg v : ℕ)
    → 512 ≤ max
    → is_address reg ≡ false
    → last_value (take 512 (map (patch_addr job) (take max file))) reg v
      ≡ last_value (take 512 file) reg v
replay_short job file max reg v big h =
    ap (λ (r : List ℕ). last_value r reg v)
      (take-map (patch_addr job) 512 (take max file)
        ∙ ap (map (patch_addr job)) (take-take 512 max file big))
    ∙ last_value-map job (take 512 file) reg v h

replay_value :
    (job : Job) (file : List ℕ) (max reg v : ℕ)
    → 512 ≤ max
    → is_address reg ≡ false
    → lacks trailer reg ≡ true
    → last_value (take 512 (map (patch_addr job) (take max file) ++ trailer)) reg v
      ≡ last_value (take 512 file) reg v
replay_value job file max reg v big h t =
    ap (λ (r : List ℕ). last_value r reg v)
      (take-append 512 (map (patch_addr job) (take max file)) trailer)
    ∙ last_value-append (take 512 (map (patch_addr job) (take max file)))
        (take (512 - length (map (patch_addr job) (take max file))) trailer) reg v
    ∙ last_value-take (512 - length (map (patch_addr job) (take max file))) trailer reg _ t
    ∙ replay_short job file max reg v big h

-- two files of one geometry: both or neither have words, and the three values agree
vendor_stream_shape-cong :
    (xs ys : List ℕ)
    → (length (take 512 xs) == 0) ≡ (length (take 512 ys) == 0)
    → ((reg : ℕ)
        → is_address reg ≡ false
        → lacks trailer reg ≡ true
        → last_value (take 512 xs) reg 0 ≡ last_value (take 512 ys) reg 0)
    → vendor_stream_shape xs ≡ vendor_stream_shape ys
unfolding vendor_stream_shape is_address lacks trailer word
vendor_stream_shape-cong xs ys z h =
    let k = h 0x1028 refl refl in
    let n = h 0x1024 refl refl in let w = h 0x101c refl refl in rw (z, k, n, w) refl

not_first : (a b t : Bool) → (t && not a && b) ≡ true → a ≡ false
not_first a b t h = ground arith

same_zero : (a b : ℕ) → (a ≡ 0 → b ≡ 0) → (b ≡ 0 → a ≡ 0) → (a == 0) ≡ (b == 0)
same_zero a b f g = elim (ℕ_discrete a 0) [
  | yes p ↦ let q = f p in ground arith
  | no p ↦ elim (ℕ_discrete b 0) [ yes q ↦ let r = g q in ground arith | no q ↦ ground arith ]
]

got_length :
    (job : Job) (file : List ℕ) (max : ℕ)
    → length (map (patch_addr job) (take max file)) ≡ min max (length file)
got_length job file max = length-map (take max file) (patch_addr job) ∙ length-take max file

-- The stream that is replayed, with the three addresses of the job in it and with or without the trailer,
-- has the geometry of the captured one, by which the caller sizes its buffers, where the buffer for it has
-- at least the 512 words that are looked at. A file that is empty has no geometry, and neither has
-- its replay.
pub vendor_stream_shape-emit_vendor_stream :
    (job : Job) (trailing : Bool) (file : List ℕ) (max : ℕ)
    → 512 ≤ max
    → vendor_stream_shape (emit_vendor_stream job trailing file max) ≡ vendor_stream_shape file
unfolding emit_vendor_stream trailer
vendor_stream_shape-emit_vendor_stream job trailing file max big =
    let got = map (patch_addr job) (take max file) in
    let long = got_length job file max in
    let here = length-take 512 got in
    let there = length-take 512 file in
    elim (Bool-cases (trailing && not (length got == 0) && leb (length got + 3) max)) [
      | inl y ↦
          let all = length-take 512 (got ++ trailer) in
          let more = length-append got trailer in
          let some_got : (length got == 0) ≡ false =
            not_first (length got == 0) (leb (length got + 3) max) trailing y in
          let nonempty : 0 < length got = ground arith in
          rw y (
            vendor_stream_shape-cong (got ++ trailer) file
              (same_zero _ _ (λ e. omega arith) (λ e. omega arith))
              (λ reg a t. replay_value job file max reg 0 big a t))
      | inr n ↦ rw n (
          vendor_stream_shape-cong got file (same_zero _ _ (λ e. omega arith) (λ e. omega arith))
            (λ reg a t. replay_short job file max reg 0 big a))
    ]
