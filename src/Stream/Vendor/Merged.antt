-- ===== src/Stream/Vendor/Merged.antt =====
-- What merge_vendor_values of src/job.c keeps of the stream that it changes.
use charsiu.Prelude.{
  Bool-cases, List, Option, Option-cases, [], ap, arith, drop, false, if◌then◌else◌, inl, inr, leb,
  length, length-append, length-drop, length-map, length-take, map, max, none, not, refl, some, suc,
  sym, take, take-append-drop, true, zero, ℕ, ℕ_discrete, ◌++◌, ◌+◌, ◌-◌, ◌<◌, ◌==◌, ◌||◌, ◌∙◌, ◌∷◌,
  ◌≡◌, ◌≤◌,
}
use charsiu.Stream.Vendor.{
  reg_of, is_address, is_unit_of, Merge, trailer_at, replace_first, insert_at, merge_word,
  merge_words, merge_vendor_values,
}

-- the words of the three addresses
unfoldable pub addresses : List ℕ → List ℕ
unfolding is_address
addresses [] = []
addresses (w ∷ ws) = let rest = addresses ws in if is_address (reg_of w) then w ∷ rest else rest

abbrev pub registers : List ℕ → List ℕ
registers ws = map (λ (w : ℕ). reg_of w) ws

-- the stream after replace_first
abbrev or_same : Option (List ℕ) → List ℕ → List ℕ
or_same none out = out
or_same (some o) out = o

addresses_yes :
    (w : ℕ) (ws : List ℕ) → is_address (reg_of w) ≡ true → addresses (w ∷ ws) ≡ w ∷ addresses ws
unfolding addresses
addresses_yes w ws y = rw y refl

addresses_no :
    (w : ℕ) (ws : List ℕ) → is_address (reg_of w) ≡ false → addresses (w ∷ ws) ≡ addresses ws
unfolding addresses
addresses_no w ws n = rw n refl

addresses-cong :
    (w : ℕ) (xs ys : List ℕ) → addresses xs ≡ addresses ys → addresses (w ∷ xs) ≡ addresses (w ∷ ys)
unfolding addresses
addresses-cong w xs ys e = rw e refl

replaced_addresses :
    (out : List ℕ) (v : ℕ)
    → is_address (reg_of v) ≡ false
    → addresses (or_same (replace_first out v) out) ≡ addresses out
unfolding replace_first
replaced_addresses [] v a = refl
replaced_addresses (w ∷ ws) v a = elim (ℕ_discrete (reg_of w) (reg_of v)) [
  | yes e ↦
      let same : (reg_of w == reg_of v) ≡ true = ground arith in
      rw same (addresses_no v ws a ∙ sym (addresses_no w ws (rw e a)))
  | no e ↦
      let other : (reg_of w == reg_of v) ≡ false = ground arith in
      let later = replaced_addresses ws v a in
      elim (Option-cases (replace_first ws v)) [
        | inl n ↦ rw (other, n) refl
        | inr (o, s) ↦
            rw (other, s)
              (addresses-cong w o ws
                (ap (λ (r : Option (List ℕ)). addresses (or_same r ws)) (sym s) ∙ later))
      ]
]

replaced_registers :
    (out : List ℕ) (v : ℕ) → registers (or_same (replace_first out v) out) ≡ registers out
unfolding replace_first
replaced_registers [] v = refl
replaced_registers (w ∷ ws) v = elim (ℕ_discrete (reg_of w) (reg_of v)) [
  | yes e ↦
      let same : (reg_of w == reg_of v) ≡ true = ground arith in
      rw same (ap (λ (r : ℕ). r ∷ registers ws) (sym e))
  | no e ↦
      let other : (reg_of w == reg_of v) ≡ false = ground arith in
      let later = replaced_registers ws v in
      elim (Option-cases (replace_first ws v)) [
        | inl n ↦ rw (other, n) refl
        | inr (o, s) ↦
            rw (other, s)
              (ap (λ (r : List ℕ). reg_of w ∷ r)
                (ap (λ (r : Option (List ℕ)). registers (or_same r ws)) (sym s) ∙ later))
      ]
]

addresses-append : (xs ys : List ℕ) → addresses (xs ++ ys) ≡ addresses xs ++ addresses ys
unfolding addresses
addresses-append [] ys = refl
addresses-append (x ∷ xs) ys = elim (Bool-cases (is_address (reg_of x))) [
  | inl y ↦ rw (y, addresses-append xs ys) refl
  | inr n ↦ rw (n, addresses-append xs ys) refl
]

addresses-insert_at :
    (out : List ℕ) (at v : ℕ)
    → is_address (reg_of v) ≡ false
    → addresses (insert_at out at v) ≡ addresses out
addresses-insert_at out at v a =
    addresses-append (take at out) (v ∷ drop at out)
    ∙ ap (λ (r : List ℕ). addresses (take at out) ++ r) (addresses_no v (drop at out) a)
    ∙ sym (addresses-append (take at out) (drop at out))
    ∙ ap addresses (take-append-drop at out)

length-insert_at : (out : List ℕ) (at v : ℕ) → length (insert_at out at v) ≡ length out + 1
length-insert_at out at v =
    omega
      (arith, length-append (take at out) (v ∷ drop at out), length-take at out, length-drop at out)

drop_after :
    {A : Type 0} (at : ℕ) (xs : List A) (v : A) (ys : List A)
    → at ≤ length xs
    → drop (suc at) (take at xs ++ v ∷ ys) ≡ ys
drop_after zero xs v ys h = refl
drop_after (suc at) [] v ys h = grind arith
drop_after (suc at) (x ∷ xs) v ys h = drop_after at xs v ys (omega arith)

map-drop : {A B : Type 0} (f : A → B) (n : ℕ) (xs : List A) → map f (drop n xs) ≡ drop n (map f xs)
map-drop f zero xs = refl
map-drop f (suc n) [] = refl
map-drop f (suc n) (x ∷ xs) = map-drop f n xs

-- what one state of the merge keeps of an earlier one
Kept : ℕ → Merge → Merge → Type 0
Kept m s t =
    (addresses t.out ≡ addresses s.out)
    × (registers (drop t.at t.out) ≡ registers (drop s.at s.out))
    × (t.at + length s.out ≡ length t.out + s.at)
    × (length s.out ≤ length t.out)
    × (length t.out ≤ max m (length s.out))

Kept-same : (m : ℕ) (s : Merge) → Kept m s s
unfolding Kept
Kept-same m s = (refl, refl, omega arith, omega arith, omega arith)

Kept-trans : (m : ℕ) (s t u : Merge) → Kept m s t → Kept m t u → Kept m s u
unfolding Kept
Kept-trans m s t u (a, r, p, l, h) (b, q, p', l', h') =
    (b ∙ a, q ∙ r, omega arith, omega arith, omega arith)

registers-length : (xs ys : List ℕ) → registers xs ≡ registers ys → length xs ≡ length ys
registers-length xs ys e =
    sym (length-map xs (λ (w : ℕ). reg_of w))
    ∙ ap (λ (r : List ℕ). length r) e
    ∙ length-map ys (λ (w : ℕ). reg_of w)

Kept-replaced :
    (m : ℕ) (s : Merge) (v : ℕ) (o : List ℕ)
    → is_address (reg_of v) ≡ false
    → replace_first s.out v ≡ some o
    → Kept m s (record s { out = o })
unfolding Kept
Kept-replaced m s v o a e =
    let adr : addresses o ≡ addresses s.out =
      ap (λ (r : Option (List ℕ)). addresses (or_same r s.out)) (sym e)
      ∙ replaced_addresses s.out v a in
    let reg : registers o ≡ registers s.out =
      ap (λ (r : Option (List ℕ)). registers (or_same r s.out)) (sym e)
      ∙ replaced_registers s.out v in
    let long = registers-length o s.out reg in
    (
      adr,
      map-drop reg_of s.at o
          ∙ ap (λ (r : List ℕ). drop s.at r) reg
          ∙ sym (map-drop reg_of s.at s.out),
      omega arith,
      omega arith,
      omega arith,
    )

Kept-inserted :
    (m : ℕ) (s : Merge) (v : ℕ)
    → is_address (reg_of v) ≡ false
    → s.at ≤ length s.out
    → length s.out < m
    → Kept m s (record { out = insert_at s.out s.at v; at = suc s.at })
unfolding Kept
Kept-inserted m s v a h room =
    let long = length-insert_at s.out s.at v in
    (
      addresses-insert_at s.out s.at v a,
      ap (λ (r : List ℕ). registers r) (drop_after s.at s.out v (drop s.at s.out) h),
      omega arith,
      omega arith,
      omega arith,
    )

Kept-at : (m : ℕ) (s t : Merge) → s.at ≤ length s.out → Kept m s t → t.at ≤ length t.out
unfolding Kept
Kept-at m s t h (a, r, p, l, b) = omega arith

merge_word-Kept :
    (only : Option (List ℕ)) (m : ℕ) (s : Merge) (v : ℕ)
    → s.at ≤ length s.out
    → Kept m s (merge_word only m s v)
unfolding merge_word
merge_word-Kept only m s v h =
    elim (Bool-cases (is_address (reg_of v) || not (is_unit_of only (reg_of v)))) [
      | inl y ↦ rw y (Kept-same m s)
      | inr n ↦ elim (Option-cases (replace_first s.out v)) [
        | inr (o, e) ↦ rw (n, e) (Kept-replaced m s v o (ground arith) e)
        | inl e ↦ elim (Bool-cases (leb m (length s.out))) [
          | inl full ↦ rw (n, e, full) (Kept-same m s)
          | inr room ↦ rw (n, e, room) (Kept-inserted m s v (ground arith) h (ground arith))
        ]
      ]
    ]

merge_words-Kept :
    (only : Option (List ℕ)) (m : ℕ) (vs : List ℕ) (s : Merge)
    → s.at ≤ length s.out
    → Kept m s (merge_words only m vs s)
unfolding merge_words
merge_words-Kept only m [] s h = Kept-same m s
merge_words-Kept only m (v ∷ vs) s h =
    let now = merge_word-Kept only m s v h in
    Kept-trans m s (merge_word only m s v) _ now (
      merge_words-Kept only m vs (merge_word only m s v)
        (Kept-at m s (merge_word only m s v) h now))

trailer_at-le-length : (ws : List ℕ) → trailer_at ws ≤ length ws
unfolding trailer_at
trailer_at-le-length [] = omega arith
trailer_at-le-length (w ∷ ws) = ground (arith, trailer_at-le-length ws)

-- The values of CHARSIU_VENDOR_MERGE, whatever the file and the units are, leave the words of the three
-- addresses as they were, in their order. The stream becomes no shorter, and where it fits in the buffer of
-- `m` words it still does. And new words stand before the enable trailer: from the first 0x1008
-- on, the registers of the stream are still its last ones.
pub merge_vendor_values-keeps :
    (only : Option (List ℕ)) (m : ℕ) (file out : List ℕ)
    → length out ≤ m
    → (addresses (merge_vendor_values only m file out) ≡ addresses out)
      × (length out ≤ length (merge_vendor_values only m file out))
      × (length (merge_vendor_values only m file out) ≤ m)
      × (drop
            (length (merge_vendor_values only m file out) + trailer_at out - length out)
            (registers (merge_vendor_values only m file out))
          ≡ drop (trailer_at out) (registers out))
unfolding merge_vendor_values Kept
merge_vendor_values-keeps only m file out h =
    let s : Merge = record { out = out; at = trailer_at out } in
    let t = merge_words only m (take 512 file) s in
    let (a, r, p, l, b) = merge_words-Kept only m (take 512 file) s (trailer_at-le-length out) in
    (
      a,
      l,
      omega arith,
      ap (λ (n : ℕ). drop n (registers t.out)) (omega arith)
          ∙ sym (map-drop reg_of t.at t.out)
          ∙ r
          ∙ map-drop reg_of (trailer_at out) out,
    )
