-- ===== src/Gguf/Format.antt =====
-- The numbers and strings of the format that src/gguf.c reads: what a writer puts down, the cursor gives
-- back, and it stands at what follows.
use charsiu.Prelude.{
  List, Option, [], ap, append_assoc, arith, drop, drop-append, false, if◌then◌else◌, length,
  length-append, ltb, none, refl, some, subst, suc, take, true, u64_mod, zero, ℕ, ◌%◌, ◌++◌, ◌/◌,
  ◌<◌, ◌^◌, ◌||◌, ◌∙◌, ◌∷◌, ◌≡◌,
}
use native.Mathlib.Nat.{pow-succ'}
use charsiu.Gguf.{Cur, le_value, cur_take, cur_number, cur_u64, cur_str}

-- `w` bytes of a number, the least significant first
unfoldable pub le_bytes : ℕ → ℕ → List ℕ
le_bytes zero v = []
le_bytes (suc w) v = v % 256 ∷ le_bytes w (v / 256)

length-le_bytes : (w v : ℕ) → length (le_bytes w v) ≡ w
unfolding le_bytes
length-le_bytes zero v = refl
length-le_bytes (suc w) v = ap suc (length-le_bytes w (v / 256))

le_value-le_bytes : (w v : ℕ) → v < 256 ^ w → le_value (le_bytes w v) ≡ v
unfolding le_value le_bytes
le_value-le_bytes zero v h = omega arith
le_value-le_bytes (suc w) v h =
    omega (arith, le_value-le_bytes w (v / 256) (omega (arith, pow-succ' 256 w)))

take-append : (xs ys : List ℕ) → take (length xs) (xs ++ ys) ≡ xs
take-append [] ys = refl
take-append (x ∷ xs) ys = ap (λ t. x ∷ t) (take-append xs ys)

-- a string of the format: its length in eight bytes, and its bytes
unfoldable pub string_bytes : List ℕ → List ℕ
string_bytes s = le_bytes 8 (length s) ++ s

cur_take-append :
    (xs ys : List ℕ)
    → cur_take (record { rest = xs ++ ys; bad = false }) (length xs)
      ≡ (some xs, record { rest = ys; bad = false })
unfolding cur_take
cur_take-append xs ys =
    let whole : ltb (length (xs ++ ys)) (length xs) ≡ false = ground (arith, length-append xs ys) in
    rw (whole, take-append xs ys, drop-append xs ys) refl

-- A number of `w` bytes is read back as it was written, and the cursor stands at what follows.
pub cur_number-le_bytes :
    (w v : ℕ) (rest : List ℕ)
    → v < 256 ^ w
    → cur_number w (record { rest = le_bytes w v ++ rest; bad = false })
      ≡ (v, record { rest = rest; bad = false })
unfolding cur_number
cur_number-le_bytes w v rest h =
    let c : Cur = record { rest = le_bytes w v ++ rest; bad = false } in
    let after : Cur = record { rest = rest; bad = false } in
    let taken : cur_take c w ≡ (some (le_bytes w v), after) =
      subst (λ (t : ℕ). cur_take c t ≡ (some (le_bytes w v), after)) (length-le_bytes w v)
        (cur_take-append (le_bytes w v) rest) in
    ap
      (λ (p : Option (List ℕ) × Cur).
        (elim p.0 as (λ x. ℕ) [ some bs ↦ le_value bs | none ↦ 0 ], p.1))
      taken
    ∙ ap (λ (t : ℕ). (t, after)) (le_value-le_bytes w v h)

-- what cur_str does once it has the length
after_length : ℕ × Cur → Option (List ℕ) × Cur
after_length p =
    if p.1.bad || ltb (length p.1.rest) p.0
    then (none, record p.1 { bad = true })
    else (some (take p.0 p.1.rest), record p.1 { rest = drop p.0 p.1.rest })

cur_str-after_length : (c : Cur) → cur_str c ≡ after_length (cur_u64 c)
unfolding cur_str after_length
cur_str-after_length c = refl

after_length-append :
    (s rest : List ℕ)
    → after_length (length s, record { rest = s ++ rest; bad = false })
      ≡ (some s, record { rest = rest; bad = false })
unfolding after_length
after_length-append s rest =
    let whole : ltb (length (s ++ rest)) (length s) ≡ false =
      ground (arith, length-append s rest) in
    rw (whole, take-append s rest, drop-append s rest) refl

-- A string is read back as it was written, and the cursor stands at what follows.
pub cur_str-string_bytes :
    (s rest : List ℕ)
    → length s < u64_mod
    → cur_str (record { rest = string_bytes s ++ rest; bad = false })
      ≡ (some s, record { rest = rest; bad = false })
unfolding string_bytes
cur_str-string_bytes s rest h =
    let after : Cur = record { rest = s ++ rest; bad = false } in
    let read : cur_u64 (record { rest = le_bytes 8 (length s) ++ (s ++ rest); bad = false })
        ≡ (length s, after) =
      cur_number-le_bytes 8 (length s) (s ++ rest) (omega arith) in
    let joined = append_assoc (le_bytes 8 (length s)) s rest in
    ap (λ (t : List ℕ). cur_str (record { rest = t; bad = false })) joined
    ∙ cur_str-after_length (record { rest = le_bytes 8 (length s) ++ (s ++ rest); bad = false })
    ∙ ap after_length read
    ∙ after_length-append s rest
