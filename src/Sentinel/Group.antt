-- ===== src/Sentinel/Group.antt =====
-- When the sentinels of an earlier group serve a new one: charsiu_poison_matches of src/sentinel.h.
use charsiu.Prelude.{List, [], arith, refl, true, ◌↔◌, ◌∷◌, ◌≡◌, ◌≢◌}
use charsiu.Sentinel.{Shape, same_shape, same_shapes, poison_matches}

-- a record is its fields
shape_eq : (a b : Shape) → a.ooff ≡ b.ooff → a.m ≡ b.m → a.n ≡ b.n → a ≡ b
shape_eq a b p q r = ground arith

same_shapes_iff : (now before : List Shape) → (same_shapes now before ≡ true) ↔ (now ≡ before)
unfolding same_shapes same_shape
same_shapes_iff [] [] = (λ _. refl, λ _. refl)
same_shapes_iff [] (q ∷ qs) = (λ e. cc, λ e. cc)
same_shapes_iff (p ∷ ps) [] = (λ e. cc, λ e. cc)
same_shapes_iff (p ∷ ps) (q ∷ qs) = (
  (λ e. ground (arith, (same_shapes_iff ps qs).0, shape_eq p q)),
  (λ e. ground (arith, (same_shapes_iff ps qs).1)),
)

-- The early sentinels are taken as good exactly if the group is not empty and its ops have the very
-- offsets, row counts and row lengths, in the same order, for which the buffer was poisoned.
pub poison_matches_iff :
    (now before : List Shape) → (poison_matches now before ≡ true) ↔ ((now ≢ []) × (now ≡ before))
unfolding poison_matches
poison_matches_iff [] before = (λ e. cc, λ h. absurd (h.0 refl))
poison_matches_iff (p ∷ ps) before = (
  (λ e. ((λ z. cc), (same_shapes_iff (p ∷ ps) before).0 (ground arith))),
  (λ h. ground (arith, (same_shapes_iff (p ∷ ps) before).1 h.1)),
)
