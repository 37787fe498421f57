-- ===== src/Fp16Plan/Layout.antt =====
-- A buffer that is handed out page by page: the regions do not overlap, start on pages and end inside.
use charsiu.Prelude.{List, [], arith, length, u64, ℕ, ◌%◌, ◌*◌, ◌+◌, ◌<◌, ◌^◌, ◌∷◌, ◌≡◌, ◌≤◌}
use charsiu.Fp16Plan.{up4k}

-- a region is its offset and its size
abbrev pub Region : Type 0
Region = ℕ × ℕ

abbrev pub stop : Region → ℕ
stop r = r.0 + r.1

abbrev pub All : (Region → Type 0) → List Region → Type 0
All P [] = Unit
All P (r ∷ rs) = P r × All P rs

-- each region ends before every later one starts
abbrev pub IsApart : List Region → Type 0
IsApart [] = Unit
IsApart (r ∷ rs) = All (λ s. stop r ≤ s.0) rs × IsApart rs

-- no two regions overlap, and each starts on a page and ends within `total`
abbrev pub IsLaidOut : ℕ → List Region → Type 0
IsLaidOut total rs = IsApart rs × All (λ r. (r.0 % 4096 ≡ 0) × (stop r ≤ total)) rs

-- regions of these sizes, one after the other from `at`, each rounded up to whole pages
abbrev pub regions_from : ℕ → List ℕ → List Region
regions_from at [] = []
regions_from at (size ∷ sizes) = (at, size) ∷ regions_from (u64 (at + up4k size)) sizes

abbrev pub end_from : ℕ → List ℕ → ℕ
end_from at [] = at
end_from at (size ∷ sizes) = end_from (u64 (at + up4k size)) sizes

abbrev pub AllSmall : List ℕ → Type 0
AllSmall [] = Unit
AllSmall (size ∷ sizes) = (size ≤ 2 ^ 48) × AllSmall sizes

pub up4k_bounds : (v : ℕ) → v ≤ 2 ^ 48 → (v ≤ up4k v) × (up4k v < v + 4096) × (up4k v % 4096 ≡ 0)
unfolding up4k
up4k_bounds v h = omega arith

-- the first region starts at `at`, and so the later ones start at or after it
regions_from-after :
    (lo at : ℕ) (sizes : List ℕ)
    → lo ≤ at
    → at + length sizes * 2 ^ 49 ≤ 2 ^ 60
    → AllSmall sizes
    → All (λ s. lo ≤ s.0) (regions_from at sizes) × (at ≤ end_from at sizes)
regions_from-after lo at [] h room small = (tt, omega arith)
regions_from-after lo at (size ∷ sizes) h room small =
    let (grows, within, _) = up4k_bounds size small.0 in
    let exact : u64 (at + up4k size) ≡ at + up4k size = omega arith in
    let (later, last) =
      regions_from-after lo (u64 (at + up4k size)) sizes (omega arith) (omega arith) small.1 in
    ((h, later), omega arith)

-- up to 64 regions of at most 2 ^ 48 bytes are laid out, and nothing wraps
pub regions_from-IsLaidOut :
    (at : ℕ) (sizes : List ℕ)
    → at % 4096 ≡ 0
    → at + length sizes * 2 ^ 49 ≤ 2 ^ 60
    → AllSmall sizes
    → IsLaidOut (end_from at sizes) (regions_from at sizes)
regions_from-IsLaidOut at [] page room small = (tt, tt)
regions_from-IsLaidOut at (size ∷ sizes) page room small =
    let (grows, within, whole) = up4k_bounds size small.0 in
    let exact : u64 (at + up4k size) ≡ at + up4k size = omega arith in
    let next = u64 (at + up4k size) in
    let (apart, inside) = regions_from-IsLaidOut next sizes (omega arith) (omega arith) small.1 in
    let (later, last) =
      regions_from-after (at + size) next sizes (omega arith) (omega arith) small.1 in
    ((later, apart), ((page, omega arith), inside))
