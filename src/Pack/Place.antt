-- ===== src/Pack/Place.antt =====
-- Where a half of the second operand stands in a surface of src/regcmd.c: its group of 16 channels, and the
-- place inside the group.
use charsiu.Prelude.{
  ap, arith, false, leb, some, u32, ℕ, ◌%◌, ◌*◌, ◌+◌, ◌-◌, ◌/◌, ◌<◌, ◌^◌, ◌||◌, ◌≡◌, ◌≤◌,
}
use native.Mathlib.Nat.{mul-le-mul_right, mul_comm}
use charsiu.Matmul.{Environment, k_eff, align_up}
use charsiu.Matmul.Tile.{min2, tile_index, w_group_index, group, w16_element, w16_offset}
use charsiu.Matmul.Tile.Injective.{group_bounds}
use charsiu.Pack.{vcols, group_size}

-- the positions in whole tiles
abbrev pub rounded : ℕ → ℕ
rounded live = u32 (live + 32 - 1) / 32 * 32

base_arith : (g ke s z : ℕ) → g * 16 / 16 * 16 * ke + 0 * s + g * 16 % 16 * z + 0 ≡ g * (16 * ke)
base_arith g ke s z =
    let n : g * 16 / 16 ≡ g = omega arith in
    let r : g * 16 % 16 ≡ 0 = omega arith in rw (n, r) (omega arith)

place_arith :
    (a ke q s m z r : ℕ)
    → z ≡ 32
    → a * 16 * ke + q * 32 * s + m * z + r ≡ a * (16 * ke) + (q * (32 * s) + (m * 32 + r))
place_arith a ke q s m z r e = rw e (omega arith)

lt_arith : (q r m s l : ℕ) → m < s → r < 32 → q * 32 + 32 ≤ l → q * (32 * s) + (m * 32 + r) < l * s
lt_arith q r m s l h k t = omega (arith, mul-le-mul_right s t)

ge_arith : (q x s l : ℕ) → l ≤ q * 32 → l * s ≤ q * (32 * s) + x
ge_arith q x s l t = omega (arith, mul-le-mul_right s t)

-- the base of a group, in bytes
pub base_of :
    (env : Environment) (kv hd g : ℕ)
    → 0 < kv
    → g * 16 < align_up hd 2
    → w16_offset env (vcols kv hd) (g * 16) 0 group ≡ some (g * (16 * k_eff env (vcols kv hd)) * 2)
unfolding w16_offset w16_element w_group_index tile_index
base_of env kv hd g h b =
    let guard : (leb (align_up hd 2) (g * 16) || leb kv 0) ≡ false = ground arith in
    let ke = k_eff env (vcols kv hd) in
    rw guard (
      ap (λ (i : ℕ). some (i * 2))
        (base_arith g ke (group_size (align_up hd 2) (g * 16 / 16 * 16)) (min2 (ke - 0) 32)))

-- the place of a half inside its group
abbrev pub cell_place : ℕ → ℕ → ℕ → ℕ
cell_place np n k = k / 32 * (32 * group_size np (n / 16 * 16)) + (n % 16 * 32 + k % 32)

pub w_group_index-cell_place :
    (env : Environment) (kv hd n k : ℕ)
    → k_eff env (vcols kv hd) % 32 ≡ 0
    → k < k_eff env (vcols kv hd)
    → w_group_index env (vcols kv hd) n k
      ≡ n / 16 * (16 * k_eff env (vcols kv hd)) + cell_place (align_up hd 2) n k
unfolding w_group_index tile_index
w_group_index-cell_place env kv hd n k whole h =
    let ke = k_eff env (vcols kv hd) in
    let full : min2 (ke - k / 32 * 32) 32 ≡ 32 = ground arith in
    place_arith (n / 16) ke (k / 32) (group_size (align_up hd 2) (n / 16 * 16)) (n % 16)
      (min2 (ke - k / 32 * 32) 32) (k % 32) full

pub cell_place-lt :
    (np n k live : ℕ)
    → n < np
    → k < live
    → live < 2 ^ 31
    → cell_place np n k < rounded live * group_size np (n / 16 * 16)
cell_place-lt np n k live hn hk small =
    let (inside, _, _) = group_bounds 16 np n (omega arith) hn in
    let tiles : k / 32 * 32 + 32 ≤ rounded live = omega arith in
    lt_arith (k / 32) (k % 32) (n % 16) (group_size np (n / 16 * 16)) (rounded live) inside
      (omega arith) tiles

pub cell_place-ge :
    (np n k live : ℕ)
    → rounded live ≤ k
    → live < 2 ^ 31
    → rounded live * group_size np (n / 16 * 16) ≤ cell_place np n k
cell_place-ge np n k live h small =
    ge_arith (k / 32) (n % 16 * 32 + k % 32) (group_size np (n / 16 * 16)) (rounded live)
      (omega arith)

pub cell_place-lt_block :
    (np n k ke : ℕ)
    → n < np
    → k < ke
    → ke % 32 ≡ 0
    → cell_place np n k < group_size np (n / 16 * 16) * ke
cell_place-lt_block np n k ke hn hk whole =
    let (inside, _, _) = group_bounds 16 np n (omega arith) hn in
    let below =
      lt_arith (k / 32) (k % 32) (n % 16) (group_size np (n / 16 * 16)) ke inside (omega arith)
        (omega arith) in
    omega (arith, below, mul_comm ke (group_size np (n / 16 * 16)))
