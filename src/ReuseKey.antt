-- ===== src/ReuseKey.antt =====
-- src/reusekey.h: what a device's input buffer object holds, so that a caller whose input is unchanged
-- can skip the pack. A pointer is a number, and so are a hash, a width and a bitmap of K slices.
-- `ReuseKey.Devices` is the part of npu_matmul_inner in src/npudev.c that uses the keys.
pub mod Devices
pub mod Fresh
mod Tests
use charsiu.Prelude.{Bool, List, [], bit_and, false, true, ℕ, ◌&&◌, ◌==◌, ◌∷◌}

-- `struct reuse_key`
pub record ReuseKey : Type 0 where
  pub x : ℕ
  pub m : ℕ
  pub k : ℕ
  pub zp : ℕ
  pub kslices : ℕ
  pub ksh : ℕ
  pub valid : Bool

unfoldable pub drop_key : ReuseKey → ReuseKey
drop_key key = record key { valid = false }

-- a leader is about to pack: every key of the array is dropped
unfoldable pub reuse_keys_drop : List ReuseKey → List ReuseKey
unfolding drop_key
reuse_keys_drop [] = []
reuse_keys_drop (key ∷ keys) = drop_key key ∷ reuse_keys_drop keys

-- does the buffer hold X at this width, K, zero point and factor, in every K slice of `need`?
unfoldable pub reuse_key_hit : ReuseKey → ℕ → ℕ → ℕ → ℕ → ℕ → ℕ → Bool
reuse_key_hit key x m kk zp need ksh =
    key.valid
    && (key.x == x
        && (key.m == m
            && (key.k == kk
                && (key.zp == zp && (key.ksh == ksh && bit_and need key.kslices == need)))))

-- the pack of X landed, in these K slices
unfoldable pub reuse_key_set : ReuseKey → ℕ → ℕ → ℕ → ℕ → ℕ → ℕ → ReuseKey
reuse_key_set key x m kk zp kslices ksh = record {
  x = x;
  m = m;
  k = kk;
  zp = zp;
  kslices = kslices;
  ksh = ksh;
  valid = true;
}
