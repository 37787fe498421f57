-- ===== src/ReuseKey/Fresh.antt =====
-- What the input objects hold when a key of src/reusekey.h is hit.
use charsiu.Prelude.{Bool, List, [], false, true, ℕ, ◌∷◌, ◌≡◌}
use charsiu.Prelude.Bits.{bit}
use charsiu.ReuseKey.{ReuseKey}
use charsiu.ReuseKey.Devices.{Packing, Device, Call, Deal, call_devices, replace_buffers}

-- the packing that a valid key speaks of, if the caller's buffers hold `memory`
abbrev pub promised : (ℕ → ℕ) → ReuseKey → Packing
promised memory key = record {
  x = key.x;
  m = key.m;
  k = key.k;
  zp = key.zp;
  ksh = key.ksh;
  version = memory key.x;
}

-- a valid key speaks the truth about every slice that it names
abbrev pub IsFresh : (ℕ → ℕ) → Device → Type 0
IsFresh memory d =
    d.key.valid ≡ true → (ki : ℕ) → bit d.key.kslices ki ≡ 1 → d.slice ki ≡ promised memory d.key

abbrev pub AllFresh : (ℕ → ℕ) → List Device → Type 0
AllFresh memory [] = Unit
AllFresh memory (d ∷ ds) = IsFresh memory d × AllFresh memory ds

-- The machine: the contents of the caller's buffers, and the devices.
pub record World : Type 0 where
  pub memory : ℕ → ℕ
  pub devices : List Device

-- A call that does not ask for reuse may follow any change of the caller's buffers; one that asks
-- follows none, which is the caller's word. A call may fail before its loop or on any device. New input
-- objects may hold anything.
pub data Step : World → World → Type 0 where
  leader :
      (w : World) (memory' : ℕ → ℕ) (c : Call) (flushed : Bool) (deals : List Deal)
      → c.ask ≡ false
      → Step w
          (record { memory = memory'; devices = call_devices memory' c flushed deals w.devices })
  follower :
      (w : World) (c : Call) (flushed : Bool) (deals : List Deal)
      → c.ask ≡ true
      → Step w (record w { devices = call_devices w.memory c flushed deals w.devices })
  replaced :
      (w : World) (slices : ℕ → ℕ → Packing)
      → Step w (record w { devices = replace_buffers slices w.devices })

pub data Reach (w : World) : World → Type 0 where
  here : Reach w w
  next : {u v : World} → Reach w u → Step u v → Reach w v

abbrev pub AllDropped : List Device → Type 0
AllDropped [] = Unit
AllDropped (d ∷ ds) = (d.key.valid ≡ false) × AllDropped ds
