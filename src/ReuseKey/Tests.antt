-- ===== src/ReuseKey/Tests.antt =====
-- Runs and instances of the theorems on the reuse keys: the q, gate, up sequence that src/reusekey.h
-- tells of, on two cores.
use charsiu.Prelude.{[], false, map, refl, true, ℕ, ◌∷◌, ◌≡◌}
use charsiu.ReuseKey.Devices.{
  Packing, Device, Call, Deal, submitted, empty_stream, reuses, call_devices,
}
use charsiu.ReuseKey.Fresh.{World}

abbrev no_packing : Packing
no_packing = record { x = 0; m = 0; k = 0; zp = 0; ksh = 0; version = 0 }

abbrev cold : Device
cold = record {
  key = record { x = 0; m = 0; k = 0; zp = 0; kslices = 0; ksh = 0; valid = false };
  slice = λ _. no_packing;
}

abbrev deal_of : ℕ → Deal
deal_of need = record { need = need; outcome = submitted }

abbrev start : World
start = record { memory = λ _. 1; devices = cold ∷ cold ∷ [] }

abbrev packs : Call
packs = record { ask = false; x = 7; m = 4; k = 3072; zp = 128; ksh = 0 }

abbrev follows : Call
follows = record packs { ask = true }

abbrev q_packed : World
q_packed = record {
  memory = λ _. 1;
  devices = call_devices (λ _. 1) packs true (deal_of 3 ∷ []) start.devices;
}

abbrev gate_packed : World
gate_packed = record {
  memory = λ _. 2;
  devices = call_devices (λ _. 2) packs true (deal_of 0 ∷ deal_of 3 ∷ []) q_packed.devices;
}

-- up is dealt to core 0, whose key the leader gate has dropped
up_misses : map (reuses follows 3) gate_packed.devices ≡ false ∷ true ∷ []
unfolding reuses call_devices
up_misses = refl

-- a follower that packs and gets no register stream leaves no key behind
failed_misses :
    map (reuses follows 3) (
      call_devices
        (λ _. 2)
        follows
        true
        (record { need = 3; outcome = empty_stream } ∷ [])
        gate_packed.devices)
    ≡ false ∷ true ∷ []
unfolding reuses call_devices
failed_misses = refl
