-- ===== src/ReuseKey/Devices.antt =====
-- The use that npu_matmul_inner of src/npudev.c makes of the keys of its two devices: a call that does
-- not ask for reuse drops every key, and each device then packs what it needs or reuses what it has.
use charsiu.Prelude.{Bool, List, [], false, if◌then◌else◌, not, true, ℕ, ◌&&◌, ◌+◌, ◌==◌, ◌||◌, ◌∷◌}
use charsiu.Prelude.Bits.{bit}
use charsiu.ReuseKey.{ReuseKey, drop_key, reuse_key_hit, reuse_key_set}

-- What the bytes in one slice's buffer object were made of. `version` stands for the contents that the
-- caller's buffer `x` had when it was packed.
pub record Packing : Type 0 where
  pub x : ℕ
  pub m : ℕ
  pub k : ℕ
  pub zp : ℕ
  pub ksh : ℕ
  pub version : ℕ

-- `g->bin_key[d]`, and what each of the device's input objects holds
pub record Device : Type 0 where
  pub key : ReuseKey
  pub slice : ℕ → Packing

-- The arguments of a call: the input, and the factor of the tensor. `ask` is `g->reuse_ask`.
pub record Call : Type 0 where
  pub ask : Bool
  pub x : ℕ
  pub m : ℕ
  pub k : ℕ
  pub zp : ℕ
  pub ksh : ℕ

-- How the work of one device ends: its jobs are handed over, a register stream comes back empty, or the
-- driver refuses the jobs.
pub data Outcome : Type 0 where
  submitted : Outcome
  empty_stream : Outcome
  refused : Outcome

-- What one turn of the loop meets: a bit for each K slice dealt to the device, and how its work ends.
pub record Deal : Type 0 where
  pub need : ℕ
  pub outcome : Outcome

-- the pack of the K slices in `mask`
unfoldable pub pack_slices : (ℕ → Packing) → ℕ → Packing → ℕ → Packing
pack_slices old mask p ki = if bit mask ki == 1 then p else old ki

-- X as it is now, packed for this call
unfoldable pub packed_for : (ℕ → ℕ) → Call → Packing
packed_for memory c = record {
  x = c.x;
  m = c.m;
  k = c.k;
  zp = c.zp;
  ksh = c.ksh;
  version = memory c.x;
}

-- a leader drops the device's key before it packs
unfoldable pub begin_call : Call → Device → Device
unfolding drop_key
begin_call c d = if c.ask then d else record d { key = drop_key d.key }

-- does the call reuse what the device holds? `need` has a bit for each K slice dealt to the device
unfoldable pub reuses : Call → ℕ → Device → Bool
unfolding reuse_key_hit
reuses c need d = c.ask && reuse_key_hit d.key c.x c.m c.k c.zp need c.ksh

-- is the pack written off, since the call returns before the key is set?
unfoldable pub is_empty_stream : Outcome → Bool
is_empty_stream empty_stream = true
is_empty_stream submitted = false
is_empty_stream refused = false

unfoldable pub is_submitted : Outcome → Bool
is_submitted submitted = true
is_submitted empty_stream = false
is_submitted refused = false

-- The loop's body for one device, after the drop: on a hit nothing is packed; on a miss the key is dropped
-- and the slices in `need` are packed, and the key is set once all their register streams are there, unless
-- no slice was dealt here.
unfoldable pub call_device : (ℕ → ℕ) → Call → Deal → Device → Device
unfolding reuses pack_slices packed_for drop_key reuse_key_set is_empty_stream
call_device memory c deal d =
    if reuses c deal.need d
    then d
    else (let dropped = drop_key d.key in
        record {
          key =
              if deal.need == 0 || is_empty_stream deal.outcome
              then dropped
              else reuse_key_set dropped c.x c.m c.k c.zp deal.need c.ksh;
          slice = pack_slices d.slice deal.need (packed_for memory c);
        })

-- does the call return from this device's turn? One without a slice here has nothing that can fail.
unfoldable pub stops : Deal → Bool
unfolding is_submitted
stops deal = not (deal.need == 0) && not (is_submitted deal.outcome)

unfoldable pub begin_calls : Call → List Device → List Device
unfolding begin_call
begin_calls c [] = []
begin_calls c (d ∷ ds) = begin_call c d ∷ begin_calls c ds

-- The loop over the devices, in the order in which it takes them, each with its deal (nothing, where the
-- list of them ends); behind a device whose turn fails the others are as they were.
unfoldable pub call_loop : (ℕ → ℕ) → Call → List Deal → List Device → List Device
unfolding call_device stops
call_loop memory c deals [] = []
call_loop memory c [] (d ∷ ds) =
    call_device memory c (record { need = 0; outcome = submitted }) d ∷ call_loop memory c [] ds
call_loop memory c (deal ∷ deals) (d ∷ ds) =
    let rest = call_loop memory c deals ds in
    call_device memory c deal d ∷ (if stops deal then ds else rest)

-- the call: the drop on every device, and the loop unless the call fails before it
unfoldable pub call_devices : (ℕ → ℕ) → Call → Bool → List Deal → List Device → List Device
unfolding begin_calls call_loop
call_devices memory c flushed deals ds =
    if flushed then call_loop memory c deals (begin_calls c ds) else begin_calls c ds

-- batch_bufs: the input objects are allocated anew, with whatever bytes, and every key is dropped
unfoldable pub replace_buffers : (ℕ → ℕ → Packing) → List Device → List Device
replace_buffers slices [] = []
replace_buffers slices (d ∷ ds) =
    record { key = drop_key d.key; slice = slices 0 } ∷ replace_buffers (λ i. slices (i + 1)) ds
