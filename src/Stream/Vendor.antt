-- ===== src/Stream/Vendor.antt =====
-- The captured streams of src/job.c: CHARSIU_VENDOR_STREAM, which is sent in place of an emission, and
-- CHARSIU_VENDOR_MERGE, which gives its values to one. A file is the list of its words.
pub mod Merged
pub mod Replayed
use charsiu.Prelude.{
  Bool, List, Option, [], drop, false, if◌then◌else◌, leb, length, map, max, none, not, some, suc,
  take, true, u32, ℕ, ◌%◌, ◌&&◌, ◌*◌, ◌++◌, ◌+◌, ◌/◌, ◌==◌, ◌^◌, ◌||◌, ◌∷◌,
}
use charsiu.Stream.{cna, core, dpu, word}
use charsiu.Stream.Job.{Job}

-- the register and the value of a word
abbrev pub reg_of : ℕ → ℕ
reg_of w = w % 2 ^ 16

abbrev pub val_of : ℕ → ℕ
val_of w = w / 2 ^ 16 % 2 ^ 32

-- is the register one of the three addresses?
unfoldable pub is_address : ℕ → Bool
is_address reg = reg == 0x1088 || reg == 0x1110 || reg == 0x4018

-- the new value that patch_addr gives a register
abbrev pub address_for : Job → ℕ → Option ℕ
address_for job reg =
    if reg == 0x1088
    then some job.input_addr
    else if reg == 0x1110
    then some job.weight_addr
    else if reg == 0x4018
    then some job.output_addr
    else none

-- patch_addr: the target and the register of the word stay
unfoldable pub patch_addr : Job → ℕ → ℕ
patch_addr job w = elim (address_for job (reg_of w)) [
  | none ↦ w
  | some val ↦ w / 2 ^ 48 * 2 ^ 48 + u32 val * 2 ^ 16 + reg_of w
]

-- vendor_stream_load: what fread gives of the file, into a buffer of `max` words
abbrev pub vendor_stream_load : List ℕ → ℕ → List ℕ
vendor_stream_load file max = take max file

-- emit_vendor_stream: `trailer` says whether CHARSIU_VENDOR_TRAILER is set
unfoldable pub emit_vendor_stream : Job → Bool → List ℕ → ℕ → List ℕ
unfolding patch_addr
emit_vendor_stream job trailer file max =
    let got = map (patch_addr job) (vendor_stream_load file max) in
    if trailer && not (length got == 0) && leb (length got + 3) max
    then got ++ word cna 0x1008 0x1d ∷ word core 0x3008 0x1d ∷ word dpu 0x4008 0x1d ∷ []
    else got

-- the last value that the words give a register, or `v`
unfoldable pub last_value : List ℕ → ℕ → ℕ → ℕ
last_value [] reg v = v
last_value (w ∷ ws) reg v = last_value ws reg (if reg_of w == reg then val_of w else v)

-- charsiu_vendor_stream_shape: `k`, `n` and `wbytes`, or the result 0
unfoldable pub vendor_stream_shape : List ℕ → Option (ℕ × ℕ × ℕ)
unfolding last_value
vendor_stream_shape file =
    let buf = vendor_stream_load file 512 in
    if length buf == 0
    then none
    else some (
      last_value buf 0x1028 0 % 2 ^ 16 + 1,
      last_value buf 0x1024 0 % 2 ^ 16 + 1,
      last_value buf 0x101c 0,
    )

-- the state of the loop of merge_vendor_values
pub record Merge : Type 0 where
  pub out : List ℕ
  pub at : ℕ

-- where the enable trailer starts
unfoldable pub trailer_at : List ℕ → ℕ
trailer_at [] = 0
trailer_at (w ∷ ws) = let rest = trailer_at ws in if reg_of w == 0x1008 then 0 else rest + 1

-- the first word of the register of `v` becomes `v`; `none` where there is none
unfoldable pub replace_first : List ℕ → ℕ → Option (List ℕ)
replace_first [] v = none
replace_first (w ∷ ws) v =
    if reg_of w == reg_of v
    then some (v ∷ ws)
    else elim (replace_first ws v) [ none ↦ none | some more ↦ some (w ∷ more) ]

-- the memmove and the store
abbrev pub insert_at : List ℕ → ℕ → ℕ → List ℕ
insert_at out at v = take at out ++ v ∷ drop at out

-- strchr, over the characters of a string
unfoldable pub is_in : List ℕ → ℕ → Bool
is_in [] c = false
is_in (x ∷ xs) c = x == c || is_in xs c

-- CHARSIU_MERGE_UNITS: does it name the unit of the register?
unfoldable pub is_unit_of : Option (List ℕ) → ℕ → Bool
unfolding is_in
is_unit_of none reg = true
is_unit_of (some only) reg = is_in only (48 + reg / 2 ^ 12 % 16)

-- one iteration
unfoldable pub merge_word : Option (List ℕ) → ℕ → Merge → ℕ → Merge
unfolding is_address is_unit_of
merge_word only max s v =
    if is_address (reg_of v) || not (is_unit_of only (reg_of v))
    then s
    else elim (replace_first s.out v) [
      | some out ↦ record s { out = out }
      | none ↦
          if leb max (length s.out)
          then s
          else record { out = insert_at s.out s.at v; at = suc s.at }
    ]

unfoldable pub merge_words : Option (List ℕ) → ℕ → List ℕ → Merge → Merge
merge_words only max [] s = s
merge_words only max (v ∷ vs) s = merge_words only max vs (merge_word only max s v)

-- merge_vendor_values, where CHARSIU_VENDOR_MERGE names a file that is not empty
unfoldable pub merge_vendor_values : Option (List ℕ) → ℕ → List ℕ → List ℕ → List ℕ
unfolding trailer_at merge_words
merge_vendor_values only max file out =
    (merge_words only max (take 512 file) (record { out = out; at = trailer_at out })).out
