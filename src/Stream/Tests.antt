-- ===== src/Stream/Tests.antt =====
-- The register streams at concrete inputs.
use charsiu.Prelude.{
  List, [], arith, drop, false, if◌then◌else◌, leb, length, map, none, refl, some, ℕ, ◌+◌, ◌-◌, ◌∷◌,
  ◌≡◌, ◌≤◌,
}
use charsiu.Matmul.{unset, int8}
use charsiu.Stream.{Entry, put, cna, dpu, word, override_for, stream}
use charsiu.Stream.Emission.{emitted, stream-all}
use charsiu.Stream.Job.{JobEnvironment, Job}
use charsiu.Stream.Emit.{VendorFiles, emit_job}
use charsiu.Stream.Patch.{patch_emitted, patch_weight_addr-emit_job}
use charsiu.Stream.Vendor.{merge_word, replace_first, merge_vendor_values, trailer_at}
use charsiu.Stream.Vendor.Merged.{addresses, registers, merge_vendor_values-keeps}

-- no variable is set
abbrev plain : JobEnvironment
plain = record {
  shape = unset;
  overrides = [];
  w0_end = none;
  w0_data = none;
  w1_bank = none;
  w4_paired = false;
  out_off = none;
  m_axis = none;
  fp16_geom = false;
  cna_1098 = none;
  w4_bitpat = false;
  w4_301c_high = false;
  w4_no_dpu = false;
  wide8 = none;
  w4_rdma_mask = none;
  w4_f16dpu = none;
  dpu_4030 = none;
  dpu_4038 = none;
  dpu_406c = none;
  dpu_4070 = none;
  dpu_40b8 = none;
}

-- 4 rows of 64 columns against 32 output channels
abbrev job : Job
job = record {
  mm = record { m = 4; k = 64; n = 32; wdtype = int8; adtype = int8 };
  input_addr = 0x10000;
  weight_addr = 0x20000;
  output_addr = 0x30000;
  coef_addr = 0x40000;
  conv_bits = 0x3f800000;
  output_zero_point = 0;
  cbuf_window = 0;
  acc_out = false;
}

abbrev three : List Entry
three = put cna 0x1088 0x10000 ∷ put cna 0x1110 0x20000 ∷ put dpu 0x4018 0x30000 ∷ []

stream-all_example :
    stream [] 2 three ≡ (if leb (length three) 2 then some (map (emitted []) three) else none)
stream-all_example = stream-all [] 2 three

abbrev no_files : VendorFiles
no_files = record { stream_file = []; trailer = false; merge_file = []; merge_units = none }

patch_weight_addr-emit_job_example :
    patch_emitted (emit_job plain no_files job 512) 0x50000
    ≡ (elim (emit_job plain no_files (record job { weight_addr = 0x50000 }) 512) [
      | none ↦ none
      | some s ↦ some (s, 1)
    ])
unfolding override_for
patch_weight_addr-emit_job_example =
    patch_weight_addr-emit_job plain no_files job 512 0x50000 refl refl refl

-- a stream of four words and the two that a captured one has beside an address of its own
abbrev own : List ℕ
own =
    word cna 0x1088 0x10000
    ∷ word cna 0x1020 7
    ∷ word dpu 0x4018 0x30000
    ∷ word cna 0x1008 0x1d
    ∷ []

abbrev captured : List ℕ
captured = word cna 0x1028 0x3f ∷ word cna 0x1088 0x99999 ∷ word cna 0x1020 9 ∷ []

-- the vendor's 0x1020 counts, 0x1028 stands before the trailer, and the address is the job's
merge_vendor_values_inserts :
    merge_vendor_values none 512 captured own
    ≡ word cna 0x1088 0x10000
      ∷ word cna 0x1020 9
      ∷ word dpu 0x4018 0x30000
      ∷ word cna 0x1028 0x3f
      ∷ word cna 0x1008 0x1d
      ∷ []
unfolding merge_vendor_values merge_word word replace_first
merge_vendor_values_inserts = refl

merge_vendor_values-keeps_example :
    (addresses (merge_vendor_values none 512 captured own) ≡ addresses own)
    × (length own ≤ length (merge_vendor_values none 512 captured own))
    × (length (merge_vendor_values none 512 captured own) ≤ 512)
    × (drop
          (length (merge_vendor_values none 512 captured own) + trailer_at own - length own)
          (registers (merge_vendor_values none 512 captured own))
        ≡ drop (trailer_at own) (registers own))
merge_vendor_values-keeps_example = merge_vendor_values-keeps none 512 captured own (omega arith)
