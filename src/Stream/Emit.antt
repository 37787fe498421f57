-- ===== src/Stream/Emit.antt =====
-- charsiu_emit_job of src/job.c as a whole: the vendor's stream where CHARSIU_VENDOR_STREAM gives one, and
-- else the job's own, with the values of CHARSIU_VENDOR_MERGE put in.
use charsiu.Prelude.{
  Bool, List, Option, [], ap, false, max, none, refl, some, suc, true, zero, ℕ, ◌∙◌, ◌∷◌, ◌≡◌,
}
use charsiu.Stream.Job.{JobEnvironment, Job}
use charsiu.Stream.Job.Entries.{emit_own}
use charsiu.Stream.Vendor.{emit_vendor_stream, merge_vendor_values, merge_words}

-- What the vendor's variables give: the words of the file of CHARSIU_VENDOR_STREAM and whether the three
-- words behind them are asked for, and the words of the file of CHARSIU_VENDOR_MERGE with the units of
-- CHARSIU_MERGE_UNITS. Where a variable is not set there are no words; one that names a file that cannot be
-- read, or is empty, ends the process, which is not modelled.
pub record VendorFiles : Type 0 where
  pub stream_file : List ℕ
  pub trailer : Bool
  pub merge_file : List ℕ
  pub merge_units : Option (List ℕ)

-- the vendor's values put into the job's own stream
unfoldable pub merge_into : VendorFiles → ℕ → Option (List ℕ) → Option (List ℕ)
unfolding merge_vendor_values
merge_into files max none = none
merge_into files max (some out) =
    some (merge_vendor_values files.merge_units max files.merge_file out)

-- `if (vend) return vend`
unfoldable pub vendor_or : List ℕ → Option (List ℕ) → Option (List ℕ)
vendor_or [] own = own
vendor_or (w ∷ ws) own = some (w ∷ ws)

-- charsiu_emit_job into a buffer of `max` entries; `none` is the result 0
unfoldable pub emit_job : JobEnvironment → VendorFiles → Job → ℕ → Option (List ℕ)
unfolding emit_vendor_stream vendor_or merge_into emit_own
emit_job env files job max =
    vendor_or (emit_vendor_stream job files.trailer files.stream_file max)
      (merge_into files max (emit_own env job max))

-- no words to take the place of a stream
emit_vendor_stream-none :
    (job : Job) (trailer : Bool) (max : ℕ) → emit_vendor_stream job trailer [] max ≡ []
unfolding emit_vendor_stream
emit_vendor_stream-none job true zero = refl
emit_vendor_stream-none job true (suc max) = refl
emit_vendor_stream-none job false zero = refl
emit_vendor_stream-none job false (suc max) = refl

-- no words to put in
merge_vendor_values-none :
    (units : Option (List ℕ)) (max : ℕ) (out : List ℕ) → merge_vendor_values units max [] out ≡ out
unfolding merge_vendor_values merge_words
merge_vendor_values-none units max out = refl

merge_into-none :
    (files : VendorFiles) (max : ℕ) (own : Option (List ℕ))
    → files.merge_file ≡ []
    → merge_into files max own ≡ own
unfolding merge_into
merge_into-none files max none m = refl
merge_into-none files max (some out) m =
    ap (λ (file : List ℕ). some (merge_vendor_values files.merge_units max file out)) m
    ∙ ap (λ (o : List ℕ). some o) (merge_vendor_values-none files.merge_units max out)

pub emit_job-emit_own :
    (env : JobEnvironment) (files : VendorFiles) (job : Job) (max : ℕ)
    → files.stream_file ≡ []
    → files.merge_file ≡ []
    → emit_job env files job max ≡ emit_own env job max
unfolding emit_job vendor_or
emit_job-emit_own env files job max s m =
    ap (λ (vend : List ℕ). vendor_or vend (merge_into files max (emit_own env job max)))
      (ap (λ (file : List ℕ). emit_vendor_stream job files.trailer file max) s
        ∙ emit_vendor_stream-none job files.trailer max)
    ∙ merge_into-none files max (emit_own env job max) m
