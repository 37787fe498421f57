-- ===== src/Fp16Plan/Tests.antt =====
-- Runs and instances of the theorems on the fp16 group plan.
use charsiu.Prelude.{List, [], arith, false, none, refl, some, true, ◌∷◌, ◌≡◌}
use charsiu.Matmul.{unset, entries_per_row, weight_bytes, coef_bytes, coef_elems_of}
use charsiu.Fp16Plan.{
  Op, Plan, make_plan, place_ops, place, refused, weight_size, input_size, output_size, coef_size,
  take_coef,
}
use charsiu.Fp16Plan.Layout.{IsLaidOut}
use charsiu.Fp16Plan.Regions.{weights, inputs, outputs, make_plan-IsLaidOut}
use charsiu.Fp16Plan.Coefs.{CoefsFound}
use charsiu.Fp16Plan.CoefLayout.{coef_regions, make_plan-coefs}

-- two heads of one shape, the second with its weight on the device, and a wider one
abbrev head : Op
head = record { m = 2; k = 64; n = 64; on_device = false }

abbrev group : List Op
group = head ∷ record head { on_device = true } ∷ record head { n = 128 } ∷ []

abbrev placed : Plan
placed = record {
  ops =
      record {
        woff = 0;
        wsz = 8192;
        ioff = 0;
        isz = 256;
        ooff = 0;
        osz = 512;
        coff = 0;
        csz = 262912;
      }
      ∷ record {
        woff = 8192;
        wsz = 0;
        ioff = 4096;
        isz = 256;
        ooff = 4096;
        osz = 512;
        coff = 0;
        csz = 262912;
      }
      ∷ record {
        woff = 8192;
        wsz = 16384;
        ioff = 8192;
        isz = 256;
        ooff = 8192;
        osz = 1024;
        coff = 266240;
        csz = 263424;
      }
      ∷ [];
  totals = record {
    wtot = 24576;
    itot = 12288;
    otot = 12288;
    ctot = 532480;
    coefs =
        record { n = 64; size = 262912; off = 0 }
        ∷ record { n = 128; size = 263424; off = 266240 }
        ∷ [];
    nmax = 128;
  };
}

make_plan-group : make_plan unset group ≡ some placed
unfolding make_plan place_ops place refused weight_size input_size output_size coef_size take_coef
    entries_per_row weight_bytes coef_bytes coef_elems_of
make_plan-group = refl

narrow_refused : make_plan unset (head ∷ record head { n = 16 } ∷ []) ≡ none
unfolding make_plan place_ops refused
narrow_refused = refl

make_plan-IsLaidOut_example :
    IsLaidOut 24576 (weights placed)
    × IsLaidOut 12288 (inputs placed)
    × IsLaidOut 12288 (outputs placed)
make_plan-IsLaidOut_example = make_plan-IsLaidOut unset group (omega arith) make_plan-group

make_plan-coefs_example :
    CoefsFound unset placed.totals.coefs group placed.ops
    × IsLaidOut 532480 (coef_regions placed.totals.coefs)
make_plan-coefs_example = make_plan-coefs unset group (λ want e. cc) (omega arith) make_plan-group
