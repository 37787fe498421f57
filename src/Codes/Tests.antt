-- ===== src/Codes/Tests.antt =====
-- Rows of codes at concrete inputs.
use charsiu.Prelude.{arith, suc, true, zero, ℕ, ◌≡◌}
use charsiu.Prelude.Int.{ℤ, pos, negsuc}
use charsiu.Codes.{q_stride, q_at, put_codes}
use charsiu.Codes.Packed.{q_at-put_codes, put_codes-defined}

-- -8, 7 and -1
abbrev codes : ℕ → ℤ
codes zero = negsuc 7
codes (suc zero) = pos 7
codes (suc (suc i)) = negsuc 0

-- an odd row over memory that is full of ones
q_at-put_codes_example : q_at true (put_codes true codes 3 (λ i. 255)) 2 ≡ negsuc 0
q_at-put_codes_example =
    q_at-put_codes true codes 3 2 (λ i. 255) (omega arith) (omega arith, omega arith)

put_codes-defined_example : put_codes true codes 3 (λ i. 255) 1 ≡ put_codes true codes 3 (λ i. i) 1
unfolding q_stride
put_codes-defined_example = put_codes-defined true codes 3 1 (λ i. 255) (λ i. i) (omega arith)
