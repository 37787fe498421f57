-- ===== src/Stream/Emission.antt =====
-- What the emitter of src/regcmd.c and src/job.c leaves behind.
use charsiu.Prelude.{
  Bool-cases, List, [], ap, append-nil, append_assoc, ap₂, arith, dec_lt, if◌then◌else◌, inl, inr,
  leb, length, map, max, none, some, sym, ℕ, ◌++◌, ◌+◌, ◌<◌, ◌∙◌, ◌∷◌, ◌≡◌, ◌≤◌,
}
use charsiu.Stream.{Entry, Emitter, word, value_of, emit, emit_all, stream}

-- the word that an entry becomes
unfoldable pub emitted : List (ℕ × ℕ) → Entry → ℕ
emitted ov e = word e.target e.reg (value_of ov e)

emit-room :
    (ov : List (ℕ × ℕ)) (max : ℕ) (out : List ℕ) (n : ℕ) (e : Entry)
    → n < max
    → emit ov max (record { out = out; n = n }) e
      ≡ record { out = out ++ emitted ov e ∷ []; n = n + 1 }
unfolding emit emitted
emit-room ov max out n e h = ground arith

emit-full :
    (ov : List (ℕ × ℕ)) (max : ℕ) (out : List ℕ) (n : ℕ) (e : Entry)
    → max ≤ n
    → emit ov max (record { out = out; n = n }) e ≡ record { out = out; n = max + 1 }
unfolding emit
emit-full ov max out n e h = ground arith

emit_all-room :
    (ov : List (ℕ × ℕ)) (max : ℕ) (es : List Entry) (out : List ℕ) (n : ℕ)
    → n + length es ≤ max
    → emit_all ov max es (record { out = out; n = n })
      ≡ record { out = out ++ map (emitted ov) es; n = n + length es }
unfolding emit_all
emit_all-room ov max [] out n h =
    ap₂ (λ (o : List ℕ) (k : ℕ). record { out = o; n = k }) (sym (append-nil out)) (omega arith)
emit_all-room ov max (e ∷ es) out n h =
    ap (emit_all ov max es) (emit-room ov max out n e (omega arith))
    ∙ emit_all-room ov max es (out ++ emitted ov e ∷ []) (n + 1) (omega arith)
    ∙ ap₂ (λ (o : List ℕ) (k : ℕ). record { out = o; n = k })
        (append_assoc out (emitted ov e ∷ []) (map (emitted ov) es)) (omega arith)

emit_all-over :
    (ov : List (ℕ × ℕ)) (max : ℕ) (es : List Entry) (out : List ℕ) (n : ℕ)
    → n ≤ max + 1
    → max < n + length es
    → (emit_all ov max es (record { out = out; n = n })).n ≡ max + 1
unfolding emit_all
emit_all-over ov max [] out n h p = omega arith
emit_all-over ov max (e ∷ es) out n h p = elim (dec_lt n max) [
  | yes q ↦
      ap (λ (s : Emitter). (emit_all ov max es s).n) (emit-room ov max out n e q)
      ∙ (emit_all-over ov max es (out ++ emitted ov e ∷ []) (n + 1) (omega arith) (omega arith))
  | no q ↦
      ap (λ (s : Emitter). (emit_all ov max es s).n) (emit-full ov max out n e (omega arith))
      ∙ (emit_all-over ov max es out (max + 1) (omega arith) (omega arith))
]

-- An emission gives the words of all its entries when they fit in the buffer, and 0 when they do not: no
-- buffer receives a part of a stream with a length that says otherwise.
pub stream-all :
    (ov : List (ℕ × ℕ)) (max : ℕ) (es : List Entry)
    → stream ov max es ≡ (if leb (length es) max then some (map (emitted ov) es) else none)
unfolding stream
stream-all ov max es = elim (Bool-cases (leb (length es) max)) [
  | inl y ↦ rw (y, emit_all-room ov max es [] 0 (ground arith)) (ground arith)
  | inr n ↦ rw (n, emit_all-over ov max es [] 0 (omega arith) (ground arith)) (ground arith)
]
