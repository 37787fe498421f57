-- ===== src/Gguf/Values.antt =====
-- The values of the key table of src/gguf.c: vtype_size and read_value.
use charsiu.Prelude.{
  List, Option, drop, false, if◌then◌else◌, length, ltb, none, not, some, suc, true, u64_mod, zero,
  ℕ, ◌&&◌, ◌*◌, ◌+◌, ◌-◌, ◌/◌, ◌==◌, ◌^◌, ◌||◌,
}
use charsiu.Gguf.{Cur, cur_number, cur_u32, cur_u64, cur_str}

-- What `enum gguf_vtype` of include/charsiu_llm.h says of a code: an unsigned, signed or floating number
-- of so many bytes, a string, an array, or no type.
pub data Kind : Type 0 where
  uint sint flt : ℕ → Kind
  str arr unknown : Kind

unfoldable pub kind_of : ℕ → Kind
kind_of t =
    if t == 0 || t == 7
    then uint 1
    else if t == 1
    then sint 1
    else if t == 2
    then uint 2
    else if t == 3
    then sint 2
    else if t == 4
    then uint 4
    else if t == 5
    then sint 4
    else if t == 6
    then flt 4
    else if t == 8
    then str
    else if t == 9
    then arr
    else if t == 10
    then uint 8
    else if t == 11
    then sint 8
    else if t == 12
    then flt 8
    else unknown

abbrev pub v_u32 : ℕ
v_u32 = 4

abbrev pub v_string : ℕ
v_string = 8

abbrev pub v_array : ℕ
v_array = 9

-- 0 for what is not fixed width
unfoldable pub kind_size : Kind → ℕ
kind_size (uint w) = w
kind_size (sint w) = w
kind_size (flt w) = w
kind_size str = 0
kind_size arr = 0
kind_size unknown = 0

unfoldable pub vtype_size : ℕ → ℕ
unfolding kind_of kind_size
vtype_size t = kind_size (kind_of t)

-- The value of `struct gguf_kv`: an unsigned number, the 64-bit pattern of a signed one, the bits of a
-- float of so many bytes, a string, or an array with its element type, its length and the bytes from
-- its first element on.
pub data Value : Type 0 where
  unsigned : ℕ → Value
  signed : ℕ → Value
  float : ℕ → ℕ → Value
  string : List ℕ → Value
  array : ℕ → ℕ → List ℕ → Value

-- the 64-bit pattern of a signed number of `w` bytes
unfoldable pub sign_extend : ℕ → ℕ → ℕ
sign_extend w v = if ltb v (2 ^ (8 * w - 1)) then v else v + (u64_mod - 2 ^ (8 * w))

-- the walk over the strings of an array, which stops when the cursor is bad
unfoldable pub skip_strings : ℕ → Cur → Cur
skip_strings zero c = c
skip_strings (suc n) c = elim c.bad [ true ↦ c | false ↦ skip_strings n (cur_str c).1 ]

-- the end of the GGUF_V_ARRAY case: `c->bad ? -1 : 0`
abbrev pub array_done : ℕ → ℕ → List ℕ → Cur → Option Value × Cur
array_done at n first c = (if c.bad then none else some (array at n first), c)

-- the GGUF_V_ARRAY case after its element type and length
unfoldable pub read_elements : ℕ → ℕ → Cur → Option Value × Cur
unfolding skip_strings vtype_size
read_elements at n c =
    let w = vtype_size at in
    if not (w == 0)
    then (if not (n == 0) && ltb (length c.rest / w) n
        then (none, record c { bad = true })
        else array_done at n c.rest (record c { rest = drop (n * w) c.rest }))
    else if at == v_string
    then array_done at n c.rest (skip_strings n c)
    else (none, record c { bad = true })

-- read_value by the kind of the type; `none` stands for -1
unfoldable pub read_kind : Kind → Cur → Option Value × Cur
unfolding read_elements sign_extend
read_kind (uint w) c = let (v, c') = cur_number w c in (some (unsigned v), c')
read_kind (sint w) c = let (v, c') = cur_number w c in (some (signed (sign_extend w v)), c')
read_kind (flt w) c = let (v, c') = cur_number w c in (some (float w v), c')
read_kind str c =
    let (s, c') = cur_str c in (elim s [ none ↦ none | some bytes ↦ some (string bytes) ], c')
read_kind arr c = let (at, c') = cur_u32 c in let (n, c'') = cur_u64 c' in read_elements at n c''
read_kind unknown c = (none, record c { bad = true })

unfoldable pub read_value : ℕ → Cur → Option Value × Cur
unfolding read_kind kind_of
read_value type c = read_kind (kind_of type) c
