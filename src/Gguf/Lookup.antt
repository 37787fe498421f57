-- ===== src/Gguf/Lookup.antt =====
-- Keys of the gguf table: gguf_find, gguf_get_u32 and gguf_get_str of src/gguf.c.
use charsiu.Prelude.{
  Bool, List, Option, [], false, if◌then◌else◌, length, ltb, max, none, some, take, true, u32, ℕ,
  ◌&&◌, ◌-◌, ◌==◌, ◌∷◌,
}
use charsiu.Gguf.Values.{Value, unsigned, signed, float, string, array}

-- one entry of the key table; a key is a C string, which its first NUL ends
pub record Entry : Type 0 where
  pub key : List ℕ
  pub type : ℕ
  pub value : Value

-- what strcmp sees of a buffer that holds these bytes and then a NUL
unfoldable pub c_string : List ℕ → List ℕ
c_string [] = []
c_string (b ∷ bs) = if b == 0 then [] else b ∷ c_string bs

unfoldable pub bytes_eq : List ℕ → List ℕ → Bool
bytes_eq [] [] = true
bytes_eq [] (b ∷ bs) = false
bytes_eq (a ∷ as') [] = false
bytes_eq (a ∷ as') (b ∷ bs) = a == b && bytes_eq as' bs

-- !strcmp
unfoldable pub str_eq : List ℕ → List ℕ → Bool
unfolding c_string bytes_eq
str_eq a b = bytes_eq (c_string a) (c_string b)

-- gguf_find
unfoldable pub find : List Entry → List ℕ → Option Entry
unfolding str_eq
find [] key = none
find (e ∷ es) key = if str_eq e.key key then some e else find es key

-- the value that gguf_get_u32 takes from an entry
unfoldable pub u32_of : Value → Option ℕ
u32_of (unsigned v) = some (u32 v)
u32_of (signed v) = some (u32 v)
u32_of (float w bits) = none
u32_of (string bytes) = none
u32_of (array at n bytes) = none

-- gguf_get_u32; `none` stands for -1
unfoldable pub get_u32 : List Entry → List ℕ → Option ℕ
unfolding find u32_of
get_u32 entries key = elim (find entries key) [ none ↦ none | some e ↦ u32_of e.value ]

-- the bytes that gguf_get_str copies into a buffer of `max`, before the NUL
unfoldable pub str_of : Value → ℕ → Option (List ℕ)
str_of (string bytes) max =
    if max == 0
    then none
    else some (take (if ltb (max - 1) (length bytes) then max - 1 else length bytes) bytes)
str_of (unsigned v) max = none
str_of (signed v) max = none
str_of (float w bits) max = none
str_of (array at n bytes) max = none

unfoldable pub get_str : List Entry → List ℕ → ℕ → Option (List ℕ)
unfolding find str_of
get_str entries key max = elim (find entries key) [ none ↦ none | some e ↦ str_of e.value max ]
