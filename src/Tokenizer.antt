-- ===== src/Tokenizer.antt =====
-- The tokenizer of src/tokenizer.c. A `char *` with its length is the list of its bytes.
pub mod Utf8
pub mod ByteTable
pub mod UnicodeTables
pub mod Classes
pub mod Pretok
pub mod Smap
pub mod Heap
pub mod Bpe
pub mod Spm
pub mod Encode
pub mod Decode
mod Tests
