-- ===== src/Lib.antt =====
-- A library on the runtime of charsiu, which runs language and vision models on the NPU of the RK3588.
--
-- The program has three layers. At the bottom, include/charsiu.h, src/regcmd.c and src/job.c describe one
-- matmul to the hardware: its shape, the sizes of its buffers and where each element lies in them. Above
-- them, src/npudev.c cuts a tensor into slices (src/kslice.h), keeps what each device's input buffer
-- holds (src/reusekey.h) and checks what came back (src/sentinel.h); src/npufp16.c places a group of fp16
-- matmuls in shared buffers (src/fp16plan.h); src/overlap.h decides whether the two cores may run at
-- once. At the top, src/gguf.c reads the model's file and src/tokenizer.c its vocabulary, for the
-- interpreters of src/llama.c, src/vision.c and src/whisper.c.
--
-- The files:
--   Prelude      what the modules share: Boolean tests, lists over native numbers, machine words, the
--                bits of a word, integers.
--   KSlice       src/kslice.h, function by function, and the number of slices that charsiu_npu_add takes.
--   ReuseKey     src/reusekey.h; `Devices` is the part of npu_matmul_inner that packs or reuses, with the
--                caller's memory as a function from addresses to versions; `Fresh` has the step relation
--                of calls, failed ones among them, writes and new buffers.
--   Sentinel     src/sentinel.h, over the list of a buffer's words.
--   Matmul       the shape and the sizes of src/regcmd.c and src/job.c; `Tile` is w_group_index and the
--                offsets built on it, `Accumulator` the read order charsiu_acc_index.
--   Fp16Plan     src/fp16plan.h: charsiu_fp16_make_plan as a fold over the ops.
--   Overlap      src/overlap.h, with the sysfs files and the environment as arguments.
--   Gguf         gguf_open of src/gguf.c over the list of the file's bytes: `Values` is read_value,
--                `Lookup` the gguf_get functions, `Open` the header, the tables and the
--                checks, `Format` the numbers and strings as a writer puts them down.
--   Tokenizer    src/tokenizer.c: `Utf8`, `ByteTable` (build_byte_table), `UnicodeTables` and `Classes`
--                (in_ranges over src/unicode_tables.h), `Pretok` (pretok_next and the cut into words), `Smap`,
--                `Heap`, `Bpe` (bpe_word), `Spm` (encode_span_spm), `Encode` and `Decode`.
--   Stream       the register streams: the emitter, `Matmul` charsiu_emit_matmul of src/regcmd.c, `Job`
--                charsiu_emit_job of src/job.c by the unit that reads the words (`Cna`, `Core`, `Dpu`, `Rdma`;
--                `Requant` is requant_of; `Emit` puts the vendor's files in), `Patch` charsiu_patch_weight_addr, and `Vendor` the captured
--                streams that are replayed or merged.
--   Pack         the fp16 and weight packers of src/regcmd.c: charsiu_fp16_regrow_vcols over blocks that move
--                (`Groups`), and in `Columns` charsiu_fp16_pack_krow, charsiu_fp16_pack_vcol and
--                charsiu_pack_weights_rows as loops that write (`Writes`); `Input` the fp16 input of a matmul.
--   Codes        the codes of a row of src/npuquant.c, packed and unpacked: q_put, q_at and the row loop of
--                w4file_codes.
--   Half         the conversions between half and float on their bits: charsiu_f2h and charsiu_f2h_x4 of
--                include/charsiu.h, charsiu_half_to_float of src/job.c and half_to_float of src/gguf.c.
--   Pool         src/npupool.c over a device that is a parameter (`Device`): the slots and charsiu_pool_get,
--                `Rows` charsiu_pool_rowsn and `Row` charsiu_pool_rows, whose results are the blocks that the device's
--                answers are put at, `Stage` charsiu_pool_stage_all.
--
-- How the code is read. A struct is a record, an enum a data type, and a sequence a list. A number is a
-- native number; where an `unsigned` or a size_t can wrap, its wrap-around is written out (`u32`, `u64`).
-- A getenv is an argument. Loops over a count are recursion on the count. The loop over the chunks of a batch
-- has one round for each row, since a chunk has a row or more. The shift of a
-- subnormal half has ten rounds, since its mantissa has ten bits. The other loops, all of them in the
-- tokenizer, are recursion on fuel: a loop over a text has the text's length, since a step takes a byte or more; a
-- search has the number of its ranges; a merge loop has three rounds for each symbol, since a round takes
-- a candidate out of the heap and puts two in only when it empties a symbol. A walk over the symbols that
-- are left has as many steps as there were symbols, since a link leads to a later one.
--
-- A buffer that is packed is a function from indices to halves or bytes.
--
-- Not modelled: tokenizer_from_gguf, which fills the tokenizer's tables; charsiu_pack_input for bytes and
-- the coefficient tables; floating point (the kernels of src/llama.c, src/npuquant.c and src/vision.c; the
-- product of a job's scales is given by its bits), the ioctls of src/device.c, threads, the tools, and
-- third_party.
pub mod Prelude
pub mod KSlice
pub mod ReuseKey
pub mod Sentinel
pub mod Matmul
pub mod Fp16Plan
pub mod Overlap
pub mod Gguf
pub mod Tokenizer
pub mod Stream
pub mod Pack
pub mod Codes
pub mod Half
pub mod Pool
