-- ===== src/Table.antt =====
-- BlockHandle and ReadBlock of src/db/block.h and src/db/block.cpp, and Footer of src/db/memtable.h
-- and src/db/memtable.cpp.
pub mod RoundTrip
pub mod Build
pub mod Index
mod Runs
use yubindb.Prelude.{
  ℕ, zero, suc, ◌+◌, ◌-◌, ◌*◌, ◌/◌, ◌%◌, ◌^◌, Bool, true, false, ◌&&◌, ◌||◌, not, Option, none,
  some, List, [], ◌∷◌, ◌++◌, ◌==◌, ltb, leb, if◌then◌else◌, length, get_or, take, drop, replicate,
}
use yubindb.State.{State, corruption, is_ok}
use yubindb.Coding.{put_varint64, get_varint64, put_fixed32, encode_fixed32, decode_fixed32}
use yubindb.Crc.{Crc}
use yubindb.Block.{BlockBuilder, new_builder, reset, add, finish, current_size_estimate}
use yubindb.Bloom.{BloomFilter}
use yubindb.Filter.{FilterBuilder, new_filter_builder, add_key, start_block, finish_filters}

-- class BlockHandle
pub record BlockHandle : Type 0 where
  pub offset : ℕ
  pub size : ℕ

-- BlockHandle()
unfoldable pub new_handle : BlockHandle
new_handle = record { offset = 0; size = 0 }

-- EncodeTo
unfoldable pub put_handle : List ℕ → BlockHandle → List ℕ
put_handle dst h = put_varint64 (put_varint64 dst h.offset) h.size

-- DecodeFrom: the result code, the handle, and the rest of the input. A number that is not read
-- stays as it was.
unfoldable pub take_size : ℕ → BlockHandle → Option ℕ × List ℕ → State × BlockHandle × List ℕ
take_size o h (none, q) = (corruption, record h { offset = o }, q)
take_size o h (some n, q) = (State.ok, record { offset = o; size = n }, q)

unfoldable pub take_offset : BlockHandle → Option ℕ × List ℕ → State × BlockHandle × List ℕ
take_offset h (none, p) = (corruption, h, p)
take_offset h (some o, p) = take_size o h (get_varint64 p)

unfoldable pub take_handle : List ℕ → BlockHandle → State × BlockHandle × List ℕ
take_handle input h = take_offset h (get_varint64 input)

-- kTableMagicNumber, in the halves that are stored; BlockHandle::kMaxEncodedLength,
-- Footer::kEncodedLength and kBlockBackSize.
abbrev pub magic_number : ℕ
magic_number = 0xdb4775248b80fb57

abbrev pub max_encoded_length : ℕ
max_encoded_length = 20

abbrev pub encoded_length : ℕ
encoded_length = 48

abbrev pub block_back_size : ℕ
block_back_size = 5

-- class Footer
pub record Footer : Type 0 where
  pub metaindex_handle : BlockHandle
  pub index_handle : BlockHandle

-- std::string::resize
unfoldable pub resize : ℕ → List ℕ → List ℕ
resize n dst = take n dst ++ replicate (n - length dst) 0

-- Footer::EncodeTo; its assertion is left to its caller.
unfoldable pub put_footer : List ℕ → Footer → List ℕ
put_footer dst f =
    let handles =
      resize (2 * max_encoded_length)
        (put_handle (put_handle dst f.metaindex_handle) f.index_handle) in
    put_fixed32 (put_fixed32 handles (magic_number % 2 ^ 32)) (magic_number / 2 ^ 32)

-- Footer::DecodeFrom of kEncodedLength bytes at least, from its end: behind the index handle, behind
-- the metaindex handle, and the whole.
unfoldable pub take_end :
    List ℕ → BlockHandle → State × BlockHandle × List ℕ → State × Footer × List ℕ
take_end input metaindex (s, index, q) = (
  s,
  record { metaindex_handle = metaindex; index_handle = index },
  if is_ok s then drop encoded_length input else q,
)

unfoldable pub take_index : List ℕ → Footer → State × BlockHandle × List ℕ → State × Footer × List ℕ
take_index input f (s, metaindex, p) =
    if is_ok s
    then take_end input metaindex (take_handle p f.index_handle)
    else (s, record f { metaindex_handle = metaindex }, p)

unfoldable pub take_footer : List ℕ → Footer → State × Footer × List ℕ
take_footer input f =
    let low = decode_fixed32 (drop (encoded_length - 8) input) in
    let high = decode_fixed32 (drop (encoded_length - 8 + 4) input) in
    if high * 2 ^ 32 + low == magic_number
    then take_index input f (take_handle input f.metaindex_handle)
    else (corruption, f, input)

-- What ReadBlock does: it returns a code with `*result`, or it runs off its end with `*result` set.
pub data BlockResult : Type 0 where
  returned : State → List ℕ → BlockResult
  no_return : List ℕ → BlockResult

-- The functions of the library snappy.
pub record Snappy : Type 0 where
  pub compress : List ℕ → Option (List ℕ)
  pub get_uncompressed_length : List ℕ → Option ℕ
  pub uncompress : List ℕ → Option (List ℕ)

-- The case kSnappyCompression: GetUncompressedLength returns true where it succeeds, and `len` is 0
-- where it does not.
unfoldable pub read_compressed : Snappy → List ℕ → BlockResult
read_compressed snappy bytes = elim (snappy.get_uncompressed_length bytes) [
  | some len ↦ returned corruption []
  | none ↦ elim (snappy.uncompress bytes) [
    | none ↦ returned corruption []
    | some text ↦ no_return (take 0 text)
  ]
]

-- ReadBlock, with what RandomAccessFile::Read returns for an offset and a number of bytes.
unfoldable pub read_block : Crc → Snappy → (ℕ → ℕ → State × List ℕ) → BlockHandle → BlockResult
read_block crc snappy read_file handle =
    let n = handle.size in
    let (s, content) = read_file handle.offset (n + block_back_size) in
    let stored = decode_fixed32 (drop (n + 1) content) in
    let kind = get_or content n 0 in
    if not (is_ok s) || not (length content == n + block_back_size)
    then returned s []
    else if not (stored == crc.crc32c (take (n + 1) content))
    then returned corruption []
    else if kind == 0
    then no_return content
    else if kind == 1
    then read_compressed snappy (take n content)
    else returned corruption []
