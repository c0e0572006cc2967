-- ===== src/Table/Build.antt =====
-- class Tablebuilder of src/db/memtable.h and src/db/memtable.cpp.
use yubindb.Prelude.{
  ℕ, ◌+◌, Bool, true, false, not, Option, none, some, List, [], ◌∷◌, ◌==◌, leb, if◌then◌else◌,
  length,
}
use yubindb.State.{State, is_ok}
use yubindb.Coding.{encode_fixed32}
use yubindb.Crc.{Crc}
use yubindb.Block.{BlockBuilder, new_builder, reset, add, finish, current_size_estimate}
use yubindb.Bloom.{BloomFilter}
use yubindb.Filter.{FilterBuilder, new_filter_builder, add_key, start_block, finish_filters}
use yubindb.Table.{BlockHandle, new_handle, put_handle, put_footer, block_back_size, Snappy}

-- class Tablebuilder over a file of type `F`, with Options::block_size. `compressed_output` is empty
-- between the calls. The compression is kSnappyCompression or not.
pub record TableBuilder (F : Type 0) : Type 0 where
  pub block_size : ℕ
  pub has_compression : Bool
  pub file : F
  pub offset : ℕ
  pub state : State
  pub data_block : BlockBuilder
  pub index_block : BlockBuilder
  pub last_key : List ℕ
  pub num_entries : ℕ
  pub closed : Bool
  pub filter_block : FilterBuilder
  pub pending_index_entry : Bool
  pub pending_handle : BlockHandle

-- Tablebuilder(opt, f), with block_size, block_restart_interval and compression of the options
unfoldable pub new_table_builder : {F : Type 0} → ℕ → ℕ → Bool → F → TableBuilder F
new_table_builder size interval compression f = record {
  block_size = size;
  has_compression = compression;
  file = f;
  offset = 0;
  state = State.ok;
  data_block = new_builder interval;
  index_block = new_builder 1;
  last_key = [];
  num_entries = 0;
  closed = false;
  filter_block = new_filter_builder;
  pending_index_entry = false;
  pending_handle = new_handle;
}

-- Append and Flush of the file are parameters. So is what a view of the compressed bytes shows when
-- the string that holds them has been cleared (`cleared`), which is how WriteBlock passes them on.
module _ {F : Type 0} (append_file : F → List ℕ → State × F) (flush_file : F → F) (crc : Crc)
    (snappy : Snappy) (cleared : List ℕ → List ℕ) (hash : List ℕ → ℕ) (bloom : BloomFilter) where
  -- WriteRawBlock: the handle of the block, and the builder.
  unfoldable pub write_raw_block : List ℕ → ℕ → TableBuilder F → BlockHandle × TableBuilder F
  write_raw_block contents kind t =
      let handle : BlockHandle = record { offset = t.offset; size = length contents } in
      let (s, f) = append_file t.file contents in
      let trailer = kind ∷ encode_fixed32 (crc.extend (crc.crc32c contents) (kind ∷ [])) in
      let (s', f') = append_file f trailer in
      if not (is_ok s)
      then (handle, record t { file = f; state = s })
      else if not (is_ok s')
      then (handle, record t { file = f'; state = s' })
      else (
        handle,
        record t { file = f'; state = s'; offset = t.offset + (length contents + block_back_size) },
      )

  -- WriteBlock of the bytes that Finish of a block returned. Its Reset is left to its caller.
  unfoldable pub write_block : List ℕ → TableBuilder F → BlockHandle × TableBuilder F
  write_block raw t =
      if not t.has_compression then write_raw_block raw 0 t else elim (snappy.compress raw) [
        | none ↦ write_raw_block raw 0 t
        | some packed ↦ write_raw_block (cleared packed) 1 t
      ]

  -- Flush. `none`: an assertion fails.
  unfoldable pub flush_block : TableBuilder F → Option (TableBuilder F)
  flush_block t =
      let (raw, used) = finish t.data_block in
      let (handle, written) = write_block raw t in
      if t.closed
      then none
      else if length t.data_block.buffer == 0
      then some t
      else if t.pending_index_entry
      then none
      else some (record written {
        data_block = reset used;
        pending_handle = handle;
        pending_index_entry = false;
        file = flush_file written.file;
        filter_block = start_block hash bloom written.offset t.filter_block;
      })

  -- The head of Add: the entry of the block before, if it is pending.
  unfoldable pub add_pending : List ℕ → TableBuilder F → Option (TableBuilder F)
  add_pending key t =
      if not t.pending_index_entry
      then some t
      else if length t.data_block.buffer == 0
      then some (record t {
        index_block = add t.index_block key (put_handle [] t.pending_handle);
        pending_index_entry = false;
      })
      else none

  -- Add. `none`: an assertion fails.
  unfoldable pub add_entry : List ℕ → List ℕ → TableBuilder F → Option (TableBuilder F)
  add_entry key val t = if t.closed then none else elim (add_pending key t) [
    | none ↦ none
    | some u ↦
        let block = add u.data_block key val in
        let added : TableBuilder F = record u {
          filter_block = add_key key u.filter_block;
          last_key = key;
          num_entries = u.num_entries + 1;
          data_block = block;
        } in
        if leb u.block_size (current_size_estimate block) then flush_block added else some added
  ]

  -- The filter block, if the state is ok.
  unfoldable pub finish_filter : TableBuilder F → BlockHandle × TableBuilder F
  finish_filter t =
      let (contents, b) = finish_filters hash bloom t.filter_block in
      if is_ok t.state
      then write_raw_block contents 0 (record t { filter_block = b })
      else (new_handle, t)

  -- The metaindex block: the handle of the filter block, under "filter.bloom".
  unfoldable pub finish_metaindex : BlockHandle → TableBuilder F → BlockHandle × TableBuilder F
  finish_metaindex filter_handle t =
      let name = 102 ∷ 105 ∷ 108 ∷ 116 ∷ 101 ∷ 114 ∷ 46 ∷ 98 ∷ 108 ∷ 111 ∷ 111 ∷ 109 ∷ [] in
      let block = add (new_builder t.data_block.interval) name (put_handle [] filter_handle) in
      if is_ok t.state then write_block (finish block).0 t else (new_handle, t)

  -- The index block, with the entry that is pending.
  unfoldable pub finish_index : TableBuilder F → BlockHandle × TableBuilder F
  finish_index t =
      let last =
        if t.pending_index_entry
        then add t.index_block t.last_key (put_handle [] t.pending_handle)
        else t.index_block in
      let (raw, used) = finish last in
      let (handle, u) = write_block raw t in
      if is_ok t.state
      then (handle, record u { index_block = reset used; pending_index_entry = false })
      else (new_handle, t)

  -- The index block and the footer.
  unfoldable pub index_and_footer : BlockHandle → TableBuilder F → State × TableBuilder F
  index_and_footer metaindex t =
      let (index, t3) = finish_index t in
      let footer = put_footer [] (record { metaindex_handle = metaindex; index_handle = index }) in
      let (s, f) = append_file t3.file footer in
      if not (is_ok t3.state) then (t3.state, t3) else (
        s,
        record t3 {
          state = s;
          file = f;
          offset = if is_ok s then t3.offset + length footer else t3.offset;
        },
      )

  -- Finish: the result code and the builder. `none`: an assertion fails.
  unfoldable pub finish_table : TableBuilder F → Option (State × TableBuilder F)
  finish_table t = elim (flush_block t) [
    | none ↦ none
    | some flushed ↦
        let (filter_handle, t1) = finish_filter (record flushed { closed = true }) in
        let (metaindex_handle, t2) = finish_metaindex filter_handle t1 in
        some (index_and_footer metaindex_handle t2)
  ]
