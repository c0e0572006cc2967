-- ===== src/Table/Runs.antt =====
-- Runs of footers, of ReadBlock and of Tablebuilder.
use yubindb.Prelude.{
  ℕ, ◌+◌, ◌≡◌, ◌≢◌, refl, ◌⊎◌, false, none, some, List, [], ◌∷◌, ◌++◌, length, arith,
}
use yubindb.State.{State, is_ok}
use yubindb.Bloom.{BloomFilter}
use yubindb.Block.{new_builder, add, start_entry, shared_length, current_size_estimate}
use yubindb.Coding.{put_varint32, encode_varint32}
use yubindb.Filter.{add_key, new_filter_builder}
use yubindb.Sample.{sum, sum_crc}
use yubindb.Table.{new_handle, Footer, put_footer, take_footer, returned, Snappy, read_block}
use yubindb.Table.Build.{
  TableBuilder, new_table_builder, add_pending, add_entry, finish_table, flush_block,
  index_and_footer, finish_index, finish_metaindex, finish_filter, write_block, write_raw_block,
}
use yubindb.Table.RoundTrip.{take_footer-put_footer, read_block-returned}
use yubindb.Table.Index.{Run, behind_metaindex, Finished, Run-index_block}

abbrev two_handles : Footer
two_handles = record {
  metaindex_handle = record { offset = 300; size = 40 };
  index_handle = record { offset = 345; size = 70000 };
}

abbrev blank_footer : Footer
blank_footer = record { metaindex_handle = new_handle; index_handle = new_handle }

take_footer-put_footer_example :
    take_footer (put_footer [] two_handles ++ 7 ∷ []) blank_footer ≡ (State.ok, two_handles, 7 ∷ [])
take_footer-put_footer_example =
    take_footer-put_footer two_handles blank_footer (7 ∷ []) (omega arith, omega arith)
      (omega arith, omega arith)

-- No compression, and a file that ends before the block.
abbrev no_snappy : Snappy
no_snappy = record {
  compress = λ b. none;
  get_uncompressed_length = λ b. none;
  uncompress = λ b. none;
}

abbrev short_file : ℕ → ℕ → State × List ℕ
short_file offset n = (State.ok, 1 ∷ 2 ∷ [])

abbrev no_bytes : List ℕ
no_bytes = []

read_short :
    read_block sum_crc no_snappy short_file (record { offset = 0; size = 10 })
    ≡ returned State.ok []
unfolding read_block is_ok
read_short = refl

read_block-returned_example :
    (no_bytes ≡ []) × ((is_ok State.ok ≡ false) ⊎ (length (short_file 0 15).1 ≢ 10 + 5))
read_block-returned_example =
    read_block-returned sum_crc no_snappy short_file (record { offset = 0; size = 10 }) State.ok []
      read_short

abbrev keep_bytes : List ℕ → List ℕ → State × List ℕ
keep_bytes file bytes = (State.ok, file ++ bytes)

abbrev same_file : List ℕ → List ℕ
same_file file = file

abbrev ten_bits : BloomFilter
ten_bits = record { bits_key = 10; hash_size = 6 }

abbrev empty_table : TableBuilder (List ℕ)
empty_table = new_table_builder 4096 16 false []

-- One entry.
abbrev one_entry : TableBuilder (List ℕ)
one_entry = record empty_table {
  filter_block = add_key (97 ∷ []) new_filter_builder;
  last_key = 97 ∷ [];
  num_entries = 1;
  data_block = add (new_builder 16) (97 ∷ []) (5 ∷ []);
}

add_one :
    add_entry keep_bytes same_file sum_crc no_snappy same_file sum ten_bits
      (97 ∷ [])
      (5 ∷ [])
      empty_table
    ≡ some one_entry
unfolding add_entry add_pending new_table_builder current_size_estimate add new_builder start_entry
    shared_length put_varint32 encode_varint32
add_one = refl

abbrev finished : TableBuilder (List ℕ)
finished =
    elim (finish_table keep_bytes same_file sum_crc no_snappy same_file sum ten_bits one_entry) [
      | none ↦ one_entry
      | some r ↦ r.1
    ]

finish_one :
    finish_table keep_bytes same_file sum_crc no_snappy same_file sum ten_bits one_entry
    ≡ some (State.ok, finished)
unfolding finish_table flush_block new_table_builder add put_varint32 start_entry new_builder
    encode_varint32 shared_length index_and_footer is_ok finish_index finish_metaindex finish_filter
    write_block write_raw_block
finish_one = refl

Run-index_block_example :
    (flushed : TableBuilder (List ℕ)) × (flush_block keep_bytes same_file sum_crc no_snappy
        same_file sum ten_bits one_entry
      ≡ some flushed)
    × Finished keep_bytes same_file sum_crc no_snappy same_file sum ten_bits
        (behind_metaindex keep_bytes same_file sum_crc no_snappy same_file sum ten_bits flushed)
        finished
Run-index_block_example =
    Run-index_block keep_bytes same_file sum_crc no_snappy same_file sum ten_bits 4096 16 false []
      one_entry finished (Run.after_add (97 ∷ []) (5 ∷ []) Run.start add_one) finish_one
