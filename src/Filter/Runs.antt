-- ===== src/Filter/Runs.antt =====
-- A filter block of three blocks.
use yubindb.Prelude.{◌≡◌, refl, true, List, [], ◌∷◌, ◌++◌, length, arith}
use yubindb.Bloom.{
  BloomFilter, create_filter, set_keys, set_probes, set_bit, or_at, filter_bytes, bloom_hash,
  rotate,
}
use yubindb.Filter.{new_filter_builder, finish_filters, new_filter_reader, filter_may_match}
use yubindb.Filter.Layout.{filters}
use yubindb.Filter.Blocks.{KeyBlock, groups, filter_blocks, filter_may_match-filter_blocks}
use yubindb.Sample.{sum}

-- Ten bits a key, six probes.
abbrev ten_bits : BloomFilter
ten_bits = record { bits_key = 10; hash_size = 6 }

abbrev first_blocks : List KeyBlock
first_blocks = (0, (97 ∷ []) ∷ []) ∷ []

abbrev last_blocks : List KeyBlock
last_blocks = (5000, (100 ∷ []) ∷ []) ∷ []

abbrev all_blocks : List KeyBlock
all_blocks = first_blocks ++ (3000, [] ++ (98 ∷ 99 ∷ []) ∷ []) ∷ last_blocks

length-filters : length (filters sum ten_bits (groups all_blocks)) ≡ 27
unfolding create_filter set_keys set_probes set_bit or_at filter_bytes bloom_hash sum rotate
length-filters = refl

filter_may_match-filter_blocks_example :
    filter_may_match sum 3000 (98 ∷ 99 ∷ []) (
      new_filter_reader
        (finish_filters sum ten_bits (filter_blocks sum ten_bits all_blocks new_filter_builder)).0)
    ≡ true
filter_may_match-filter_blocks_example =
    filter_may_match-filter_blocks sum ten_bits first_blocks last_blocks 3000 [] [] (98 ∷ 99 ∷ [])
      (omega arith, tt) (omega arith) (omega (arith, length-filters))
      (omega arith, (omega arith, (omega arith, tt)))
