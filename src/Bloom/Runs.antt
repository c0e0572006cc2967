-- ===== src/Bloom/Runs.antt =====
-- A filter of two keys.
use yubindb.Prelude.{ℕ, ◌≡◌, refl, true, false, List, [], ◌∷◌, length, arith}
use yubindb.Bloom.{
  BloomFilter, new_bloom, rotate, or_at, set_bit, has_bit, set_probes, test_probes, filter_bytes,
  bloom_hash, set_keys, create_filter, key_may_match,
}
use yubindb.Bloom.Match.{key_may_match-create_filter}
use yubindb.Sample.{sum}

-- Ten bits a key, six probes.
abbrev ten_bits : BloomFilter
ten_bits = record { bits_key = 10; hash_size = 6 }

ten_bits_lem : new_bloom 10 6 ≡ ten_bits
unfolding new_bloom
ten_bits_lem = refl

abbrev two_keys : List (List ℕ)
two_keys = (97 ∷ []) ∷ (98 ∷ 99 ∷ []) ∷ []

length-two_keys : length (create_filter sum ten_bits two_keys []) ≡ 9
unfolding create_filter set_keys set_probes set_bit or_at filter_bytes bloom_hash sum rotate
length-two_keys = refl

other_key : key_may_match sum (100 ∷ 101 ∷ []) (create_filter sum ten_bits two_keys []) ≡ false
unfolding key_may_match create_filter set_keys set_probes test_probes set_bit has_bit or_at
    filter_bytes bloom_hash rotate sum
other_key = refl

key_may_match-create_filter_example :
    key_may_match sum (98 ∷ 99 ∷ []) (create_filter sum ten_bits two_keys []) ≡ true
key_may_match-create_filter_example =
    key_may_match-create_filter sum ten_bits ((97 ∷ []) ∷ []) [] (98 ∷ 99 ∷ []) (omega arith)
      (omega arith)
