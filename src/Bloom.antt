-- ===== src/Bloom.antt =====
-- src/util/bloom.h and src/util/bloom.cpp: the Bloom filter of a row of keys.
pub mod Bits
pub mod Match
mod Runs
use yubindb.Prelude.{
  ℕ, zero, suc, ◌+◌, ◌-◌, ◌*◌, ◌/◌, ◌%◌, ◌^◌, bit_and, bit_or, Bool, true, false, List, [], ◌∷◌,
  ◌++◌, ◌==◌, ltb, if◌then◌else◌, length, take, drop, get_or, replicate,
}

-- class BloomFilter
pub record BloomFilter : Type 0 where
  pub bits_key : ℕ
  pub hash_size : ℕ

-- BloomFilter(bits): `product` is the double `bits * 0.69`, cut to a size_t.
unfoldable pub new_bloom : ℕ → ℕ → BloomFilter
new_bloom bits product =
    let at_least = if ltb product 1 then 1 else product in
    record { bits_key = bits; hash_size = if ltb 30 at_least then 30 else at_least }

-- `(h >> 17) | (h << 15)`, on uint32_t
unfoldable pub rotate : ℕ → ℕ
rotate h = bit_or (h / 2 ^ 17) (h * 2 ^ 15 % 2 ^ 32)

-- `array[at] |= mask`. A byte with one of its bits set is a byte.
unfoldable pub or_at : ℕ → ℕ → List ℕ → List ℕ
or_at at mask [] = []
or_at zero mask (b ∷ bs) = bit_or b mask ∷ bs
or_at (suc at) mask (b ∷ bs) = b ∷ or_at at mask bs

unfoldable pub set_bit : ℕ → List ℕ → List ℕ
set_bit pos array = or_at (pos / 8) (2 ^ (pos % 8)) array

-- `(array[pos / 8] & (1 << (pos % 8))) == 0`, negated
unfoldable pub has_bit : ℕ → List ℕ → Bool
has_bit pos array = if bit_and (get_or array (pos / 8) 0) (2 ^ (pos % 8)) == 0 then false else true

-- The inner loop of CreateFiler, for `rounds` probes.
unfoldable pub set_probes : ℕ → ℕ → ℕ → ℕ → List ℕ → List ℕ
set_probes zero bits delta h array = array
set_probes (suc rounds) bits delta h array =
    set_probes rounds bits delta ((h + delta) % 2 ^ 32) (set_bit (h % bits % 2 ^ 32) array)

-- The loop of KeyMayMatch.
unfoldable pub test_probes : ℕ → ℕ → ℕ → ℕ → List ℕ → Bool
test_probes zero bits delta h array = true
test_probes (suc rounds) bits delta h array =
    let rest = test_probes rounds bits delta ((h + delta) % 2 ^ 32) array in
    if has_bit (h % bits % 2 ^ 32) array then rest else false

-- `bits` of CreateFiler, a multiple of eight from 64 on.
unfoldable pub filter_bytes : BloomFilter → ℕ → ℕ
filter_bytes f n =
    let bits = f.bits_key * n % 2 ^ 64 in ((if ltb bits 64 then 64 else bits) + 7) % 2 ^ 64 / 8

-- std::hash of a string view is a parameter.
module _ (hash : List ℕ → ℕ) where
  -- BloomHash
  unfoldable pub bloom_hash : List ℕ → ℕ
  bloom_hash key = hash key % 2 ^ 32

  -- The outer loop of CreateFiler.
  unfoldable pub set_keys : ℕ → ℕ → List (List ℕ) → List ℕ → List ℕ
  set_keys probes bits [] array = array
  set_keys probes bits (key ∷ keys) array =
      let h = bloom_hash key in
      set_keys probes bits keys (set_probes probes bits (rotate h) h array)

  -- CreateFiler
  unfoldable pub create_filter : BloomFilter → List (List ℕ) → List ℕ → List ℕ
  create_filter f keys filter =
      let bytes = filter_bytes f (length keys) in
      filter
      ++ (set_keys f.hash_size (bytes * 8) keys (replicate bytes 0) ++ (f.hash_size % 256) ∷ [])

  -- KeyMayMatch. The number of probes is read as a char: from 128 on it is a huge size_t, and above
  -- 30 as well.
  unfoldable pub key_may_match : List ℕ → List ℕ → Bool
  key_may_match key filter =
      let len = length filter in
      let probes = get_or filter (len - 1) 0 in
      let h = bloom_hash key in
      if ltb len 2
      then false
      else if ltb 30 probes
      then true
      else test_probes probes ((len - 1) * 8) (rotate h) h filter
