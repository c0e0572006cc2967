-- ===== src/Filter.antt =====
-- FilterBlockbuilder and FilterBlockReader of src/db/filterblock.h and src/db/filterblock.cpp.
pub mod Layout
pub mod Match
pub mod Blocks
mod Runs
use yubindb.Prelude.{
  ℕ, zero, suc, ◌+◌, ◌-◌, ◌*◌, ◌/◌, ◌%◌, ◌^◌, Bool, true, false, ◌&&◌, Option, none, some, List, [],
  ◌∷◌, ◌++◌, ◌==◌, ltb, leb, if◌then◌else◌, length, get_or, take, drop,
}
use yubindb.Coding.{put_fixed32, decode_fixed32, decode_fixed64}
use yubindb.Bloom.{BloomFilter, create_filter, key_may_match}

-- kFilterBaseLg and kFilterBase
abbrev pub filter_base_lg : ℕ
filter_base_lg = 11

abbrev pub filter_base : ℕ
filter_base = 2 ^ 11

-- class FilterBlockbuilder; `tmp_keys_` is empty between the calls.
pub record FilterBuilder : Type 0 where
  pub keys : List ℕ
  pub start : List ℕ
  pub result : List ℕ
  pub filter_offsets : List ℕ

-- FilterBlockbuilder()
unfoldable pub new_filter_builder : FilterBuilder
new_filter_builder = record { keys = []; start = []; result = []; filter_offsets = [] }

-- AddKey
unfoldable pub add_key : List ℕ → FilterBuilder → FilterBuilder
add_key key b = record b { start = b.start ++ length key ∷ []; keys = b.keys ++ key }

-- The loop of CreateNewfilter: the keys by their sizes.
unfoldable pub split_keys : List ℕ → List ℕ → List (List ℕ)
split_keys [] p = []
split_keys (n ∷ sizes) p = take n p ∷ split_keys sizes (drop n p)

-- The loop of Finish.
unfoldable pub put_offsets : List ℕ → List ℕ → List ℕ
put_offsets dst [] = dst
put_offsets dst (o ∷ os) = put_offsets (put_fixed32 dst o) os

-- std::hash of a string view is a parameter; the filter is the global `bloomfit`.
module _ (hash : List ℕ → ℕ) (bloom : BloomFilter) where
  -- CreateNewfilter
  unfoldable pub create_new_filter : FilterBuilder → FilterBuilder
  create_new_filter b =
      let offsets = b.filter_offsets ++ (length b.result % 2 ^ 32) ∷ [] in
      let made : FilterBuilder = record {
        keys = [];
        start = [];
        result = create_filter hash bloom (split_keys b.start b.keys) b.result;
        filter_offsets = offsets;
      } in
      if length b.start == 0 then record b { filter_offsets = offsets } else made

  -- The loop of StartBlock: a round adds an offset, so that it runs as often as offsets are missing.
  unfoldable pub create_filters : ℕ → FilterBuilder → FilterBuilder
  create_filters zero b = b
  create_filters (suc missing) b = create_filters missing (create_new_filter b)

  -- StartBlock
  unfoldable pub start_block : ℕ → FilterBuilder → FilterBuilder
  start_block block_offset b =
      create_filters (block_offset / filter_base - length b.filter_offsets) b

  -- Finish: what it returns, and the builder behind it.
  unfoldable pub finish_filters : FilterBuilder → List ℕ × FilterBuilder
  finish_filters b =
      let last = if length b.start == 0 then b else create_new_filter b in
      let result =
        put_fixed32 (put_offsets last.result last.filter_offsets) (length last.result % 2 ^ 32)
        ++ filter_base_lg ∷ [] in
      (result, record last { result = result })

-- class FilterBlockReader: `data` is the contents, and `offset` the place in them.
pub record FilterReader : Type 0 where
  pub contents : List ℕ
  pub offset : ℕ
  pub num : ℕ
  pub base_lg : ℕ

-- FilterBlockReader(contents). The last byte is read as a char; it is 11 where the builder wrote it.
unfoldable pub new_filter_reader : List ℕ → FilterReader
new_filter_reader contents =
    let n = length contents in
    let base_lg = get_or contents (n - 1) 0 in
    let index_offset = decode_fixed32 (drop (n - 5) contents) in
    if ltb n 5
    then record { contents = []; offset = 0; num = 0; base_lg = 0 }
    else if ltb (n - 5) index_offset
    then record { contents = contents; offset = 0; num = 0; base_lg = base_lg }
    else record {
      contents = contents;
      offset = index_offset;
      num = (n - 5 - index_offset) / 4;
      base_lg = base_lg;
    }

-- DecodeFixed64 as a uint32_t. Of the last offset it reads three bytes behind the block, which do
-- not show in the word.
unfoldable pub offset_at : FilterReader → ℕ → ℕ
offset_at r i = decode_fixed64 (drop (r.offset + i * 4) r.contents) % 2 ^ 32

-- FilterBlockReader::KeyMayMatch
unfoldable pub filter_may_match : (List ℕ → ℕ) → ℕ → List ℕ → FilterReader → Bool
filter_may_match hash block_offset key r =
    let index = block_offset / 2 ^ r.base_lg in
    let start = offset_at r index in
    let limit = offset_at r (index + 1) in
    if ltb index r.num
    then (if leb start limit && leb limit r.offset
        then key_may_match hash key (take (limit - start) (drop start r.contents))
        else if start == limit
        then false
        else true)
    else true
