-- ===== src/Block.antt =====
-- Blockbuilder and Block of src/db/block.h and src/db/block.cpp: a block of a table is a row
-- of entries, whose keys share a prefix with the key before, and the offsets of the entries that
-- share none. A view into the block is an offset and a length.
pub mod Entry
pub mod Build
pub mod Iterate
pub mod RoundTrip
mod Runs
use Prim.Native.Nat.{Ordering}
use yubindb.Prelude.{
  ℕ, zero, suc, ◌+◌, ◌-◌, ◌*◌, ◌/◌, ◌%◌, ◌^◌, bit_or, Bool, true, false, ◌||◌, ◌&&◌, not, Option,
  none, some, List, [], ◌∷◌, ◌++◌, ◌==◌, ltb, leb, if◌then◌else◌, length, take, drop, get_or,
}
use yubindb.Coding.{put_varint32, put_fixed32, decode_fixed32, get_varint32_ptr}
use yubindb.Key.{cmp}

-- class Blockbuilder, with `opt->block_restart_interval`.
pub record BlockBuilder : Type 0 where
  pub interval : ℕ
  pub buffer : List ℕ
  pub restarts : List ℕ
  pub entrynum : ℕ
  pub finished : Bool
  pub last_key : List ℕ

-- Blockbuilder(options)
unfoldable pub new_builder : ℕ → BlockBuilder
new_builder interval = record {
  interval = interval;
  buffer = [];
  restarts = 0 ∷ [];
  entrynum = 0;
  finished = false;
  last_key = [];
}

-- Reset
unfoldable pub reset : BlockBuilder → BlockBuilder
reset b = record b { buffer = []; restarts = 0 ∷ []; entrynum = 0; finished = false; last_key = [] }

-- CurrentSizeEstimate
unfoldable pub current_size_estimate : BlockBuilder → ℕ
current_size_estimate b = length b.buffer + length b.restarts * 4 + 4

-- `while (shared < minlen && last_key_view[shared] == key[shared]) shared++;`
unfoldable pub shared_length : List ℕ → List ℕ → ℕ
shared_length [] ys = 0
shared_length (x ∷ xs) [] = 0
shared_length (x ∷ xs) (y ∷ ys) = let rest = shared_length xs ys in if x == y then suc rest else 0

-- The two branches at the start of Add: how much of the key is shared, and the restart point.
unfoldable pub start_entry : BlockBuilder → List ℕ → ℕ × BlockBuilder
start_entry b key =
    if ltb b.entrynum b.interval
    then (shared_length b.last_key key, b)
    else (0, record b { restarts = b.restarts ++ (length b.buffer % 2 ^ 32) ∷ []; entrynum = 0 })

-- Add
unfoldable pub add : BlockBuilder → List ℕ → List ℕ → BlockBuilder
add b key value =
    let (shared, c) = start_entry b key in
    let non_shared = length key - shared in
    let sizes =
      put_varint32 (put_varint32 (put_varint32 c.buffer (shared % 2 ^ 32)) (non_shared % 2 ^ 32))
        (length value % 2 ^ 32) in
    record c {
      buffer = (sizes ++ drop shared key) ++ value;
      last_key = take shared c.last_key ++ drop shared key;
      entrynum = c.entrynum + 1;
    }

unfoldable pub put_restarts : List ℕ → List ℕ → List ℕ
put_restarts dst [] = dst
put_restarts dst (r ∷ rs) = put_restarts (put_fixed32 dst r) rs

-- Finish: the contents, and the builder.
unfoldable pub finish : BlockBuilder → List ℕ × BlockBuilder
finish b =
    let buffer = put_fixed32 (put_restarts b.buffer b.restarts) (length b.restarts % 2 ^ 32) in
    (buffer, record b { buffer = buffer; finished = true })

-- class Block: the data and the two fields that the constructor computes. `restart_offset_` is not
-- initialized where the size becomes 0.
pub record Block : Type 0 where
  pub data_bytes : List ℕ
  pub size : ℕ
  pub restart_offset : ℕ

-- NumRestarts
unfoldable pub num_restarts_at : List ℕ → ℕ → ℕ
num_restarts_at bytes size = decode_fixed32 (drop (size - 4) bytes)

-- Block(data)
unfoldable pub open_block : List ℕ → Block
open_block bytes =
    let size = length bytes in
    let n = num_restarts_at bytes size in
    let bad : Block = record { data_bytes = bytes; size = 0; restart_offset = 0 } in
    if ltb size 4
    then bad
    else if ltb ((size - 4) / 4) n
    then bad
    else record { data_bytes = bytes; size = size; restart_offset = (size - (1 + n) * 4) % 2 ^ 32 }

-- The sizes of an entry, and the bytes behind them.
pub record Sizes : Type 0 where
  pub shared : ℕ
  pub non_shared : ℕ
  pub value_length : ℕ
  pub behind : List ℕ

-- The last test of DecodeEntry, on words of 32 bits.
unfoldable pub check_sizes : Sizes → Option Sizes
check_sizes s =
    if ltb (length s.behind % 2 ^ 32) ((s.non_shared + s.value_length) % 2 ^ 32)
    then none
    else some s

-- The slow path: three varints.
unfoldable pub decode_sizes : List ℕ → Option Sizes
decode_sizes p = elim (get_varint32_ptr p) [
  | none ↦ none
  | some (shared, p1) ↦ elim (get_varint32_ptr p1) [
    | none ↦ none
    | some (non_shared, p2) ↦ elim (get_varint32_ptr p2) [
      | none ↦ none
      | some (len, p3) ↦
          check_sizes
            (record { shared = shared; non_shared = non_shared; value_length = len; behind = p3 })
    ]
  ]
]

-- DecodeEntry on the bytes between `p` and `limit`.
unfoldable pub decode_entry : List ℕ → Option Sizes
decode_entry [] = none
decode_entry (a ∷ []) = none
decode_entry (a ∷ b ∷ []) = none
decode_entry (a ∷ b ∷ c ∷ p) =
    if ltb (bit_or (bit_or a b) c) 128
    then check_sizes (record { shared = a; non_shared = b; value_length = c; behind = p })
    else decode_sizes (a ∷ b ∷ c ∷ p)

-- class Block::Iter
pub record BlockIter : Type 0 where
  pub data_bytes : List ℕ
  pub restarts : ℕ
  pub num_restarts : ℕ
  pub current : ℕ
  pub restart_index : ℕ
  pub key : List ℕ
  pub value_at : ℕ
  pub value_length : ℕ

-- Iter(data, restarts, num_restarts)
unfoldable pub new_iter : List ℕ → ℕ → ℕ → BlockIter
new_iter bytes restarts n = record {
  data_bytes = bytes;
  restarts = restarts;
  num_restarts = n;
  current = restarts;
  restart_index = n;
  key = [];
  value_at = 0;
  value_length = 0;
}

-- NewIterator
unfoldable pub new_iterator : Block → Option BlockIter
new_iterator b =
    let n = num_restarts_at b.data_bytes b.size in
    if ltb b.size 4
    then none
    else if ltb 0 n
    then some (new_iter b.data_bytes b.restart_offset n)
    else none

unfoldable pub valid : BlockIter → Bool
valid it = ltb it.current it.restarts

-- value()
unfoldable pub value : BlockIter → List ℕ
value it = take it.value_length (drop it.value_at it.data_bytes)

-- NextEntryOffset
unfoldable pub next_entry_offset : BlockIter → ℕ
next_entry_offset it = (it.value_at + it.value_length) % 2 ^ 32

-- GetRestartPoint
unfoldable pub restart_point : BlockIter → ℕ → ℕ
restart_point it index = decode_fixed32 (drop (it.restarts + index * 4) it.data_bytes)

-- SeekToRestartPoint
unfoldable pub seek_to_restart_point : ℕ → BlockIter → BlockIter
seek_to_restart_point index it = record it {
  key = [];
  restart_index = index;
  value_at = restart_point it index;
  value_length = 0;
}

-- `while (… < current_) ++restart_index_`: no more rounds than there are restart points.
unfoldable pub advance_restart : ℕ → BlockIter → BlockIter
advance_restart zero it = it
advance_restart (suc fuel) it =
    let next = advance_restart fuel (record it { restart_index = it.restart_index + 1 }) in
    if ltb (it.restart_index + 1) it.num_restarts
      && ltb (restart_point it (it.restart_index + 1)) it.current
    then next
    else it

-- What ParseNextKey does with the sizes of the entry. The value's offset is that of `p`, which is
-- as far before `limit` as there are bytes behind the sizes, and the rest of the key.
unfoldable pub take_entry : BlockIter → Option Sizes → Bool × BlockIter
take_entry it none = (false, record it { key = [] })
take_entry it (some s) = if ltb (length it.key) s.shared then (false, record it { key = [] }) else (
  true,
  advance_restart it.num_restarts (record it {
    key = take s.shared it.key ++ take s.non_shared s.behind;
    value_at = it.restarts - length s.behind + s.non_shared;
    value_length = s.value_length;
  }),
)

-- ParseNextKey
unfoldable pub parse_next_key : BlockIter → Bool × BlockIter
parse_next_key it =
    let current = next_entry_offset it in
    let entry = decode_entry (take (it.restarts - current) (drop current it.data_bytes)) in
    if leb it.restarts current
    then (false, record it { current = it.restarts; restart_index = it.num_restarts })
    else take_entry (record it { current = current }) entry

-- SeekToFirst
unfoldable pub seek_to_first : BlockIter → BlockIter
seek_to_first it = (parse_next_key (seek_to_restart_point 0 it)).1

-- Next
unfoldable pub next : BlockIter → BlockIter
next it = (parse_next_key it).1

-- `while (ParseNextKey() && NextEntryOffset() < limit)`; each round moves past a byte at least.
unfoldable pub parse_until : ℕ → ℕ → BlockIter → BlockIter
parse_until zero limit it = it
parse_until (suc fuel) limit it =
    let (more, it') = parse_next_key it in
    let rest = parse_until fuel limit it' in
    if more && ltb (next_entry_offset it') limit then rest else it'

-- SeekToLast
unfoldable pub seek_to_last : BlockIter → BlockIter
seek_to_last it =
    parse_until (length it.data_bytes + 1) it.restarts
      (seek_to_restart_point (it.num_restarts - 1) it)

-- `while (GetRestartPoint(restart_index_) >= now_offset)`: `none` where there is no entry before.
unfoldable pub restart_before : ℕ → ℕ → BlockIter → Option ℕ
restart_before now index it = elim index [
  | zero ↦ if leb now (restart_point it 0) then none else some 0
  | suc (i → before) ↦ if leb now (restart_point it (suc i)) then before else some (suc i)
]

-- Prev
unfoldable pub prev : BlockIter → BlockIter
prev it = elim (restart_before it.current it.restart_index it) [
  | none ↦ record it { current = it.restarts; restart_index = it.num_restarts }
  | some i ↦ parse_until (length it.data_bytes + 1) it.current (seek_to_restart_point i it)
]

-- `cmp(…) < 0`
unfoldable pub is_below : List ℕ → List ℕ → Bool
is_below a b = elim (cmp a b) [ Ordering.lt ↦ true | Ordering.eq ↦ false | Ordering.gt ↦ false ]

-- The binary search of Seek over the restart points: `none` where an entry there is bad. A round
-- brings the two ends closer, so as many rounds as there are points are enough.
unfoldable pub seek_restart : ℕ → List ℕ → ℕ → ℕ → BlockIter → Option ℕ
seek_restart zero target left right it = some left
seek_restart (suc fuel) target left right it =
    let mid = (left + right + 1) / 2 in
    let offset = restart_point it mid in
    let upper = seek_restart fuel target mid right it in
    let lower = seek_restart fuel target left (mid - 1) it in
    if ltb left right
    then elim (decode_entry (take (it.restarts - offset) (drop offset it.data_bytes))) [
      | none ↦ none
      | some s ↦
          if not (s.shared == 0)
          then none
          else if is_below (take s.non_shared s.behind) target
          then upper
          else lower
    ]
    else some left

-- The linear search behind it.
unfoldable pub seek_linear : ℕ → List ℕ → BlockIter → BlockIter
seek_linear zero target it = it
seek_linear (suc fuel) target it =
    let (more, it') = parse_next_key it in
    let rest = seek_linear fuel target it' in if more && is_below it'.key target then rest else it'

-- Seek. A bad entry leaves the iterator where it was.
unfoldable pub seek : List ℕ → BlockIter → BlockIter
seek target it = elim (seek_restart it.num_restarts target 0 (it.num_restarts - 1) it) [
  | none ↦ it
  | some left ↦ seek_linear (length it.data_bytes + 1) target (seek_to_restart_point left it)
]
