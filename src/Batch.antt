-- ===== src/Batch.antt =====
-- class WriteBatch of src/db/writebatch.h and src/db/writebatch.cpp: updates that are logged
-- and applied together, as one byte string. Eight bytes of sequence number, four of count, and
-- the entries.
pub mod Contents
pub mod Apply
mod Runs
use yubindb.Prelude.{
  ℕ, zero, suc, ◌+◌, ◌%◌, ◌^◌, ◌≡◌, Option, none, some, List, [], ◌∷◌, ◌++◌, ◌==◌, if◌then◌else◌,
  length, take, drop, replicate,
}
use yubindb.State.{State, corruption}
use yubindb.Coding.{
  encode_fixed32, encode_fixed64, decode_fixed32, decode_fixed64, put_length_prefixed,
  get_length_prefixed,
}
use yubindb.Key.{ValueType, deletion, value}
use yubindb.Memtable.{Skiplist, add}

-- Headsize
abbrev pub head_size : ℕ
head_size = 12

-- `seq` is not initialized by the constructor.
pub record WriteBatch : Type 0 where
  pub mate : List ℕ
  pub seq : ℕ

-- Clear
unfoldable pub clear : WriteBatch → WriteBatch
clear b = record b { mate = replicate head_size 0 }

-- Count, as a word of 32 bits: the `int` of the source is read as that word, also where 2 ^ 31
-- updates or more make it negative.
unfoldable pub count : WriteBatch → ℕ
count b = decode_fixed32 (drop 8 b.mate)

-- SetCount
unfoldable pub set_count : WriteBatch → ℕ → WriteBatch
set_count b n = record b {
  mate = take 8 b.mate ++ (encode_fixed32 (n % 2 ^ 32) ++ drop head_size b.mate);
}

-- Sequence and SetSequence
unfoldable pub sequence : WriteBatch → ℕ
sequence b = decode_fixed64 b.mate

unfoldable pub set_sequence : WriteBatch → ℕ → WriteBatch
set_sequence b seq = record b { mate = encode_fixed64 seq ++ drop 8 b.mate }

-- Put
unfoldable pub put : WriteBatch → List ℕ → List ℕ → WriteBatch
put b key v =
    let b' = set_count b (count b + 1) in
    record b' { mate = put_length_prefixed (put_length_prefixed (b'.mate ++ 1 ∷ []) key) v }

-- Delete
unfoldable pub delete : WriteBatch → List ℕ → WriteBatch
delete b key =
    let b' = set_count b (count b + 1) in
    record b' { mate = put_length_prefixed (b'.mate ++ 0 ∷ []) key }

-- What `append(const char*)` appends: the bytes before the first that is zero.
unfoldable pub c_string : List ℕ → List ℕ
c_string [] = []
c_string (b ∷ bs) = let rest = c_string bs in if b == 0 then [] else b ∷ rest

-- Append. The string of the source ends in a zero byte, so the pointer is a C string.
unfoldable pub append : WriteBatch → WriteBatch → WriteBatch
append b source =
    let b' = set_count b (count source + count b) in
    record b' { mate = b'.mate ++ c_string (drop head_size source.mate) }

module _ {T : Type 0} (table : Skiplist T) (now_seq expected : ℕ) where
  -- The loop of InsertInto and the test behind it. Every entry is added with the sequence number of
  -- the batch; the member `seq` counts up. `none`: not over when the fuel is.
  unfoldable pub insert_loop : ℕ → List ℕ → ℕ → ℕ → T → Option (State × ℕ × T)
  insert_loop zero ptr now_cnt seq m = none
  insert_loop (suc fuel) [] now_cnt seq m =
      some (if now_cnt == expected then State.ok else corruption, seq, m)
  insert_loop (suc fuel) (type ∷ ptr) now_cnt seq m =
      let next = λ (p : List ℕ) (t : ValueType) (key v : List ℕ).
        insert_loop fuel p ((now_cnt + 1) % 2 ^ 32) ((seq + 1) % 2 ^ 64)
          (add table now_seq t key v m) in
      let (key, at_value) = get_length_prefixed ptr in
      let (v, behind) = get_length_prefixed at_value in
      if type == 1
      then elim key [
        | none ↦ some (corruption, seq, m)
        | some k ↦ elim v [ none ↦ some (corruption, seq, m) | some x ↦ next behind value k x ]
      ]
      else if type == 0
      then elim key [ none ↦ some (corruption, seq, m) | some k ↦ next at_value deletion k [] ]
      else some (corruption, seq, m)

-- InsertInto. Each round takes a byte at least. The batch has its header.
unfoldable pub insert_into :
    {T : Type 0} → Skiplist T → WriteBatch → T → Option (State × WriteBatch × T)
insert_into table b m =
    let ptr = drop head_size b.mate in
    elim (insert_loop table (sequence b) (count b) (length ptr + 1) ptr 0 b.seq m) [
      | none ↦ none
      | some (s, seq, m') ↦ some (s, record b { seq = seq }, m')
    ]

-- SetContents. Its assertion names a constant that is not declared.
unfoldable pub set_contents : WriteBatch → List ℕ → WriteBatch
set_contents b contents = record b { mate = contents }
