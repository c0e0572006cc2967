-- ===== src/Memtable.antt =====
-- class Memtable of src/db/memtable.h and src/db/memtable.cpp, over the skip list that
-- src/util/skiplistpg.h and src/util/skiplistpg.cpp wrap. The list itself is a library that is
-- not in the repository: a parameter, with what its documentation says of it.
pub mod Entry
pub mod Lookup
mod Runs
use mathlib.Core.Option
use Prim.Native.Nat.{Ordering}
use yubindb.Prelude.{
  ℕ, ◌+◌, ◌%◌, ◌^◌, ◌≡◌, ◌≢◌, ◌↔◌, ◌⊎◌, bit_and, Bool, true, false, Option, none, some, List, [],
  ◌++◌, ◌==◌, ◌||◌, leb, if◌then◌else◌, length, take, drop,
}
use yubindb.State.{State, not_found}
use yubindb.Coding.{encode_varint32, encode_fixed64, varint_length}
use yubindb.Key.{
  ValueType, pack_sequence_and_type, InternalKey, extract_user_key, get_tag, compare_views, cmp,
  Lookey, inter_key, get_size, skiplist_key, NodeValue, skiplist_val,
}

-- struct node
pub record Node : Type 0 where
  pub key : InternalKey
  pub stored : NodeValue

-- skiplist_insert and skiplist_find_greater_or_equal, with my_cmp.
pub record Skiplist (T : Type 0) : Type 0 where
  pub insert : Node → T → T
  pub find_ge : InternalKey → T → Option Node

-- The library orders its nodes by `cmp`, and finds the first that is not below a key. `Holds n t`:
-- the node is in the list.
pub record IsSkiplist {T : Type 0} (table : Skiplist T) (Holds : Node → T → Type 0) : Type 0 where
  pub inserted : (n m : Node) (t : T) → Holds m (table.insert n t) ↔ ((m ≡ n) ⊎ Holds m t)
  pub held : (k : InternalKey) (t : T) (n : Node) → table.find_ge k t ≡ some n → Holds n t
  pub not_below :
      (k : InternalKey) (t : T) (n : Node) → table.find_ge k t ≡ some n → cmp n.key k ≢ Ordering.lt
  pub first :
      (k : InternalKey) (t : T) (n m : Node)
      → table.find_ge k t ≡ some n
      → Holds m t
      → cmp m.key k ≢ Ordering.lt
      → cmp m.key n.key ≢ Ordering.lt
  pub all_below :
      (k : InternalKey) (t : T) (m : Node)
      → table.find_ge k t ≡ none
      → Holds m t
      → cmp m.key k ≡ Ordering.lt

-- The bytes that Memtable::Add writes to `buf`; the lengths are uint32_t.
unfoldable pub entry_bytes : ℕ → ValueType → List ℕ → List ℕ → List ℕ
entry_bytes seq t key value =
    let key_size = length key % 2 ^ 32 in
    let val_size = length value % 2 ^ 32 in
    encode_varint32 ((key_size + 8) % 2 ^ 32)
    ++ (take key_size key
        ++ (encode_fixed64 (pack_sequence_and_type seq t)
            ++ (encode_varint32 val_size ++ take val_size value)))

-- Skiplist::Insert takes the key and the value of its node from the bytes.
unfoldable pub node_of : List ℕ → Node
node_of buf = record { key = skiplist_key buf; stored = skiplist_val buf }

-- `memcpy(value->data(), found->val.c_str() + VarintLength(val_size), val_size)`: `none` where it
-- reads behind the end of the string, which is undefined.
unfoldable pub copy_value : List ℕ → ℕ → Option (List ℕ)
copy_value val val_size =
    if val_size == 0 || leb (varint_length val_size + val_size) (length val)
    then some (take val_size (drop (varint_length val_size) val))
    else none

-- `(tag & 0xf) == …`: what Get does with the node it found: `*value` and `*s`. The size is read from
-- the string's start; the size of an empty string is the byte that Val wrote at its end.
unfoldable pub read_node : Node → List ℕ → State → Option (List ℕ × State)
read_node n value s =
    let kind = bit_and (get_tag n.key) 15 in
    let copied = copy_value n.stored.val (get_size (n.stored.val ++ n.stored.past)) in
    if kind == 1
    then Option.map (λ v. (v, s)) copied
    else if kind == 0
    then some (value, not_found)
    else some (value, s)

module _ {T : Type 0} (table : Skiplist T) where
  -- Memtable::Add
  unfoldable pub add : ℕ → ValueType → List ℕ → List ℕ → T → T
  add seq t key value m = table.insert (node_of (entry_bytes seq t key value)) m

  -- Skiplist::Seek: the first node that is not below the key, if its user key is the same.
  unfoldable pub seek : InternalKey → T → Option Node
  seek key m = elim (table.find_ge key m) [
    | none ↦ none
    | some n ↦ elim (compare_views (extract_user_key key) (extract_user_key n.key)) [
      | Ordering.lt ↦ none
      | Ordering.eq ↦ some n
      | Ordering.gt ↦ none
    ]
  ]

  -- Memtable::Get: its answer, `*value` and `*s`. `none`: undefined.
  unfoldable pub get : Lookey → List ℕ → State → T → Option (Bool × List ℕ × State)
  get key value s m = elim (seek (inter_key key) m) [
    | none ↦ some (false, value, s)
    | some n ↦ Option.map (λ r. (true, r.0, r.1)) (read_node n value s)
  ]
