-- ===== src/Key.antt =====
-- src/util/key.h, src/util/key.cpp and `cmp` of src/util/options.h: internal keys, which are a user
-- key followed by eight bytes of sequence number and type, and the orders on them.
pub mod Order
pub mod Pack
mod Runs
use Prim.Native.Nat.{Ordering, compare}
use yubindb.Prelude.{
  ℕ, ◌+◌, ◌-◌, ◌*◌, ◌/◌, ◌%◌, ◌^◌, bit_and, bit_or, Bool, true, false, Option, none, some, List, [],
  ◌∷◌, ◌++◌, ltb, leb, if◌then◌else◌, length, take, drop,
}
use yubindb.Coding.{
  encode_varint32, encode_fixed64, put_fixed64, decode_fixed64, get_varint32_ptr, varint_length,
}

-- enum Valuetype
pub data ValueType : Type 0 where
  deletion value : ValueType

unfoldable pub type_code : ValueType → ℕ
type_code deletion = 0
type_code value = 1

abbrev pub max_sequence_number : ℕ
max_sequence_number = 2 ^ 56 - 1

-- `(seq << 8) | t`, on uint64_t. InternalKey::parser computes the same.
unfoldable pub pack_sequence_and_type : ℕ → ValueType → ℕ
pack_sequence_and_type seq t = bit_or (seq * 2 ^ 8 % 2 ^ 64) (type_code t)

-- The member `Key` of class InternalKey.
abbrev pub InternalKey : Type 0
InternalKey = List ℕ

-- InternalKey(str, num, type)
unfoldable pub internal_key : List ℕ → ℕ → ValueType → InternalKey
internal_key str num t = put_fixed64 str (pack_sequence_and_type num t)

-- ExtractUserKey and getusrkeyview; a key shorter than eight bytes is outside their contract.
unfoldable pub extract_user_key : InternalKey → List ℕ
extract_user_key key = take (length key - 8) key

-- Getag
unfoldable pub get_tag : InternalKey → ℕ
get_tag key = decode_fixed64 (drop (length key - 8) key)

-- std::string_view::compare, by its sign: bytes are compared unsigned, then lengths.
unfoldable pub compare_views : List ℕ → List ℕ → Ordering
compare_views [] [] = Ordering.eq
compare_views [] (b ∷ bs) = Ordering.lt
compare_views (a ∷ as') [] = Ordering.gt
compare_views (a ∷ as') (b ∷ bs) =
    let rest = compare_views as' bs in
    elim (compare a b) [
      | Ordering.lt ↦ Ordering.lt
      | Ordering.gt ↦ Ordering.gt
      | Ordering.eq ↦ rest
    ]

-- `r` when the user keys are equal: the larger tag comes first.
unfoldable pub compare_tags : ℕ → ℕ → Ordering
compare_tags anum bnum =
    if ltb bnum anum then Ordering.lt else if ltb anum bnum then Ordering.gt else Ordering.eq

-- `if (r == 0) { r = … }`
unfoldable pub then_by : Ordering → Ordering → Ordering
then_by Ordering.lt second = Ordering.lt
then_by Ordering.gt second = Ordering.gt
then_by Ordering.eq second = second

-- cmp, by its sign. The overloads on InternalKey and on std::string_view have one body.
unfoldable pub cmp : InternalKey → InternalKey → Ordering
cmp a b =
    then_by (compare_views (extract_user_key a) (extract_user_key b))
      (compare_tags (get_tag a) (get_tag b))

-- The type is the byte that was read, which need not be a ValueType.
pub record ParsedInternalKey : Type 0 where
  pub user_key : List ℕ
  pub sequence : ℕ
  pub type_byte : ℕ

-- ParseInternalKey: its answer, and what `*result` was set to.
unfoldable pub parse_internal_key : List ℕ → Bool × Option ParsedInternalKey
parse_internal_key ikey =
    let n = length ikey in
    let num = decode_fixed64 (drop (n - 8) ikey) in
    let c = bit_and num 255 in
    if ltb n 8 then (false, none) else (
      leb c 1,
      some (record { user_key = take (n - 8) ikey; sequence = num / 2 ^ 8; type_byte = c }),
    )

-- class Lookey: the bytes from `start` to `end`, and the offset of `kstart` among them.
pub record Lookey : Type 0 where
  pub space : List ℕ
  pub kstart : ℕ

-- Lookey(key, seq)
unfoldable pub lookey : List ℕ → ℕ → Lookey
lookey key seq =
    let head = encode_varint32 ((length key + 8) % 2 ^ 32) in
    record {
      space = head ++ (key ++ encode_fixed64 (pack_sequence_and_type seq value));
      kstart = length head;
    }

-- `new char[needed]`, or the 200 bytes of `space`.
unfoldable pub lookey_room : List ℕ → ℕ
lookey_room key = if leb (length key + 13) 200 then 200 else length key + 13

-- Internalkey, inter_key and internal_key
unfoldable pub inter_key : Lookey → InternalKey
inter_key k = drop k.kstart k.space

-- key
unfoldable pub lookey_user_key : Lookey → List ℕ
lookey_user_key k = take (length (inter_key k) - 8) (inter_key k)

-- class SkiplistKey points at an entry of the memtable: key length, key, value length, value.
-- `getsize` reads a varint32 of five bytes at most.
unfoldable pub get_size : List ℕ → ℕ
get_size p = elim (get_varint32_ptr (take 5 p)) [ none ↦ 0 | some (v, q) ↦ v ]

unfoldable pub skiplist_key : List ℕ → InternalKey
skiplist_key str = let key_size = get_size str in take key_size (drop (varint_length key_size) str)

-- The value of a node: `val.size()` bytes, and the bytes that memcpy wrote behind them.
pub record NodeValue : Type 0 where
  pub val : List ℕ
  pub past : List ℕ

-- Val resizes the string to the value's size and copies the length prefix with the value.
unfoldable pub skiplist_val : List ℕ → NodeValue
skiplist_val str =
    let key_size = get_size str in
    let at_value = drop (varint_length key_size + key_size) str in
    let val_size = get_size (drop (key_size + varint_length key_size) str) in
    let copied = take (val_size + varint_length val_size) at_value in
    record { val = take val_size copied; past = drop val_size copied }

-- struct FileMate
pub record FileMate : Type 0 where
  pub num : ℕ
  pub file_size : ℕ
  pub smallest : InternalKey
  pub largest : InternalKey
