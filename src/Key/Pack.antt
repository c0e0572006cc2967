-- ===== src/Key/Pack.antt =====
-- Internal keys and lookup keys are taken apart as they were put together.
use Prim.Native.Nat.{Ordering}
use yubindb.Prelude.{
  ℕ, ◌+◌, ◌-◌, ◌*◌, ◌%◌, ◌^◌, ◌≤◌, ◌<◌, ◌≡◌, ◌≢◌, refl, true, some, List, [], ◌++◌, length,
  length-append, take, drop, take-append, drop-append, arith, shifted-bit_or, bit_or-zero,
  append-nil, ◌∙◌, bit_and_low8,
}
use yubindb.Coding.{encode_varint32, encode_fixed64, put_fixed64, IsU64}
use yubindb.Coding.Fixed.{decode_fixed64-encode_fixed64, length-encode_fixed64}
use yubindb.Coding.Varint.{length-encode_varint32}
use yubindb.Key.{
  ValueType, deletion, value, type_code, max_sequence_number, pack_sequence_and_type, internal_key,
  extract_user_key, get_tag, compare_views, compare_tags, then_by, cmp, parse_internal_key, lookey,
  lookey_room, inter_key, lookey_user_key,
}
use yubindb.Key.Order.{compare_views_refl}
use native.Mathlib.Nat.{mod-eq_of_lt}

pub pack-eq :
    (seq : ℕ) (t : ValueType)
    → seq ≤ max_sequence_number
    → pack_sequence_and_type seq t ≡ seq * 256 + type_code t
unfolding pack_sequence_and_type type_code
pack-eq seq deletion h =
    rw (mod-eq_of_lt {n = seq * 256} {m = 2 ^ 64} (omega arith))
      (omega (arith, bit_or-zero (seq * 256)))
pack-eq seq value h =
    rw (mod-eq_of_lt {n = seq * 256} {m = 2 ^ 64} (omega arith))
      (omega (arith, shifted-bit_or 8 1 seq (omega arith)))

pub type_code-lt : (t : ValueType) → type_code t < 2
unfolding type_code
type_code-lt deletion = omega arith
type_code-lt value = omega arith

-- The last eight bytes of a key that ends in eight bytes.
module _ (front back : List ℕ) (eight : length back ≡ 8) where
  split_length : length (front ++ back) - 8 ≡ length front
  split_length = omega (arith, length-append front back)

  take-front : take (length (front ++ back) - 8) (front ++ back) ≡ front
  take-front = take-append _ front back split_length

  drop-front : drop (length (front ++ back) - 8) (front ++ back) ≡ back
  drop-front = drop-append _ front back split_length

module _ (str : List ℕ) (seq : ℕ) (t : ValueType) where
  abbrev tag_bytes : List ℕ
  tag_bytes = encode_fixed64 (pack_sequence_and_type seq t)

  tag_length : length tag_bytes ≡ 8
  tag_length = length-encode_fixed64 (pack_sequence_and_type seq t)

  pub extract_user_key-internal_key : extract_user_key (internal_key str seq t) ≡ str
  unfolding extract_user_key internal_key put_fixed64
  extract_user_key-internal_key = take-front str tag_bytes tag_length

  module _ (in_range : seq ≤ max_sequence_number) where
    tag_small : IsU64 (pack_sequence_and_type seq t)
    tag_small = omega (arith, pack-eq seq t in_range, type_code-lt t)

    pub get_tag-internal_key : get_tag (internal_key str seq t) ≡ seq * 256 + type_code t
    unfolding get_tag internal_key put_fixed64
    get_tag-internal_key = rw (drop-front str tag_bytes tag_length) (
        rw (append-nil tag_bytes) at (decode_fixed64-encode_fixed64 _ [] tag_small)
        ∙ pack-eq seq t in_range)

pub length-internal_key :
    (str : List ℕ) (seq : ℕ) (t : ValueType) → length (internal_key str seq t) ≡ length str + 8
unfolding internal_key put_fixed64
length-internal_key str seq t =
    omega (arith, length-append str (tag_bytes str seq t), tag_length str seq t)

-- ParseInternalKey takes an internal key apart into what it was built from.
pub parse_internal_key-internal_key :
    (str : List ℕ) (seq : ℕ) (t : ValueType)
    → seq ≤ max_sequence_number
    → parse_internal_key (internal_key str seq t)
      ≡ (true, some (record { user_key = str; sequence = seq; type_byte = type_code t }))
unfolding parse_internal_key get_tag extract_user_key
parse_internal_key-internal_key str seq t h = ground (
  arith,
  type_code-lt t,
  length-internal_key str seq t,
  get_tag-internal_key str seq t h,
  extract_user_key-internal_key str seq t,
  bit_and_low8 (get_tag (internal_key str seq t)),
)

-- Entries of one user key are ordered by sequence number, the newest first.
pub cmp_newest_first :
    (str : List ℕ) (s s' : ℕ) (t t' : ValueType)
    → s ≤ max_sequence_number
    → s' < s
    → cmp (internal_key str s t) (internal_key str s' t') ≡ Ordering.lt
unfolding cmp then_by compare_tags
cmp_newest_first str s s' t t' h lt = ground (
  arith,
  type_code-lt t',
  extract_user_key-internal_key str s t,
  extract_user_key-internal_key str s' t',
  get_tag-internal_key str s t h,
  get_tag-internal_key str s' t' (omega arith),
  compare_views_refl str,
)

-- Entries of different user keys are ordered as the user keys, whatever their tags.
pub cmp_by_user_key :
    (a b : List ℕ) (s s' : ℕ) (t t' : ValueType)
    → compare_views a b ≢ Ordering.eq
    → cmp (internal_key a s t) (internal_key b s' t') ≡ compare_views a b
unfolding cmp then_by
cmp_by_user_key a b s s' t t' h =
    ground (arith, extract_user_key-internal_key a s t, extract_user_key-internal_key b s' t')

-- A lookup key holds the internal key of the sequence number with type kTypeValue, gives the user
-- key back, and fits the buffer that its constructor chose.
pub lookey_lem :
    (key : List ℕ) (seq : ℕ)
    → (inter_key (lookey key seq) ≡ internal_key key seq value)
      × (lookey_user_key (lookey key seq) ≡ key)
      × (length (lookey key seq).space ≤ lookey_room key)
unfolding lookey inter_key lookey_user_key lookey_room internal_key put_fixed64
lookey_lem key seq =
    let head = encode_varint32 ((length key + 8) % 2 ^ 32) in
    let tail = key ++ tag_bytes key seq value in
    let whole : drop (length head) (head ++ tail) ≡ tail = drop-append _ head tail refl in
    let size = length-encode_varint32 ((length key + 8) % 2 ^ 32) (omega arith) in
    let bound : length (head ++ tail) ≤ length key + 13 = omega (
      arith,
      length-append head tail,
      length-append key (tag_bytes key seq value),
      tag_length key seq value,
    ) in
    (
      whole,
      rw whole (take-front key (tag_bytes key seq value) (tag_length key seq value)),
      ground arith,
    )
