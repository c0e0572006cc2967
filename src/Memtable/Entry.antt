-- ===== src/Memtable/Entry.antt =====
-- The node that Memtable::Add makes: the list's key and value are read off the bytes of the entry.
use mathlib.Core.Option
use yubindb.Prelude.{
  ℕ, bit_and, bit_and_low4, ◌==◌, if◌then◌else◌, length-take, ◌+◌, ◌-◌, ◌*◌, ◌%◌, ◌^◌, ◌≤◌, ◌<◌,
  ◌≡◌, refl, ap, sym, ◌∙◌, Option, none, some, List, [], ◌∷◌, ◌++◌, length, length-append, take,
  drop, take_all, take-append, take-append_past, drop-append, take-append-drop, append_assoc, arith,
}
use yubindb.State.{State, not_found}
use yubindb.Coding.{
  IsU32, encode_varint32, encode_fixed64, put_fixed64, put_varint64, varint_length,
}
use yubindb.Coding.Varint.{
  encode_varint32-eq-encode_varint64, varint_length-eq-length, get_varint32_ptr-encode,
  length-encode_varint32,
}
use yubindb.Key.{
  ValueType, deletion, value, type_code, max_sequence_number, pack_sequence_and_type, internal_key,
  get_tag, get_size, skiplist_key, skiplist_val,
}
use yubindb.Key.Pack.{type_code-lt, length-internal_key, get_tag-internal_key}
use yubindb.Memtable.{entry_bytes, node_of, copy_value, read_node}

pub varint_length-encode_varint32 : (v : ℕ) → IsU32 v → varint_length v ≡ length (encode_varint32 v)
unfolding put_varint64
varint_length-encode_varint32 v h =
    varint_length-eq-length v (omega arith)
    ∙ ap length (sym (encode_varint32-eq-encode_varint64 v h))

-- The five bytes that getsize may look at cover every length.
take-varint :
    (v : ℕ) (rest : List ℕ)
    → IsU32 v
    → (rest' : List ℕ) × (take 5 (encode_varint32 v ++ rest) ≡ encode_varint32 v ++ rest')
take-varint v rest h = (
  take (5 - length (encode_varint32 v)) rest,
  take-append_past 5 (encode_varint32 v) rest (length-encode_varint32 v h).1,
)

pub get_size-encode : (v : ℕ) (rest : List ℕ) → IsU32 v → get_size (encode_varint32 v ++ rest) ≡ v
unfolding get_size
get_size-encode v rest h =
    let (rest', e) = take-varint v rest h in rw (e, get_varint32_ptr-encode v rest' h, get_size)

-- The value and the state that a Get ends with at an entry of each type.
-- The copy of a value that is not empty is undefined.
abbrev pub answer : ValueType → List ℕ → List ℕ → State → Option (List ℕ × State)
answer deletion v old s = some (old, not_found)
answer value [] old s = some ([], s)
answer value (b ∷ bs) old s = none

abbrev copied_of : List ℕ → Option (List ℕ)
copied_of [] = some []
copied_of (b ∷ bs) = none

-- The string of the node has no room for the length prefix and the value.
copy_value-short :
    (v val : List ℕ)
    → IsU32 (length v)
    → length val ≡ length v
    → copy_value val (length v) ≡ copied_of v
unfolding copy_value
copy_value-short [] val h e = refl
copy_value-short (b ∷ bs) val h e = ground (
  arith,
  e,
  varint_length-encode_varint32 (length (b ∷ bs)) h,
  length-encode_varint32 (length (b ∷ bs)) h,
)

module _ (seq : ℕ) (t : ValueType) (key v : List ℕ) (hk : length key + 8 < 2 ^ 32)
    (hv : length v < 2 ^ 32) where
  abbrev ik : List ℕ
  ik = internal_key key seq t

  abbrev key_prefix : List ℕ
  key_prefix = encode_varint32 (length key + 8)

  abbrev value_part : List ℕ
  value_part = encode_varint32 (length v) ++ v

  entry_parts : entry_bytes seq t key v ≡ key_prefix ++ (ik ++ value_part)
  unfolding entry_bytes internal_key put_fixed64
  entry_parts =
      let k32 : length key % 2 ^ 32 ≡ length key = omega arith in
      let v32 : length v % 2 ^ 32 ≡ length v = omega arith in
      let i32 : (length key + 8) % 2 ^ 32 ≡ length key + 8 = omega arith in
      rw (
        k32,
        v32,
        i32,
        take_all (length key) key (omega arith),
        take_all (length v) v (omega arith),
        append_assoc key (encode_fixed64 (pack_sequence_and_type seq t)) value_part,
      )

  key_size : get_size (entry_bytes seq t key v) ≡ length key + 8
  key_size = ap get_size entry_parts ∙ get_size-encode (length key + 8) (ik ++ value_part) hk

  prefix_length : varint_length (length key + 8) ≡ length key_prefix
  prefix_length = varint_length-encode_varint32 (length key + 8) hk

  skiplist_key-entry_bytes : skiplist_key (entry_bytes seq t key v) ≡ ik
  unfolding skiplist_key
  skiplist_key-entry_bytes =
      rw
        (
          key_size,
          entry_parts,
          drop-append (varint_length (length key + 8)) key_prefix (ik ++ value_part) prefix_length,
        )
        (take-append (length key + 8) ik value_part (sym (length-internal_key key seq t)))

  value_at :
      drop (varint_length (length key + 8) + (length key + 8)) (entry_bytes seq t key v)
      ≡ value_part
  value_at =
      rw (entry_parts, ← append_assoc key_prefix ik value_part)
        (drop-append _ (key_prefix ++ ik) value_part (
          omega (arith, prefix_length, length-append key_prefix ik, length-internal_key key seq t)))

  value_size :
      get_size (drop ((length key + 8) + varint_length (length key + 8)) (entry_bytes seq t key v))
      ≡ length v
  value_size =
      let swap : (length key + 8) + varint_length (length key + 8)
          ≡ varint_length (length key + 8) + (length key + 8) =
        omega arith in
      rw (swap, value_at) (get_size-encode (length v) v hv)

  copied_all : take (length v + varint_length (length v)) value_part ≡ value_part
  copied_all = take_all (length v + varint_length (length v)) value_part (
      omega (
        arith,
        length-append (encode_varint32 (length v)) v,
        varint_length-encode_varint32 (length v) hv,
      ))

  skiplist_val-entry_bytes :
      skiplist_val (entry_bytes seq t key v)
      ≡ record { val = take (length v) value_part; past = drop (length v) value_part }
  unfolding skiplist_val
  skiplist_val-entry_bytes = rw (key_size, value_size, value_at, copied_all)

  -- The node of an added entry holds the internal key. Its string is as long as the value, but
  -- starts with the value's length: the rest of the value lies behind the end of the string.
  pub node_of-entry_bytes :
      let n = node_of (entry_bytes seq t key v) in
      (n.key ≡ internal_key key seq t)
      × (length n.stored.val ≡ length v)
      × (n.stored.val ++ n.stored.past ≡ encode_varint32 (length v) ++ v)
  unfolding node_of
  node_of-entry_bytes = (
    skiplist_key-entry_bytes,
    rw skiplist_val-entry_bytes (
        omega
          (arith, length-take (length v) value_part, length-append (encode_varint32 (length v)) v)),
    rw skiplist_val-entry_bytes (take-append-drop (length v) value_part),
  )

  module _ (in_range : seq ≤ max_sequence_number) where
    kind-node_of : bit_and (get_tag (node_of (entry_bytes seq t key v)).key) 15 ≡ type_code t
    kind-node_of =
        rw (node_of-entry_bytes.0, get_tag-internal_key key seq t in_range)
          (omega (arith, bit_and_low4 (seq * 256 + type_code t), type_code-lt t))

    -- What Get reads from the node of an added entry.
    pub read_node-node_of :
        (old : List ℕ) (s : State)
        → read_node (node_of (entry_bytes seq t key v)) old s ≡ answer t v old s
    unfolding read_node type_code
    read_node-node_of old s =
        let n = node_of (entry_bytes seq t key v) in
        rw
          (
            kind-node_of,
            node_of-entry_bytes.2,
            get_size-encode (length v) v hv,
            copy_value-short v n.stored.val (omega arith) node_of-entry_bytes.1,
          )
          (by_type t v)
      where
        by_type :
            (t : ValueType) (v : List ℕ)
            → (if type_code t == 1
                then Option.map (λ u. (u, s)) (copied_of v)
                else if type_code t == 0
                then some (old, not_found)
                else some (old, s))
              ≡ answer t v old s
        by_type deletion v = refl
        by_type value [] = refl
        by_type value (b ∷ bs) = refl
