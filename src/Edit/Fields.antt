-- ===== src/Edit/Fields.antt =====
-- The fields of an encoded edit: how EncodeTo writes each, and DecodeFrom reads it.
use yubindb.Prelude.{
  ℕ, suc, ◌+◌, ◌^◌, ◌≤◌, ◌<◌, ◌≡◌, refl, ap, ap₂, ◌∙◌, some, List, [], ◌∷◌, ◌++◌, length,
  length-append, append_assoc, All, arith,
}
use yubindb.State.{corruption}
use yubindb.Coding.{IsU64, put_varint32, put_varint64, put_length_prefixed, get_varint32}
use yubindb.Coding.Varint.{
  get_varint32-put_varint32, get_varint64-put_varint64, length-encode_varint32,
}
use yubindb.Coding.Prefixed.{get_length_prefixed-put_length_prefixed}
use yubindb.Key.{InternalKey, FileMate}
use yubindb.Edit.{
  log_tag, next_file_tag, last_sequence_tag, compact_pointer_tag, deleted_file_tag, new_file_tag,
  num_levels, VersionEdit, set_log_number, set_next_file, set_last_sequence, add_file, delete_file,
  and_then, non_empty_key, get_internal_key, below_levels, get_level, decode_field, decode_loop,
}

pub data Field : Type 0 where
  log next_file last_sequence : ℕ → Field
  pointer : ℕ → InternalKey → Field
  deleted : ℕ → ℕ → Field
  new_file : ℕ → FileMate → Field

abbrev v32 : ℕ → List ℕ
v32 = put_varint32 []

abbrev v64 : ℕ → List ℕ
v64 = put_varint64 []

abbrev tag_of : Field → ℕ
tag_of (log n) = log_tag
tag_of (next_file n) = next_file_tag
tag_of (last_sequence n) = last_sequence_tag
tag_of (pointer l k) = compact_pointer_tag
tag_of (deleted l n) = deleted_file_tag
tag_of (new_file l f) = new_file_tag

abbrev content : Field → List ℕ
content (log n) = v64 n
content (next_file n) = v64 n
content (last_sequence n) = v64 n
content (pointer l k) = v32 l ++ put_length_prefixed [] k
content (deleted l n) = v32 l ++ v64 n
content (new_file l f) =
    v32 l
    ++ (v64 f.num
        ++ (v64 f.file_size
            ++ (put_length_prefixed [] f.smallest ++ put_length_prefixed [] f.largest)))

abbrev pub field_bytes : Field → List ℕ
field_bytes x = v32 (tag_of x) ++ content x

abbrev pub fields_bytes : List Field → List ℕ
fields_bytes [] = []
fields_bytes (x ∷ xs) = field_bytes x ++ fields_bytes xs

-- What reading the field does. A pointer is not read.
abbrev pub apply : VersionEdit → Field → VersionEdit
apply e (log n) = set_log_number n e
apply e (next_file n) = set_next_file n e
apply e (last_sequence n) = set_last_sequence n e
apply e (pointer l k) = e
apply e (deleted l n) = delete_file l n e
apply e (new_file l f) = add_file l f e

abbrev pub apply_all : VersionEdit → List Field → VersionEdit
apply_all e [] = e
apply_all e (x ∷ xs) = apply_all (apply e x) xs

abbrev pub IsKey : InternalKey → Type 0
IsKey k = (0 < length k) × (length k < 2 ^ 32)

-- Numbers are words, levels exist, keys are not empty, and the field is no compact pointer.
abbrev pub Reads : Field → Type 0
Reads (log n) = IsU64 n
Reads (next_file n) = IsU64 n
Reads (last_sequence n) = IsU64 n
Reads (pointer l k) = ⊥
Reads (deleted l n) = (l < num_levels) × IsU64 n
Reads (new_file l f) =
    (l < num_levels) × IsU64 f.num × IsU64 f.file_size × IsKey f.smallest × IsKey f.largest

get_level-v32 :
    (l : ℕ) (rest : List ℕ) → l < num_levels → get_level (v32 l ++ rest) ≡ (some l, rest)
unfolding get_level below_levels
get_level-v32 l rest h =
    ap below_levels (get_varint32-put_varint32 l rest (omega arith)) ∙ ground arith

non_empty_key-some :
    (k : InternalKey) (q : List ℕ) → 0 < length k → non_empty_key (some k, q) ≡ (some k, q)
unfolding non_empty_key
non_empty_key-some [] q h = absurd (omega arith)
non_empty_key-some (b ∷ bs) q h = refl

get_internal_key-prefixed :
    (k : InternalKey) (rest : List ℕ)
    → IsKey k
    → get_internal_key (put_length_prefixed [] k ++ rest) ≡ (some k, rest)
unfolding get_internal_key
get_internal_key-prefixed k rest h =
    ap non_empty_key (get_length_prefixed-put_length_prefixed k rest h.1)
    ∙ non_empty_key-some k rest h.0

-- A field that is read moves the input behind it.
decode_field-content :
    (x : Field) (rest : List ℕ) (e : VersionEdit)
    → Reads x
    → decode_field (tag_of x) (content x ++ rest) e ≡ some (apply e x, rest)
unfolding decode_field and_then
decode_field-content (log n) rest e h = rw (get_varint64-put_varint64 n rest h, and_then)
decode_field-content (next_file n) rest e h = rw (get_varint64-put_varint64 n rest h, and_then)
decode_field-content (last_sequence n) rest e h = rw (get_varint64-put_varint64 n rest h, and_then)
decode_field-content (pointer l k) rest e h = absurd h
decode_field-content (deleted l n) rest e h = rw (
  append_assoc (v32 l) (v64 n) rest,
  get_level-v32 l (v64 n ++ rest) h.0,
  get_varint64-put_varint64 n rest h.1,
  and_then,
)
decode_field-content (new_file l f) rest e h =
    let largest = put_length_prefixed [] f.largest in
    let smallest = put_length_prefixed [] f.smallest in
    let flat : content (new_file l f) ++ rest
        ≡ v32 l ++ (v64 f.num ++ (v64 f.file_size ++ (smallest ++ (largest ++ rest)))) =
      rw (
        append_assoc (v32 l) (v64 f.num ++ (v64 f.file_size ++ (smallest ++ largest))) rest,
        append_assoc (v64 f.num) (v64 f.file_size ++ (smallest ++ largest)) rest,
        append_assoc (v64 f.file_size) (smallest ++ largest) rest,
        append_assoc smallest largest rest,
      ) in
    rw (
      flat,
      get_level-v32 l _ h.0,
      get_varint64-put_varint64 f.num _ h.1,
      get_varint64-put_varint64 f.file_size _ h.2,
      get_internal_key-prefixed f.smallest _ h.3,
      get_internal_key-prefixed f.largest rest h.4,
      and_then,
    )

tag_of-lt : (x : Field) → tag_of x < 2 ^ 32
tag_of-lt (log n) = omega arith
tag_of-lt (next_file n) = omega arith
tag_of-lt (last_sequence n) = omega arith
tag_of-lt (pointer l k) = omega arith
tag_of-lt (deleted l n) = omega arith
tag_of-lt (new_file l f) = omega arith

get_varint32-field_bytes :
    (x : Field) (rest : List ℕ)
    → get_varint32 (field_bytes x ++ rest) ≡ (some (tag_of x), content x ++ rest)
get_varint32-field_bytes x rest =
    ap get_varint32 (append_assoc (v32 (tag_of x)) (content x) rest)
    ∙ get_varint32-put_varint32 (tag_of x) (content x ++ rest) (tag_of-lt x)

-- One round of the loop reads the tag and the field.
pub decode_loop-field :
    (x : Field) (rest : List ℕ) (fuel : ℕ) (e : VersionEdit)
    → Reads x
    → decode_loop (suc fuel) (field_bytes x ++ rest) e ≡ decode_loop fuel rest (apply e x)
unfolding decode_loop
decode_loop-field x rest fuel e h =
    ground (arith, get_varint32-field_bytes x rest, decode_field-content x rest e h)

-- At a compact pointer the loop ends with an error.
pub decode_loop-pointer :
    (l : ℕ) (k : InternalKey) (rest : List ℕ) (fuel : ℕ) (e : VersionEdit)
    → decode_loop (suc fuel) (field_bytes (pointer l k) ++ rest) e ≡ some (corruption, e)
unfolding decode_loop decode_field
decode_loop-pointer l k rest fuel e = ground (arith, get_varint32-field_bytes (pointer l k) rest)

pub decode_loop-fields :
    (xs : List Field) (rest : List ℕ) (fuel : ℕ) (e : VersionEdit)
    → All Reads xs
    → decode_loop (length xs + fuel) (fields_bytes xs ++ rest) e
      ≡ decode_loop fuel rest (apply_all e xs)
decode_loop-fields [] rest fuel e h = ap (λ f. decode_loop f rest e) (omega arith)
decode_loop-fields (x ∷ xs) rest fuel e h =
    let more : suc (length xs) + fuel ≡ suc (length xs + fuel) = omega arith in
    ap₂ (λ f t. decode_loop f t e) more (append_assoc (field_bytes x) (fields_bytes xs) rest)
    ∙ decode_loop-field x (fields_bytes xs ++ rest) (length xs + fuel) e h.0
    ∙ decode_loop-fields xs rest fuel (apply e x) h.1

pub length-fields_bytes : (xs : List Field) → length xs ≤ length (fields_bytes xs)
unfolding put_varint32
length-fields_bytes [] = omega arith
length-fields_bytes (x ∷ xs) = omega (
  arith,
  length-fields_bytes xs,
  length-append (field_bytes x) (fields_bytes xs),
  length-append (v32 (tag_of x)) (content x),
  length-encode_varint32 (tag_of x) (tag_of-lt x),
)
