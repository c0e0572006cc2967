-- ===== src/Edit.antt =====
-- class VersionEdit of src/db/version_edit.h and src/db/version_edit.cpp: a change of the set
-- of tables, as the manifest stores it.
pub mod Fields
pub mod Encode
pub mod RoundTrip
mod Runs
use yubindb.Prelude.{
  ℕ, zero, suc, ◌+◌, Bool, true, false, ◌||◌, ◌&&◌, Option, none, some, List, [], ◌∷◌, ◌++◌, ◌==◌,
  ltb, if◌then◌else◌, length,
}
use yubindb.State.{State, corruption}
use yubindb.Coding.{
  Parser, put_varint32, put_varint64, put_length_prefixed, get_varint32, get_varint64,
  get_length_prefixed,
}
use yubindb.Key.{InternalKey, FileMate}

-- enum Tag
abbrev pub log_tag : ℕ
log_tag = 0

abbrev pub next_file_tag : ℕ
next_file_tag = 1

abbrev pub last_sequence_tag : ℕ
last_sequence_tag = 2

abbrev pub compact_pointer_tag : ℕ
compact_pointer_tag = 3

abbrev pub deleted_file_tag : ℕ
deleted_file_tag = 4

abbrev pub new_file_tag : ℕ
new_file_tag = 5

-- kNumLevels
abbrev pub num_levels : ℕ
num_levels = 7

-- Levels are not negative. The set of deleted files is the list of its elements in order.
pub record VersionEdit : Type 0 where
  pub log_number : ℕ
  pub next_file_number : ℕ
  pub last_sequence : ℕ
  pub has_log_number : Bool
  pub has_next_file_number : Bool
  pub has_last_sequence : Bool
  pub compact_pointers : List (ℕ × InternalKey)
  pub deleted_files : List (ℕ × ℕ)
  pub new_files : List (ℕ × FileMate)

-- Clear leaves the compact pointers.
unfoldable pub clear : VersionEdit → VersionEdit
clear e = record e {
  log_number = 0;
  last_sequence = 0;
  next_file_number = 0;
  has_log_number = false;
  has_next_file_number = false;
  has_last_sequence = false;
  deleted_files = [];
  new_files = [];
}

unfoldable pub set_log_number : ℕ → VersionEdit → VersionEdit
set_log_number n e = record e { has_log_number = true; log_number = n }

unfoldable pub set_next_file : ℕ → VersionEdit → VersionEdit
set_next_file n e = record e { has_next_file_number = true; next_file_number = n }

unfoldable pub set_last_sequence : ℕ → VersionEdit → VersionEdit
set_last_sequence n e = record e { has_last_sequence = true; last_sequence = n }

unfoldable pub set_compact_pointer : ℕ → InternalKey → VersionEdit → VersionEdit
set_compact_pointer level key e = record e {
  compact_pointers = e.compact_pointers ++ (level, key) ∷ [];
}

-- AddFile
unfoldable pub add_file : ℕ → FileMate → VersionEdit → VersionEdit
add_file level f e = record e { new_files = e.new_files ++ (level, f) ∷ [] }

-- The order of std::pair, and the insertion into a std::set.
unfoldable pub pair_lt : ℕ × ℕ → ℕ × ℕ → Bool
pair_lt (a, b) (c, d) = ltb a c || (a == c && ltb b d)

unfoldable pub set_insert : ℕ × ℕ → List (ℕ × ℕ) → List (ℕ × ℕ)
set_insert p [] = p ∷ []
set_insert p (x ∷ xs) =
    let rest = set_insert p xs in
    if pair_lt p x then p ∷ x ∷ xs else if pair_lt x p then x ∷ rest else x ∷ xs

-- DeleteFile
unfoldable pub delete_file : ℕ → ℕ → VersionEdit → VersionEdit
delete_file level num e = record e { deleted_files = set_insert (level, num) e.deleted_files }

-- The loops of EncodeTo.
unfoldable pub encode_pointers : List ℕ → List (ℕ × InternalKey) → List ℕ
encode_pointers dst [] = dst
encode_pointers dst ((level, key) ∷ ps) =
    encode_pointers
      (put_length_prefixed (put_varint32 (put_varint32 dst compact_pointer_tag) level) key) ps

unfoldable pub encode_deleted : List ℕ → List (ℕ × ℕ) → List ℕ
encode_deleted dst [] = dst
encode_deleted dst ((level, num) ∷ ps) =
    encode_deleted (put_varint64 (put_varint32 (put_varint32 dst deleted_file_tag) level) num) ps

unfoldable pub encode_new : List ℕ → List (ℕ × FileMate) → List ℕ
encode_new dst [] = dst
encode_new dst ((level, f) ∷ fs) =
    let head = put_varint32 (put_varint32 dst new_file_tag) level in
    let numbers = put_varint64 (put_varint64 head f.num) f.file_size in
    encode_new (put_length_prefixed (put_length_prefixed numbers f.smallest) f.largest) fs

-- EncodeTo
unfoldable pub encode_to : VersionEdit → List ℕ → List ℕ
encode_to e dst =
    let d1 =
      if e.has_log_number then put_varint64 (put_varint32 dst log_tag) e.log_number else dst in
    let d2 =
      if e.has_next_file_number
      then put_varint64 (put_varint32 d1 next_file_tag) e.next_file_number
      else d1 in
    let d3 =
      if e.has_last_sequence
      then put_varint64 (put_varint32 d2 last_sequence_tag) e.last_sequence
      else d2 in
    encode_new (encode_deleted (encode_pointers d3 e.compact_pointers) e.deleted_files) e.new_files

-- `get(&input, &a) && …`
unfoldable pub and_then {ℓ} :
    {A B : Type ℓ} → Option A × List ℕ → (A → List ℕ → Option B) → Option B
and_then (none, q) f = none
and_then (some a, q) f = f a q

-- GetInternalKey: an empty key is refused.
unfoldable pub non_empty_key : Option (List ℕ) × List ℕ → Option InternalKey × List ℕ
non_empty_key (none, q) = (none, q)
non_empty_key (some [], q) = (none, q)
non_empty_key (some (b ∷ bs), q) = (some (b ∷ bs), q)

unfoldable pub get_internal_key : Parser InternalKey
get_internal_key input = non_empty_key (get_length_prefixed input)

-- GetLevel
unfoldable pub below_levels : Option ℕ × List ℕ → Option ℕ × List ℕ
below_levels (none, q) = (none, q)
below_levels (some v, q) = if ltb v num_levels then (some v, q) else (none, q)

unfoldable pub get_level : Parser ℕ
get_level input = below_levels (get_varint32 input)

-- The switch of DecodeFrom: the edit and the rest of the input, or `none` where `msg` is set.
-- There is no case for a compact pointer.
unfoldable pub decode_field : ℕ → List ℕ → VersionEdit → Option (VersionEdit × List ℕ)
decode_field tag input e =
    if tag == log_tag
    then and_then (get_varint64 input) (λ n q. some (set_log_number n e, q))
    else if tag == next_file_tag
    then and_then (get_varint64 input) (λ n q. some (set_next_file n e, q))
    else if tag == last_sequence_tag
    then and_then (get_varint64 input) (λ n q. some (set_last_sequence n e, q))
    else if tag == deleted_file_tag
    then and_then (get_level input)
        (λ level q. and_then (get_varint64 q) (λ num q'. some (delete_file level num e, q')))
    else if tag == new_file_tag
    then and_then (get_level input) (λ level q. and_then (get_varint64 q) (λ num q1.
      and_then (get_varint64 q1) (λ size q2. and_then (get_internal_key q2) (λ smallest q3.
        and_then (get_internal_key q3) (λ largest q4. some (
          add_file level
              (record { num = num; file_size = size; smallest = smallest; largest = largest }) e,
          q4,
        ))))))
    else none

-- The loop of DecodeFrom and the test behind it. `none`: not over when the fuel is.
unfoldable pub decode_loop : ℕ → List ℕ → VersionEdit → Option (State × VersionEdit)
decode_loop zero input e = none
decode_loop (suc fuel) input e =
    let next = decode_loop fuel in
    let (tag, q) = get_varint32 input in
    elim tag [
      | none ↦ some (if length q == 0 then State.ok else corruption, e)
      | some t ↦ elim (decode_field t q e) [
        | none ↦ some (corruption, e)
        | some (e', q') ↦ next q' e'
      ]
    ]

-- DecodeFrom. Each round reads a byte at least.
unfoldable pub decode_from : List ℕ → VersionEdit → Option (State × VersionEdit)
decode_from src e = decode_loop (length src + 1) src (clear e)
