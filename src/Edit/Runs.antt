-- ===== src/Edit/Runs.antt =====
-- Edits at concrete inputs.
use yubindb.Prelude.{◌≡◌, refl, true, false, some, [], ◌∷◌, arith}
use yubindb.State.{State, corruption}
use yubindb.Edit.{VersionEdit, encode_to, decode_from, pair_lt}
use yubindb.Edit.RoundTrip.{IsEdit, decode_from-encode_to, decode_from_pointers}

abbrev blank : VersionEdit
blank = record {
  log_number = 0;
  next_file_number = 0;
  last_sequence = 0;
  has_log_number = false;
  has_next_file_number = false;
  has_last_sequence = false;
  compact_pointers = [];
  deleted_files = [];
  new_files = [];
}

-- A log number, two deleted files and a new one.
abbrev sample : VersionEdit
sample = record blank {
  log_number = 300;
  has_log_number = true;
  deleted_files = (0, 7) ∷ (1, 3) ∷ [];
  new_files =
      (1, record { num = 9; file_size = 4096; smallest = 1 ∷ []; largest = 2 ∷ 3 ∷ [] }) ∷ [];
}

sample-IsEdit : IsEdit sample
unfolding pair_lt
sample-IsEdit = record {
  words = (omega arith, omega arith, omega arith);
  log_unset = λ h. absurd (ground arith);
  next_unset = λ h. refl;
  last_unset = λ h. refl;
  ordered = ((refl, tt), (tt, tt));
  deleted_reads = ((omega arith, omega arith), ((omega arith, omega arith), tt));
  new_reads = (
    (omega arith, omega arith, omega arith, (omega arith, omega arith), (omega arith, omega arith)),
    tt,
  );
}

decode_from-encode_to_example :
    decode_from (encode_to sample []) blank
    ≡ some (State.ok, record sample { compact_pointers = [] })
decode_from-encode_to_example = decode_from-encode_to blank sample sample-IsEdit refl

-- The same with a compact pointer of level 2.
abbrev pointed : VersionEdit
pointed = record sample { compact_pointers = (2, 1 ∷ []) ∷ [] }

pointed-IsEdit : IsEdit pointed
pointed-IsEdit = record {
  words = sample-IsEdit.words;
  log_unset = sample-IsEdit.log_unset;
  next_unset = sample-IsEdit.next_unset;
  last_unset = sample-IsEdit.last_unset;
  ordered = sample-IsEdit.ordered;
  deleted_reads = sample-IsEdit.deleted_reads;
  new_reads = sample-IsEdit.new_reads;
}

decode_from_pointers_example :
    (e : VersionEdit) × (decode_from (encode_to pointed []) blank ≡ some (corruption, e))
decode_from_pointers_example = decode_from_pointers blank pointed 2 (1 ∷ []) [] pointed-IsEdit refl
