-- ===== src/VersionSet/Runs.antt =====
-- Runs of Recover.
use yubindb.Prelude.{
  ℕ, ◌≡◌, refl, Bool, true, false, Option, none, some, List, [], ◌∷◌, ◌++◌, arith,
}
use yubindb.State.{State, corruption}
use yubindb.Edit.{VersionEdit, encode_to}
use yubindb.Edit.RoundTrip.{IsEdit}
use yubindb.Version.{Version}
use yubindb.Builder.{new_builder, save_to}
use yubindb.VersionSet.{VersionSet, new_version_set, score_entry, write_score, empty_edit, recover}
use yubindb.VersionSet.Manifest.{
  records_of, apply_all, recover-records_of, recover_pointer, recover-nowversion,
}

abbrev no_score : Version → Bool × Option ℕ
no_score v = (false, none)

-- A table at level 1, and the numbers of a version set.
abbrev stored : VersionEdit
stored = record empty_edit {
  log_number = 3;
  next_file_number = 10;
  last_sequence = 77;
  has_log_number = true;
  has_next_file_number = true;
  has_last_sequence = true;
  new_files =
      (1, record { num = 9; file_size = 4096; smallest = 1 ∷ []; largest = 2 ∷ 3 ∷ [] }) ∷ [];
}

stored-IsEdit : IsEdit stored
stored-IsEdit = record {
  words = (omega arith, omega arith, omega arith);
  log_unset = λ h. absurd (ground arith);
  next_unset = λ h. absurd (ground arith);
  last_unset = λ h. absurd (ground arith);
  ordered = tt;
  deleted_reads = tt;
  new_reads = (
    (omega arith, omega arith, omega arith, (omega arith, omega arith), (omega arith, omega arith)),
    tt,
  );
}

abbrev plain_file : List ℕ → State × List (List ℕ)
plain_file name = (State.ok, records_of (stored ∷ []))

-- The same with a compact pointer, as a compaction sets it.
abbrev pointed : VersionEdit
pointed = record stored { compact_pointers = (2, 1 ∷ []) ∷ [] }

pointed-IsEdit : IsEdit pointed
pointed-IsEdit = record {
  words = stored-IsEdit.words;
  log_unset = stored-IsEdit.log_unset;
  next_unset = stored-IsEdit.next_unset;
  last_unset = stored-IsEdit.last_unset;
  ordered = stored-IsEdit.ordered;
  deleted_reads = stored-IsEdit.deleted_reads;
  new_reads = stored-IsEdit.new_reads;
}

abbrev pointed_file : List ℕ → State × List (List ℕ)
pointed_file name = (State.ok, records_of (stored ∷ []) ++ encode_to pointed [] ∷ [])

recover_pointer_example :
    (after : VersionSet) × (recover no_score
        (State.ok, (77 ∷ []) ++ 10 ∷ [])
        pointed_file
        new_version_set
      ≡ some (corruption, false, after))
    × (after.nowversion ≡ new_version_set.nowversion)
    × (after.versionlist ≡ new_version_set.versionlist)
recover_pointer_example =
    recover_pointer no_score (77 ∷ []) (stored ∷ []) pointed 2 (1 ∷ []) [] [] pointed_file
      new_version_set ((stored-IsEdit, refl), tt) pointed-IsEdit refl refl

-- The version that is recovered.
abbrev with_nine : Version
with_nine = record {
  files =
      []
      ∷ (record { num = 9; file_size = 4096; smallest = 1 ∷ []; largest = 2 ∷ 3 ∷ [] } ∷ [])
      ∷ []
      ∷ []
      ∷ []
      ∷ []
      ∷ []
      ∷ [];
  score_reached = false;
  compaction_level = none;
}

built :
    save_to (
      apply_all
        (stored ∷ [])
        (new_builder new_version_set.nowversion new_version_set.compact_pointer))
    ≡ some with_nine
unfolding new_version_set yubindb.State.is_ok yubindb.VersionSet.take_edit
    yubindb.VersionSet.missing_entry yubindb.VersionSet.or_keep yubindb.VersionSet.finalize
    yubindb.VersionSet.or_zero yubindb.Builder.save_to yubindb.Builder.save_levels
    yubindb.Builder.apply yubindb.Builder.apply_new yubindb.Builder.apply_deleted
    yubindb.Builder.apply_pointers yubindb.Builder.set_at yubindb.Builder.new_builder
    yubindb.Builder.save_level yubindb.Builder.merge_files yubindb.Builder.empty_level
    yubindb.Builder.add_files yubindb.Builder.erase_number yubindb.Builder.fits_behind
    yubindb.Builder.insert_file yubindb.Builder.is_deleted yubindb.Builder.maybe_add_file
    yubindb.Builder.no_overlap yubindb.Builder.split_at_upper yubindb.Builder.by_smallest_key
    yubindb.Version.level_files yubindb.Version.new_version yubindb.Version.is_below
built = refl

recover-records_of_example :
    (after : VersionSet) × (recover no_score
        (State.ok, (77 ∷ []) ++ 10 ∷ [])
        plain_file
        new_version_set
      ≡ some (State.ok, true, after))
    × (after.versionlist
        ≡ with_nine
          ∷ score_entry new_version_set.now_position (false, none) new_version_set.versionlist)
    × (after.log_number ≡ 3)
    × (after.manifest_file_number ≡ 10)
    × (after.next_file_number ≡ 11)
    × (after.last_sequence ≡ 77)
    × (after.descriptor_log ≡ new_version_set.descriptor_log)
    × (after.nowversion ≡ write_score (false, none) new_version_set.nowversion)
recover-records_of_example =
    recover-records_of no_score (77 ∷ []) (stored ∷ []) plain_file new_version_set 3 10 77 with_nine
      ((stored-IsEdit, refl), tt) refl refl refl refl built

recovered :
    (after : VersionSet) × (recover no_score
        (State.ok, (77 ∷ []) ++ 10 ∷ [])
        plain_file
        new_version_set
      ≡ some (State.ok, true, after))
recovered =
    let run =
      recover-records_of no_score (77 ∷ []) (stored ∷ []) plain_file new_version_set 3 10 77
        with_nine ((stored-IsEdit, refl), tt) refl refl refl refl built in
    (run.0, run.1)

recover-nowversion_example : recovered.0.nowversion.files ≡ new_version_set.nowversion.files
recover-nowversion_example =
    recover-nowversion no_score (State.ok, (77 ∷ []) ++ 10 ∷ []) plain_file new_version_set
      recovered.0 State.ok true recovered.1
