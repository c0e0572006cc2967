-- ===== src/Builder/Runs.antt =====
-- A run of SaveTo at level 1.
use yubindb.Prelude.{ℕ, ◌≡◌, refl, ◌⊎◌, not, ◌&&◌, ◌||◌, some, List, [], ◌∷◌, All, arith}
use yubindb.Key.{InternalKey, FileMate, ValueType, internal_key}
use yubindb.Version.Find.{IsSorted}
use yubindb.Builder.{LevelState, is_deleted, save_level}
use yubindb.Builder.Saved.{has_number, IsRange, save_level-Saved}

abbrev file : ℕ → ℕ → ℕ → FileMate
file num a b = record {
  num = num;
  file_size = 100;
  smallest = internal_key (a ∷ []) 5 ValueType.value;
  largest = internal_key (b ∷ []) 5 ValueType.value;
}

-- Table 4 is deleted, table 5 comes between the others.
abbrev change : LevelState
change = record { deleted_files = 4 ∷ []; added_files = file 5 30 40 ∷ [] }

abbrev upper_level : ℕ
upper_level = 1

abbrev old_files : List FileMate
old_files = file 3 10 20 ∷ file 4 25 35 ∷ file 2 50 60 ∷ []

abbrev new_files : List FileMate
new_files = file 3 10 20 ∷ file 5 30 40 ∷ file 2 50 60 ∷ []

save_level_run : save_level upper_level change old_files ≡ some new_files
unfolding save_level yubindb.Builder.merge_files yubindb.Builder.add_files
    yubindb.Builder.split_at_upper yubindb.Builder.by_smallest_key yubindb.Key.cmp
    yubindb.Key.then_by yubindb.Key.compare_views yubindb.Key.extract_user_key internal_key
    yubindb.Coding.put_fixed64 yubindb.Coding.encode_fixed64 yubindb.Builder.maybe_add_file
    is_deleted yubindb.Builder.fits_behind yubindb.Version.is_below yubindb.Builder.no_overlap
save_level_run = refl

new_files-IsRange : All IsRange new_files
unfolding yubindb.Key.cmp yubindb.Key.then_by yubindb.Key.compare_views yubindb.Key.extract_user_key
    internal_key yubindb.Coding.put_fixed64 yubindb.Coding.encode_fixed64
new_files-IsRange = (
  λ e. absurd (ground (arith, e)),
  (λ e. absurd (ground (arith, e)), (λ e. absurd (ground (arith, e)), tt)),
)

save_level-Saved_example :
    (has_number 5 new_files ≡ (
      (has_number 5 old_files || has_number 5 change.added_files)
      && not (is_deleted change.deleted_files 5)))
    × ((upper_level ≡ 0) ⊎ IsSorted new_files)
save_level-Saved_example =
    save_level-Saved upper_level change old_files new_files save_level_run new_files-IsRange 5
