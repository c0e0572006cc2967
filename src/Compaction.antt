-- ===== src/Compaction.antt =====
-- class Compaction of src/db/version_set.h and src/db/version_set.cpp, and the ranges of its inputs.
pub mod Range
mod Runs
use Prim.Native.Nat.{Ordering}
use yubindb.Prelude.{
  ℕ, zero, suc, ◌+◌, ◌-◌, ◌*◌, ◌%◌, ◌^◌, Bool, true, false, ◌&&◌, not, Option, none, some, List, [],
  ◌∷◌, ◌++◌, ◌==◌, ltb, leb, if◌then◌else◌, length, get_elem?, get_or,
}
use yubindb.Key.{InternalKey, FileMate, cmp, extract_user_key}
use yubindb.Edit.{VersionEdit, delete_file, num_levels}
use yubindb.Version.{is_below, is_above, total_file_size, Version, level_files}
use yubindb.Builder.{set_at}

-- `max_output_file_size` is Options::max_file_size, and stands for it where the code reads the
-- options again. `overlapbytes`, like TotalFileSize, stays below 2^63.
pub record Compaction : Type 0 where
  pub level : ℕ
  pub max_output_file_size : ℕ
  pub input_version : Version
  pub inputs0 : List FileMate
  pub inputs1 : List FileMate
  pub grandparents : List FileMate
  pub grand_index : ℕ
  pub seen_key : Bool
  pub overlapbytes : ℕ
  pub level_ptrs : List ℕ

-- Compaction(options, level), and the version that PickCompaction sets.
unfoldable pub new_compaction : ℕ → ℕ → Version → Compaction
new_compaction max_file_size level v = record {
  level = level;
  max_output_file_size = max_file_size;
  input_version = v;
  inputs0 = [];
  inputs1 = [];
  grandparents = [];
  grand_index = 0;
  seen_key = false;
  overlapbytes = 0;
  level_ptrs = 0 ∷ 0 ∷ 0 ∷ 0 ∷ 0 ∷ 0 ∷ 0 ∷ [];
}

-- MaxGrandParentOverlapBytes, on uint32_t
unfoldable pub max_grand_parent_overlap_bytes : ℕ → ℕ
max_grand_parent_overlap_bytes max_file_size = 10 * max_file_size % 2 ^ 32

-- IsTrivialMove
unfoldable pub is_trivial_move : Compaction → Bool
is_trivial_move c =
    length c.inputs0 == 1
    && length c.inputs1 == 0
    && leb (total_file_size c.grandparents) (c.max_output_file_size * 10 % 2 ^ 32)

-- AddInputDeletions
unfoldable pub delete_all : ℕ → List FileMate → VersionEdit → VersionEdit
delete_all level [] edit = edit
delete_all level (f ∷ fs) edit = delete_all level fs (delete_file level f.num edit)

unfoldable pub add_input_deletions : Compaction → VersionEdit → VersionEdit
add_input_deletions c edit = delete_all (c.level + 1) c.inputs1 (delete_all c.level c.inputs0 edit)

-- The inner loop of IsBaseLevelForKey over the tables from `level_ptrs[lvl]` on: if the key is in
-- one, and the pointer behind the loop.
unfoldable pub scan_level : List ℕ → List FileMate → ℕ → Bool × ℕ
scan_level user_key [] ptr = (false, ptr)
scan_level user_key (f ∷ fs) ptr =
    let rest = scan_level user_key fs (ptr + 1) in
    if not (is_above (cmp user_key (extract_user_key f.largest)))
    then (not (is_below (cmp user_key (extract_user_key f.smallest))), ptr)
    else rest

-- `files[level_ptrs[lvl]]` and what is behind it.
unfoldable pub files_from : ℕ → List FileMate → List FileMate
files_from zero fs = fs
files_from (suc n) [] = []
files_from (suc n) (f ∷ fs) = files_from n fs

-- The outer loop, `lvl` counting up while levels are left.
unfoldable pub scan_levels : List ℕ → Version → ℕ → ℕ → List ℕ → Bool × List ℕ
scan_levels user_key v lvl zero ptrs = (true, ptrs)
scan_levels user_key v lvl (suc left) ptrs =
    let ptr = get_or ptrs lvl 0 in
    let (inside, next) = scan_level user_key (files_from ptr (level_files v lvl)) ptr in
    let after = set_at lvl next ptrs in
    let rest = scan_levels user_key v (lvl + 1) left after in
    if inside then (false, after) else rest

-- IsBaseLevelForKey
unfoldable pub is_base_level_for_key : List ℕ → Compaction → Bool × Compaction
is_base_level_for_key user_key c =
    let (answer, ptrs) =
      scan_levels user_key c.input_version (c.level + 2) (num_levels - (c.level + 2))
        c.level_ptrs in
    (answer, record c { level_ptrs = ptrs })

-- The loop of ShouldStopBefore over the grandparents from `grand_index` on.
unfoldable pub pass_grandparents : InternalKey → Bool → List FileMate → ℕ → ℕ → ℕ × ℕ
pass_grandparents key seen [] index bytes = (index, bytes)
pass_grandparents key seen (f ∷ fs) index bytes =
    let rest =
      pass_grandparents key seen fs (index + 1) (if seen then bytes + f.file_size else bytes) in
    if is_above (cmp key f.largest) then rest else (index, bytes)

-- ShouldStopBefore
unfoldable pub should_stop_before : InternalKey → Compaction → Bool × Compaction
should_stop_before internal_key c =
    let (index, bytes) =
      pass_grandparents internal_key c.seen_key (files_from c.grand_index c.grandparents)
        c.grand_index c.overlapbytes in
    if ltb (max_grand_parent_overlap_bytes c.max_output_file_size) bytes
    then (true, record c { grand_index = index; seen_key = true; overlapbytes = 0 })
    else (false, record c { grand_index = index; seen_key = true; overlapbytes = bytes })

-- The loop of GetRange.
unfoldable pub range_loop : List FileMate → InternalKey → InternalKey → InternalKey × InternalKey
range_loop [] smallest largest = (smallest, largest)
range_loop (p ∷ ps) smallest largest =
    range_loop ps (if is_below (cmp smallest p.smallest) then p.smallest else smallest)
      (if is_above (cmp largest p.largest) then p.largest else largest)

-- GetRange. `none`: there is no inputs[0].
unfoldable pub get_range : List FileMate → Option (InternalKey × InternalKey)
get_range [] = none
get_range (f ∷ fs) = some (range_loop fs f.smallest f.largest)

-- GetRange2
unfoldable pub get_range2 : List FileMate → List FileMate → Option (InternalKey × InternalKey)
get_range2 inputs1 inputs2 = get_range (inputs1 ++ inputs2)
