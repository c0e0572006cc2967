-- ===== src/Builder.antt =====
-- class VersionSet::Builder of src/db/version_set.cpp: a version and edits make the next version.
pub mod Saved
mod Runs
use Prim.Native.Nat.{Ordering}
use yubindb.Prelude.{
  ℕ, zero, suc, ◌+◌, ◌-◌, Bool, true, false, ◌&&◌, ◌||◌, not, Option, none, some, List, [], ◌∷◌,
  ◌++◌, ◌==◌, ltb, leb, if◌then◌else◌, length, get_or,
}
use yubindb.Key.{InternalKey, FileMate, cmp}
use yubindb.Edit.{VersionEdit}
use yubindb.Version.{is_below, Version, level_files}

-- BySmallestKey
unfoldable pub by_smallest_key : FileMate → FileMate → Bool
by_smallest_key f1 f2 = elim (cmp f1.smallest f2.smallest) [
  | Ordering.lt ↦ true
  | Ordering.gt ↦ false
  | Ordering.eq ↦ ltb f1.num f2.num
]

-- struct LevelState: sets as lists, `added_files` in the order of BySmallestKey.
pub record LevelState : Type 0 where
  pub deleted_files : List ℕ
  pub added_files : List FileMate

-- class Builder, with the compact pointers of its version set.
pub record Builder : Type 0 where
  pub base : Version
  pub compact_pointer : List InternalKey
  pub levels : List LevelState

unfoldable pub empty_level : LevelState
empty_level = record { deleted_files = []; added_files = [] }

-- Builder(vset, base)
unfoldable pub new_builder : Version → List InternalKey → Builder
new_builder base pointers = record {
  base = base;
  compact_pointer = pointers;
  levels =
      empty_level ∷ empty_level ∷ empty_level ∷ empty_level ∷ empty_level ∷ empty_level
      ∷ empty_level ∷ [];
}

-- An assignment to an element of an array.
unfoldable pub set_at {ℓ} : {A : Type ℓ} → ℕ → A → List A → List A
set_at i a [] = []
set_at zero a (x ∷ xs) = a ∷ xs
set_at (suc i) a (x ∷ xs) = x ∷ set_at i a xs

-- deleted_files.erase and deleted_files.count
unfoldable pub erase_number : ℕ → List ℕ → List ℕ
erase_number n [] = []
erase_number n (x ∷ xs) = let rest = erase_number n xs in if n == x then rest else x ∷ rest

unfoldable pub is_deleted : List ℕ → ℕ → Bool
is_deleted [] n = false
is_deleted (x ∷ xs) n = n == x || is_deleted xs n

-- added_files->insert: an element that is neither before nor after `f` is `f` already.
unfoldable pub insert_file : FileMate → List FileMate → List FileMate
insert_file f [] = f ∷ []
insert_file f (g ∷ gs) =
    let rest = insert_file f gs in
    if by_smallest_key f g then f ∷ g ∷ gs else if by_smallest_key g f then g ∷ rest else g ∷ gs

-- The three loops of Apply.
unfoldable pub apply_pointers : List (ℕ × InternalKey) → List InternalKey → List InternalKey
apply_pointers [] pointers = pointers
apply_pointers ((level, key) ∷ ps) pointers = apply_pointers ps (set_at level key pointers)

unfoldable pub apply_deleted : List (ℕ × ℕ) → List LevelState → List LevelState
apply_deleted [] levels = levels
apply_deleted ((level, number) ∷ ds) levels =
    let l = get_or levels level empty_level in
    apply_deleted ds (set_at level (record l { deleted_files = number ∷ l.deleted_files }) levels)

unfoldable pub apply_new : List (ℕ × FileMate) → List LevelState → List LevelState
apply_new [] levels = levels
apply_new ((level, f) ∷ fs) levels =
    let l = get_or levels level empty_level in
    let after : LevelState = record {
      deleted_files = erase_number f.num l.deleted_files;
      added_files = insert_file f l.added_files;
    } in
    apply_new fs (set_at level after levels)

-- Apply
unfoldable pub apply : VersionEdit → Builder → Builder
apply edit b = record b {
  compact_pointer = apply_pointers edit.compact_pointers b.compact_pointer;
  levels = apply_new edit.new_files (apply_deleted edit.deleted_files b.levels);
}

-- The assertion of MaybeAddFile: the last table of the level ends before `f`.
unfoldable pub fits_behind : List FileMate → FileMate → Bool
fits_behind [] f = true
fits_behind (g ∷ []) f = is_below (cmp g.largest f.smallest)
fits_behind (g ∷ h ∷ gs) f = fits_behind (h ∷ gs) f

-- MaybeAddFile. `none`: the assertion fails.
unfoldable pub maybe_add_file : ℕ → List ℕ → FileMate → List FileMate → Option (List FileMate)
maybe_add_file level deleted f files =
    if is_deleted deleted f.num
    then some files
    else if ltb 0 level && not (fits_behind files f)
    then none
    else some (files ++ f ∷ [])

-- `for (; base_iter != …; ++base_iter)`
unfoldable pub add_files : ℕ → List ℕ → List FileMate → List FileMate → Option (List FileMate)
add_files level deleted [] files = some files
add_files level deleted (f ∷ fs) files = elim (maybe_add_file level deleted f files) [
  | none ↦ none
  | some more ↦ add_files level deleted fs more
]

-- std::upper_bound on tables in the order of BySmallestKey: the tables before it and from it on.
unfoldable pub split_at_upper : FileMate → List FileMate → List FileMate × List FileMate
split_at_upper f [] = ([], [])
split_at_upper f (g ∷ gs) =
    let (before, behind) = split_at_upper f gs in
    if by_smallest_key f g then ([], g ∷ gs) else (g ∷ before, behind)

-- The loops of SaveTo at one level.
unfoldable pub merge_files :
    ℕ → List ℕ → List FileMate → List FileMate → List FileMate → Option (List FileMate)
merge_files level deleted [] base files = add_files level deleted base files
merge_files level deleted (f ∷ added) base files =
    let (before, behind) = split_at_upper f base in
    elim (add_files level deleted before files) [
      | none ↦ none
      | some files1 ↦ elim (maybe_add_file level deleted f files1) [
        | none ↦ none
        | some files2 ↦ merge_files level deleted added behind files2
      ]
    ]

-- The check behind them: it aborts if a table does not end before the next one begins.
unfoldable pub no_overlap : List FileMate → Bool
no_overlap [] = true
no_overlap (f ∷ []) = true
no_overlap (f ∷ g ∷ gs) = is_below (cmp f.largest g.smallest) && no_overlap (g ∷ gs)

unfoldable pub save_level : ℕ → LevelState → List FileMate → Option (List FileMate)
save_level level state base =
    elim (merge_files level state.deleted_files state.added_files base []) [
      | none ↦ none
      | some files ↦ if ltb 0 level && not (no_overlap files) then none else some files
    ]

unfoldable pub save_levels : ℕ → List LevelState → Version → Option (List (List FileMate))
save_levels level [] base = some []
save_levels level (l ∷ ls) base = elim (save_level level l (level_files base level)) [
  | none ↦ none
  | some files ↦ elim (save_levels (level + 1) ls base) [
    | none ↦ none
    | some rest ↦ some (files ∷ rest)
  ]
]

-- SaveTo of a version that is new. `none`: the program aborts.
unfoldable pub save_to : Builder → Option Version
save_to b = elim (save_levels 0 b.levels b.base) [
  | none ↦ none
  | some files ↦ some (record { files = files; score_reached = false; compaction_level = none })
]
