-- ===== src/Version.antt =====
-- Version of src/db/version_set.h and src/db/version_set.cpp: the tables of every level, the
-- search among them, and LevelFileNumIterator.
pub mod Find
mod Runs
use Prim.Native.Nat.{Ordering}
use yubindb.Prelude.{
  ℕ, zero, suc, ◌+◌, ◌-◌, ◌/◌, ◌%◌, ◌^◌, Bool, true, false, ◌&&◌, ◌||◌, not, Option, none, some,
  List, [], ◌∷◌, ◌++◌, ◌==◌, ltb, leb, if◌then◌else◌, length, get_elem?, get_or,
}
use yubindb.State.{State, not_found, corruption, is_ok}
use yubindb.Coding.{encode_fixed64}
use yubindb.Key.{
  InternalKey, FileMate, ParsedInternalKey, Lookey, cmp, compare_views, extract_user_key,
  parse_internal_key, inter_key, lookey_user_key,
}

-- The tests `< 0`, `> 0` and `== 0` on what a comparison returns.
unfoldable pub is_below : Ordering → Bool
is_below Ordering.lt = true
is_below _ = false

unfoldable pub is_above : Ordering → Bool
is_above Ordering.gt = true
is_above _ = false

unfoldable pub is_same : Ordering → Bool
is_same Ordering.eq = true
is_same _ = false

-- TotalFileSize; the sum stays below 2^63.
unfoldable pub total_file_size : List FileMate → ℕ
total_file_size [] = 0
total_file_size (f ∷ fs) = f.file_size + total_file_size fs

-- The loop of FindFile, with uint32_t bounds. `none`: the fuel is used up, or files[mid] is out of
-- range.
unfoldable pub search_file : List FileMate → InternalKey → ℕ → ℕ → ℕ → Option ℕ
search_file files key left right zero = if ltb left right then none else some right
search_file files key left right (suc fuel) =
    if ltb left right
    then (let mid = (left + right) % 2 ^ 32 / 2 in
        let upper = search_file files key ((mid + 1) % 2 ^ 32) right fuel in
        let lower = search_file files key left mid fuel in
        elim (get_elem? files mid) [
          | none ↦ none
          | some f ↦ if is_below (cmp f.largest key) then upper else lower
        ])
    else some right

-- FindFile
unfoldable pub find_file : List FileMate → InternalKey → Option ℕ
find_file files key = search_file files key 0 (length files % 2 ^ 32) (length files)

-- NewestFirst
unfoldable pub newest_first : FileMate → FileMate → Bool
newest_first a b = ltb b.num a.num

-- std::sort by NewestFirst; no two tables have one number.
unfoldable pub insert_newest : FileMate → List FileMate → List FileMate
insert_newest f [] = f ∷ []
insert_newest f (g ∷ gs) =
    let rest = insert_newest f gs in if newest_first f g then f ∷ g ∷ gs else g ∷ rest

unfoldable pub sort_newest : List FileMate → List FileMate
sort_newest [] = []
sort_newest (f ∷ fs) = insert_newest f (sort_newest fs)

-- enum SaverState, without its prefix `k`, and struct Saver
pub data SaverState : Type 0 where
  not_seen found deleted corrupt : SaverState

pub record Saver : Type 0 where
  pub state : SaverState
  pub user_key : List ℕ
  pub value : List ℕ

-- SaveValue. It compares user keys by `cmp`, which takes the last eight bytes for a tag.
unfoldable pub save_value : Saver → List ℕ → List ℕ → Saver
save_value s ikey v =
    let (parsed_ok, result) = parse_internal_key ikey in
    elim result [
      | none ↦ record s { state = corrupt }
      | some parsed ↦
          if not parsed_ok
          then record s { state = corrupt }
          else if is_same (cmp parsed.user_key s.user_key)
          then if parsed.type_byte == 1
            then record s { state = found; value = v }
            else record s { state = deleted }
          else s
    ]

-- class Version. The score is a double: `score_reached` says if it is at least 1. A level of -1 is
-- `none`.
pub record Version : Type 0 where
  pub files : List (List FileMate)
  pub score_reached : Bool
  pub compaction_level : Option ℕ

-- Version(vset)
unfoldable pub new_version : Version
new_version = record {
  files = [] ∷ [] ∷ [] ∷ [] ∷ [] ∷ [] ∷ [] ∷ [];
  score_reached = false;
  compaction_level = none;
}

unfoldable pub level_files : Version → ℕ → List FileMate
level_files v level = get_or v.files level []

-- The tables of level 0 whose range has the user key.
unfoldable pub covering : List ℕ → List FileMate → List FileMate
covering user_key [] = []
covering user_key (f ∷ fs) =
    let rest = covering user_key fs in
    if not (is_below (compare_views user_key (extract_user_key f.smallest)))
      && not (is_above (compare_views user_key (extract_user_key f.largest)))
    then f ∷ rest
    else rest

-- The tables of a level that Get reads, in their order. `none`: FindFile does not return.
unfoldable pub candidates : ℕ → List FileMate → List ℕ → InternalKey → Option (List FileMate)
candidates level files user_key ikey =
    if level == 0
    then some (sort_newest (covering user_key files))
    else elim (find_file files ikey) [
      | none ↦ none
      | some index ↦ elim (get_elem? files index) [
        | none ↦ some []
        | some f ↦
            some (if is_below (cmp user_key (extract_user_key f.smallest)) then [] else f ∷ [])
      ]
    ]

-- seek_file with seek_file_level, last_file_read with its level, and *val.
pub record Search : Type 0 where
  pub seek_file : Option (FileMate × ℕ)
  pub last_file_read : Option (FileMate × ℕ)
  pub val : List ℕ

-- The head of the inner loop: the second table that is read charges a seek to the first.
unfoldable pub charge_seek : FileMate → ℕ → Search → Search
charge_seek f level s =
    let next : Option (FileMate × ℕ) = elim s.seek_file [
      | none ↦ s.last_file_read
      | some old ↦ some old
    ] in
    record s { seek_file = next; last_file_read = some (f, level) }

-- TableCache::Get is a parameter: its result code, and the entry that it calls SaveValue with.
module _ (table_get : ℕ → ℕ → InternalKey → State × Option (List ℕ × List ℕ)) where
  unfoldable pub call_table : FileMate → InternalKey → Saver → State × Saver
  call_table f ikey saver =
      let (s, entry) = table_get f.num f.file_size ikey in
      (s, elim entry [ none ↦ saver | some (k, v) ↦ save_value saver k v ])

  -- The inner loop: a result code with the search, or `none` when no table decides.
  unfoldable pub read_tables :
      ℕ → List ℕ → InternalKey → List FileMate → Search → Option State × Search
  read_tables level user_key ikey [] s = (none, s)
  read_tables level user_key ikey (f ∷ fs) s =
      let read = charge_seek f level s in
      let (state, saver) =
        call_table f ikey (record { state = not_seen; user_key = user_key; value = read.val }) in
      let after : Search = record read { val = saver.value } in
      let rest = read_tables level user_key ikey fs after in
      if is_ok state
      then elim saver.state [
        | not_seen ↦ rest
        | found ↦ (some state, after)
        | deleted ↦ (some State.not_found, after)
        | corrupt ↦ (some State.corruption, after)
      ]
      else (some state, after)

  -- The outer loop. `none`: FindFile does not return.
  unfoldable pub read_levels :
      ℕ → List ℕ → InternalKey → List (List FileMate) → Search → Option (State × Search)
  read_levels level user_key ikey [] s = some (State.not_found, s)
  read_levels level user_key ikey (files ∷ rest) s = elim (candidates level files user_key ikey) [
    | none ↦ none
    | some fs ↦
        let (answer, t) = read_tables level user_key ikey fs s in
        let later = read_levels (level + 1) user_key ikey rest t in
        elim answer [ none ↦ later | some state ↦ some (state, t) ]
  ]

  -- Version::Get
  unfoldable pub version_get : Version → Lookey → List ℕ → Option (State × Search)
  version_get v key val =
      read_levels 0 (lookey_user_key key) (inter_key key) v.files
        (record { seek_file = none; last_file_read = none; val = val })

-- class LevelFileNumIterator
pub record LevelIter : Type 0 where
  pub flist : List FileMate
  pub index : ℕ

-- LevelFileNumIterator(flist), Valid, Seek, SeekToFirst, SeekToLast, Next and Prev. A call that
-- asserts Valid is outside its contract when it is not.
unfoldable pub new_level_iter : List FileMate → LevelIter
new_level_iter flist = record { flist = flist; index = length flist }

unfoldable pub level_valid : LevelIter → Bool
level_valid it = ltb it.index (length it.flist)

unfoldable pub level_seek : InternalKey → LevelIter → Option LevelIter
level_seek target it = elim (find_file it.flist target) [
  | none ↦ none
  | some i ↦ some (record it { index = i })
]

unfoldable pub level_to_first : LevelIter → LevelIter
level_to_first it = record it { index = 0 }

unfoldable pub level_to_last : LevelIter → LevelIter
level_to_last it = record it { index = if length it.flist == 0 then 0 else length it.flist - 1 }

unfoldable pub level_next : LevelIter → LevelIter
level_next it = record it { index = it.index + 1 }

unfoldable pub level_prev : LevelIter → LevelIter
level_prev it = record it { index = if it.index == 0 then length it.flist else it.index - 1 }

-- `key` and `value`: the largest key of the table, and its number and size.
unfoldable pub level_key : LevelIter → Option InternalKey
level_key it = elim (get_elem? it.flist it.index) [ none ↦ none | some f ↦ some f.largest ]

unfoldable pub level_value : LevelIter → Option (List ℕ)
level_value it = elim (get_elem? it.flist it.index) [
  | none ↦ none
  | some f ↦ some (encode_fixed64 f.num ++ encode_fixed64 f.file_size)
]
