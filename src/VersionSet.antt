-- ===== src/VersionSet.antt =====
-- class VersionSet of src/db/version_set.h and src/db/version_set.cpp: the current version, its
-- numbers, and the manifest. The manifest is the list of its records: the log writer and the log
-- reader have modules of their own.
pub mod Manifest
mod Runs
use yubindb.Prelude.{
  ℕ, zero, suc, ◌+◌, ◌-◌, Bool, true, false, ◌&&◌, ◌||◌, not, Option, none, some, List, [], ◌∷◌,
  ◌++◌, ◌==◌, ltb, leb, if◌then◌else◌, length, get_or, take,
}
use yubindb.State.{State, corruption, is_ok, is_not_found}
use yubindb.Key.{InternalKey, FileMate}
use yubindb.Edit.{
  VersionEdit, set_log_number, set_next_file, set_last_sequence, set_compact_pointer, add_file,
  encode_to, decode_from,
}
use yubindb.Version.{Version, new_version, level_files, total_file_size}
use yubindb.Builder.{Builder, new_builder, apply, save_to}

-- The name of the database is not kept. The list of versions shares the current one: it is the entry
-- with `now_position` entries behind it. `descriptor_log` holds the records of the manifest that is
-- open.
pub record VersionSet : Type 0 where
  pub next_file_number : ℕ
  pub manifest_file_number : ℕ
  pub last_sequence : ℕ
  pub log_number : ℕ
  pub descriptor_log : Option (List (List ℕ))
  pub versionlist : List Version
  pub nowversion : Version
  pub now_position : ℕ
  pub compact_pointer : List InternalKey

-- VersionSet(dbname, options, table_cache, env)
unfoldable pub new_version_set : VersionSet
new_version_set = record {
  next_file_number = 2;
  manifest_file_number = 0;
  last_sequence = 0;
  log_number = 0;
  descriptor_log = none;
  versionlist = new_version ∷ [];
  nowversion = new_version;
  now_position = 0;
  compact_pointer = [] ∷ [] ∷ [] ∷ [] ∷ [] ∷ [] ∷ [] ∷ [];
}

-- SetLastSequence, NewFileNumber, NumLevelFiles and NumLevelBytes
unfoldable pub set_sequence : ℕ → VersionSet → VersionSet
set_sequence seq vs = record vs { last_sequence = seq }

unfoldable pub new_file_number : VersionSet → ℕ × VersionSet
new_file_number vs = (vs.next_file_number, record vs { next_file_number = vs.next_file_number + 1 })

unfoldable pub num_level_files : VersionSet → ℕ → ℕ
num_level_files vs level = length (level_files vs.nowversion level)

unfoldable pub num_level_bytes : VersionSet → ℕ → ℕ
num_level_bytes vs level = total_file_size (level_files vs.nowversion level)

-- NeedsCompaction
unfoldable pub needs_compaction : VersionSet → Bool
needs_compaction vs = vs.nowversion.score_reached

-- live->insert, into a set that is a list without repetition.
unfoldable pub insert_live : ℕ → List ℕ → List ℕ
insert_live n [] = n ∷ []
insert_live n (x ∷ xs) = let rest = insert_live n xs in if n == x then x ∷ xs else x ∷ rest

unfoldable pub live_level : List FileMate → List ℕ → List ℕ
live_level [] live = live
live_level (f ∷ fs) live = live_level fs (insert_live f.num live)

unfoldable pub live_version : List (List FileMate) → List ℕ → List ℕ
live_version [] live = live
live_version (fs ∷ levels) live = live_version levels (live_level fs live)

unfoldable pub live_versions : List Version → List ℕ → List ℕ
live_versions [] live = live
live_versions (v ∷ vs) live = live_versions vs (live_version v.files live)

-- AddLiveFiles
unfoldable pub add_live_files : VersionSet → List ℕ → List ℕ
add_live_files vs live = live_versions vs.versionlist live

-- VersionEdit()
abbrev pub empty_edit : VersionEdit
empty_edit = record {
  log_number = 0;
  next_file_number = 0;
  last_sequence = 0;
  has_log_number = false;
  has_next_file_number = false;
  has_last_sequence = false;
  compact_pointers = [];
  deleted_files = [];
  new_files = [];
}

-- The loops of WriteSnapshot.
unfoldable pub snapshot_pointers : ℕ → List InternalKey → VersionEdit → VersionEdit
snapshot_pointers i [] edit = edit
snapshot_pointers i (k ∷ ks) edit =
    snapshot_pointers (i + 1) ks (if length k == 0 then edit else set_compact_pointer i k edit)

unfoldable pub snapshot_level : ℕ → List FileMate → VersionEdit → VersionEdit
snapshot_level level [] edit = edit
snapshot_level level (f ∷ fs) edit = snapshot_level level fs (add_file level f edit)

unfoldable pub snapshot_levels : ℕ → List (List FileMate) → VersionEdit → VersionEdit
snapshot_levels level [] edit = edit
snapshot_levels level (fs ∷ rest) edit =
    snapshot_levels (level + 1) rest (snapshot_level level fs edit)

-- The record that WriteSnapshot appends.
unfoldable pub snapshot : VersionSet → List ℕ
snapshot vs =
    encode_to
      (snapshot_levels 0 vs.nowversion.files (snapshot_pointers 0 vs.compact_pointer empty_edit)) []

-- The local variables of Recover, with its builder.
pub record Recovery : Type 0 where
  pub state : State
  pub builder : Builder
  pub log : Option ℕ
  pub next_file : Option ℕ
  pub sequence : Option ℕ

-- `if (has) { … }`
unfoldable pub or_keep : Bool → ℕ → Option ℕ → Option ℕ
or_keep has n old = if has then some n else old

-- The body of Recover's loop, with what DecodeFrom returned.
unfoldable pub take_edit : State → VersionEdit → Recovery → Recovery
take_edit s edit r = record {
  state = s;
  builder = if is_ok s then apply edit r.builder else r.builder;
  log = or_keep edit.has_log_number edit.log_number r.log;
  next_file = or_keep edit.has_next_file_number edit.next_file_number r.next_file;
  sequence = or_keep edit.has_last_sequence edit.last_sequence r.sequence;
}

-- The loop. `none`: DecodeFrom does not return.
unfoldable pub recover_records : List (List ℕ) → Recovery → Option Recovery
recover_records [] r = some r
recover_records (ptr ∷ ptrs) r =
    if is_ok r.state
    then elim (decode_from ptr empty_edit) [
      | none ↦ none
      | some (s, edit) ↦ recover_records ptrs (take_edit s edit r)
    ]
    else some r

-- The checks behind the loop.
unfoldable pub missing_entry : Recovery → State
missing_entry r = elim r.next_file [
  | none ↦ corruption
  | some n ↦ elim r.log [
    | none ↦ corruption
    | some l ↦ elim r.sequence [ none ↦ corruption | some q ↦ State.ok ]
  ]
]

unfoldable pub or_zero : Option ℕ → ℕ
or_zero none = 0
or_zero (some n) = n

-- A score that is written to the current version is written to the entry that shares it.
unfoldable pub write_score : Bool × Option ℕ → Version → Version
write_score (reached, level) v = record v { score_reached = reached; compaction_level = level }

unfoldable pub score_entry : ℕ → Bool × Option ℕ → List Version → List Version
score_entry position score [] = []
score_entry position score (v ∷ vs) =
    let rest = score_entry position score vs in
    if length vs == position then write_score score v ∷ vs else v ∷ rest

-- The doubles of Finalize are a parameter: if the best score is 1 at least, and its level.
module _ (score : Version → Bool × Option ℕ) where
  -- Finalize scores `v`, and writes the score to the current version.
  unfoldable pub finalize : Version → VersionSet → VersionSet
  finalize v vs = record vs {
    nowversion = write_score (score v) vs.nowversion;
    versionlist = score_entry vs.now_position (score v) vs.versionlist;
  }

  -- Recover behind its loop: the result code, *save_manifest and the version set. `none`: SaveTo
  -- aborts.
  unfoldable pub install : Recovery → VersionSet → Option (State × Bool × VersionSet)
  install r vs =
      let seen : VersionSet = record vs { compact_pointer = r.builder.compact_pointer } in
      let checked : VersionSet =
        if leb vs.next_file_number vs.log_number
        then record seen { next_file_number = vs.log_number + 1 }
        else seen in
      if not (is_ok r.state)
      then some (r.state, false, seen)
      else if not (is_ok (missing_entry r))
      then some (missing_entry r, false, checked)
      else elim (save_to r.builder) [
        | none ↦ none
        | some v ↦
            (let final = finalize v checked in
              some (
                State.ok,
                true,
                record final {
                  versionlist = v ∷ final.versionlist;
                  manifest_file_number = or_zero r.next_file;
                  next_file_number = or_zero r.next_file + 1;
                  last_sequence = or_zero r.sequence;
                  log_number = or_zero r.log;
                },
              ))
      ]

  -- Recover, with what ReadFileToString and NewReadFile return: a result code with the contents of
  -- CURRENT, and for a name a result code with the records of that file.
  unfoldable pub recover :
      State × List ℕ
      → (List ℕ → State × List (List ℕ))
      → VersionSet
      → Option (State × Bool × VersionSet)
  recover (s, current) read_file vs =
      let n = length current in
      let (opened, records) = read_file (take (n - 1) current) in
      let start : Recovery = record {
        state = opened;
        builder = new_builder vs.nowversion vs.compact_pointer;
        log = none;
        next_file = none;
        sequence = none;
      } in
      if not (is_ok s)
      then some (s, false, vs)
      else if not (get_or current (n - 1) 0 == 10)
      then some (corruption, false, vs)
      else if not (is_ok opened)
      then some (if is_not_found opened then corruption else opened, false, vs)
      else elim (recover_records records start) [ none ↦ none | some r ↦ install r vs ]
