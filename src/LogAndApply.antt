-- ===== src/LogAndApply.antt =====
-- VersionSet::LogAndApply of src/db/version_set.cpp: an edit makes the next version current, and goes
-- to the manifest.
use yubindb.Prelude.{
  ℕ, Bool, true, false, ◌&&◌, not, Option, none, some, List, [], ◌∷◌, ◌++◌, ◌==◌, length, ltb, leb,
  if◌then◌else◌,
}
use yubindb.State.{State, is_ok}
use yubindb.Edit.{VersionEdit, set_log_number, set_next_file, set_last_sequence, encode_to}
use yubindb.Version.{Version}
use yubindb.Builder.{new_builder, apply, save_to}
use yubindb.VersionSet.{VersionSet, snapshot, finalize}

-- What the file system and the log writer return to LogAndApply. Appendrecord is given what the
-- manifest holds.
pub record Env : Type 0 where
  pub new_writable_file : State
  pub append_record : List (List ℕ) → List ℕ → State
  pub sync : State
  pub set_current_file : State

-- The assertions at the head of LogAndApply, and the number that is set otherwise.
unfoldable pub number_edit : VersionEdit → VersionSet → Option VersionEdit
number_edit edit vs =
    let numbered = set_log_number vs.log_number edit in
    let checked = if edit.has_log_number then edit else numbered in
    if edit.has_log_number
      && not (leb vs.log_number edit.log_number && ltb edit.log_number vs.next_file_number)
    then none
    else some (set_last_sequence vs.last_sequence (set_next_file vs.next_file_number checked))

-- The records of a manifest behind an Appendrecord, which writes nothing for an empty string.
unfoldable pub with_record : List (List ℕ) → List ℕ → List (List ℕ)
with_record records ptr = if length ptr == 0 then records else records ++ ptr ∷ []

-- The manifest that LogAndApply writes to, with the snapshot of the version set if it is new.
unfoldable pub open_manifest : Env → VersionSet → State × List (List ℕ)
open_manifest env vs = elim vs.descriptor_log [
  | some records ↦ (State.ok, records)
  | none ↦
      if is_ok env.new_writable_file
      then (
        env.append_record [] (snapshot vs),
        if is_ok (env.append_record [] (snapshot vs)) then with_record [] (snapshot vs) else [],
      )
      else (env.new_writable_file, [])
]

-- Appendrecord of the edit and Sync, then SetCurrentFile if the manifest is new.
unfoldable pub write_edit : Env → Bool → VersionEdit → State × List (List ℕ) → State × List (List ℕ)
write_edit env is_new edit (s, records) =
    let ptr = encode_to edit [] in
    let appended = env.append_record records ptr in
    let more = with_record records ptr in
    if not (is_ok s)
    then (s, records)
    else if not (is_ok appended)
    then (appended, records)
    else if not (is_ok env.sync)
    then (env.sync, more)
    else (if is_new then env.set_current_file else State.ok, more)

unfoldable pub is_none : Option (List (List ℕ)) → Bool
is_none none = true
is_none (some l) = false

module _ (score : Version → Bool × Option ℕ) where
  -- LogAndApply. The mutex is not held while it writes: the calls are one step. `none`: an
  -- assertion fails.
  unfoldable pub log_and_apply : Env → VersionEdit → VersionSet → Option (State × VersionSet)
  log_and_apply env edit vs = elim (number_edit edit vs) [
    | none ↦ none
    | some numbered ↦
        let builder = apply numbered (new_builder vs.nowversion vs.compact_pointer) in
        elim (save_to builder) [
          | none ↦ none
          | some v ↦
              let pointed : VersionSet = record vs { compact_pointer = builder.compact_pointer } in
              let final = finalize score v pointed in
              let (s, records) =
                write_edit env (is_none vs.descriptor_log) numbered (open_manifest env final) in
              some (
                s,
                if is_ok s
                    then record final {
                      descriptor_log = some records;
                      nowversion = v;
                      now_position = length final.versionlist;
                      versionlist = v ∷ final.versionlist;
                      log_number = numbered.log_number;
                    }
                    else record final { descriptor_log = none },
              )
        ]
  ]
