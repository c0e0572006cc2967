-- ===== src/Reader.antt =====
-- src/db/reader.h and src/db/reader.cpp: the reader of the log and of the manifest.
pub mod Parse
pub mod Recover
pub mod RoundTrip
pub mod Split
mod Runs
use yubindb.Prelude.{
  ℕ, zero, suc, ◌+◌, ◌-◌, ◌*◌, ◌%◌, ◌^◌, Bool, true, false, not, ◌&&◌, Option, none, some, List, [],
  ◌∷◌, ◌==◌, ltb, if◌then◌else◌, length, take, drop, get_or, bit_or, bit_and,
}
use yubindb.State.{State, is_ok}
use yubindb.Coding.{decode_fixed32}
use yubindb.Crc.{Crc}
use yubindb.File.{Source, read_file, skip_file}
use yubindb.Wal.{block_size, header_size}

-- class Reader; `record` is not used.
pub record LogReader (F : Type 0) : Type 0 where
  pub file : F
  pub checksum : Bool
  pub backing_store : List ℕ
  pub eof : Bool
  pub last_record_offset : ℕ
  pub end_of_buffer_offset : ℕ
  pub initial_offset : ℕ

-- Reader(file, checksum, initial_offset)
unfoldable pub open_reader : {F : Type 0} → F → Bool → ℕ → LogReader F
open_reader file checksum initial = record {
  file = file;
  checksum = checksum;
  backing_store = [];
  eof = false;
  last_record_offset = 0;
  end_of_buffer_offset = 0;
  initial_offset = initial;
}

-- The types that a file does not hold.
abbrev pub eof_code : ℕ
eof_code = 5

abbrev pub bad_record_code : ℕ
bad_record_code = 6

-- What ReadPhysicalRecord does: it returns a type and a payload, or control leaves the loop by
-- `break` and reaches the end of the function, which has no `return` there.
pub data Physical (F : Type 0) : Type 0 where
  returned : ℕ → List ℕ → LogReader F → Physical F
  no_return : LogReader F → Physical F
  out_of_fuel : Physical F

-- `const unsigned int type = header[6];` with a signed char
unfoldable pub type_of_byte : ℕ → ℕ
type_of_byte b = if ltb b 128 then b else b + (2 ^ 32 - 256)

module _ (crc : Crc) {F : Type 0} where
  -- The body of ReadPhysicalRecord behind the refill.
  unfoldable pub parse_physical : LogReader F → Physical F
  parse_physical r =
      let store = r.backing_store in
      let type = type_of_byte (get_or store 6 0) in
      let size = bit_or (bit_and (get_or store 4 0) 255) (bit_and (get_or store 5 0) 255 * 2 ^ 8) in
      let cleared = record r { backing_store = [] } in
      if ltb (length store) (header_size + size)
      then returned (if r.eof then eof_code else bad_record_code) [] cleared
      else if type == 0 && size == 0
      then returned bad_record_code [] cleared
      else if r.checksum
          && not (crc.crc32c (take (1 + size) (drop 6 store)) == decode_fixed32 store)
      then returned bad_record_code [] cleared
      else returned type (take size (drop header_size store))
          (record r { backing_store = drop (header_size + size) store })

  module _ (source : Source F) where
    -- ReadPhysicalRecord. Each round but the last fills the store.
    unfoldable pub read_physical : ℕ → ℕ → LogReader F → Physical F
    read_physical zero readsize r = out_of_fuel
    read_physical (suc fuel) readsize r =
        let (status, bytes, got, f) = read_file source block_size [] r.file in
        let size : ℕ = elim got [ none ↦ readsize | some k ↦ k ] in
        let filled = record r {
          file = f;
          backing_store = bytes;
          end_of_buffer_offset = (r.end_of_buffer_offset + length bytes) % 2 ^ 64;
        } in
        let refill =
          if size == 0
          then no_return (record r { file = f; backing_store = bytes })
          else if not (is_ok status)
          then returned eof_code [] (record filled { backing_store = []; eof = true })
          else read_physical fuel size (record filled { eof = ltb (length bytes) block_size }) in
        if ltb (length r.backing_store) header_size
        then (if r.eof then returned eof_code [] (record r { backing_store = [] }) else refill)
        else parse_physical r

    unfoldable pub read_physical_record : LogReader F → Physical F
    read_physical_record r = read_physical 3 0 r

    -- SkipToInitialBlock
    unfoldable pub skip_to_initial_block : LogReader F → Bool × LogReader F
    skip_to_initial_block r =
        let offset_in_block = r.initial_offset % block_size in
        let start =
          r.initial_offset
          - offset_in_block
          + (if ltb (block_size - 6) offset_in_block then block_size else 0) in
        let (s, f) = skip_file source start r.file in
        if ltb 0 start
        then (is_ok s, record r { file = f; end_of_buffer_offset = start })
        else (true, record r { end_of_buffer_offset = start })

-- ReadRecord: its answer with `*str`, or the undefined end of ReadPhysicalRecord.
pub data ReadResult (F : Type 0) : Type 0 where
  read : Bool → List ℕ → LogReader F → ReadResult F
  undefined : LogReader F → ReadResult F
  unfinished : ReadResult F

-- The switch on the type, and the `return false` behind it, which ends the first round of the
-- loop. So `in_fragmented_record` is false at the switch, and a first fragment is not joined.
unfoldable pub dispatch : {F : Type 0} → Physical F → ReadResult F
dispatch out_of_fuel = unfinished
dispatch (no_return r) = undefined r
dispatch (returned type frame r) =
    let offset =
      (r.end_of_buffer_offset + 2 ^ 64 + 2 ^ 64 - length r.backing_store - length frame) % 2 ^ 64 in
    if type == 1
    then read true frame (record r { last_record_offset = offset })
    else if type == 2
    then read false frame r
    else read false [] r

module _ (crc : Crc) {F : Type 0} (source : Source F) where
  unfoldable pub read_record : List ℕ → LogReader F → ReadResult F
  read_record str r =
      let (skipped, r') = skip_to_initial_block crc source r in
      if ltb r.last_record_offset r.initial_offset
      then (if skipped then dispatch (read_physical_record crc source r') else read false str r')
      else dispatch (read_physical_record crc source r)

  -- `while (reads.ReadRecord(&ptr) …)`: the records that the loop of Recover gets. `none`: a read
  -- is undefined, or there are more records than fuel.
  unfoldable pub read_all : ℕ → LogReader F → Option (List (List ℕ))
  read_all zero r = none
  read_all (suc fuel) r = elim (read_record [] r) [
    | unfinished ↦ none
    | undefined r' ↦ none
    | read true str r' ↦ elim (read_all fuel r') [ none ↦ none | some strs ↦ some (str ∷ strs) ]
    | read false str r' ↦ some []
  ]
