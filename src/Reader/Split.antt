-- ===== src/Reader/Split.antt =====
-- What Reader::ReadRecord makes of a record that walWriter::Appendrecord split.
use yubindb.Prelude.{
  ℕ, ◌-◌, ◌*◌, ◌<◌, ◌≤◌, ◌≡◌, refl, sym, ap, ◌∙◌, Bool, true, some, List, [], ◌++◌, length,
  length-take, take, drop, arith,
}
use yubindb.State.{State}
use yubindb.Crc.{Crc, IsCrc}
use yubindb.File.{Disk, IsReliable, Source}
use yubindb.File.Buffer.{written}
use yubindb.Wal.{WalWriter, full_type, block_size, header_size, append_record}
use yubindb.Wal.Physical.{IsWriter, written-flushed, start_of, filler}
use yubindb.Wal.Fragments.{physical, Blocks-two}
use yubindb.Wal.Append.{append_record-Appended}
use yubindb.Reader.{LogReader, open_reader, read, read_record}
use yubindb.Reader.Recover.{IsRegular, read_record_first_block}

-- The bytes of a record that the first block has room for.
abbrev pub first_part : List ℕ → List ℕ
first_part str = take (block_size - header_size) str

module _ (crc : Crc) (ok : IsCrc crc) {D F : Type 0} (disk : Disk D) (reliable : IsReliable disk)
    (source : Source F) (remaining : F → List ℕ) (regular : IsRegular source remaining)
    (file_of : List ℕ → F) (whole : (bytes : List ℕ) → remaining (file_of bytes) ≡ bytes) where
  -- On a disk whose writes are whole, a record that is appended to an empty log, and passes the end
  -- of the first block but not of the second, is not read back: the reader of the file returns its
  -- first 32761 bytes, and calls them a record.
  pub append_record-read_record :
      (str : List ℕ) (w : WalWriter D) (check : Bool)
      → IsWriter w
      → w.block_offset ≡ 0
      → written disk w.file ≡ []
      → block_size - header_size < length str
      → length str ≤ 2 * (block_size - header_size)
      → (w' : WalWriter D) × (append_record crc disk str w ≡ some (State.ok, w'))
        × ((r : LogReader F) × (read_record crc source []
                (open_reader (file_of (disk.contents w'.file.device)) check 0)
              ≡ read true (first_part str) r))
        × (length (first_part str) < length str)
  append_record-read_record str w check v at_start nothing long short =
      let o : start_of w.block_offset ≡ 0 = ap start_of at_start in
      let room : block_size - start_of w.block_offset - header_size ≡ block_size - header_size =
        ap (λ k. block_size - k - header_size) o in
      let a = append_record-Appended crc disk reliable str w (omega arith) v in
      let two =
        Blocks-two crc a.blocks (omega (arith, room)) (omega (arith, room)) (omega (arith, room)) in
      let w' = a.wrote.after in
      let back = physical crc full_type (drop (block_size - header_size) str) in
      let bytes : disk.contents w'.file.device ≡ physical crc full_type (first_part str) ++ back =
        sym (written-flushed disk w'.file a.wrote.writer.flushed)
        ∙ a.wrote.content
        ∙ rw (nothing, two, ap filler at_start, room) refl in
      (
        w',
        a.wrote.runs,
        read_record_first_block crc ok source remaining regular
            (file_of (disk.contents w'.file.device)) check (first_part str) back
            (omega (arith, length-take (block_size - header_size) str))
            (whole (disk.contents w'.file.device) ∙ bytes),
        omega (arith, length-take (block_size - header_size) str),
      )
