-- ===== src/Reader/RoundTrip.antt =====
-- What the writer appends to an empty log, the reader returns.
use yubindb.Prelude.{
  ℕ, suc, ◌+◌, ◌-◌, ◌<◌, ◌≡◌, refl, ap, sym, ◌∙◌, Bool, false, Option, some, List, [], ◌∷◌, ◌++◌,
  length, length-append, append_assoc, append-nil, arith, All, ltb,
}
use yubindb.Crc.{Crc, IsCrc}
use yubindb.File.{Disk, IsReliable, Source}
use yubindb.File.Buffer.{written}
use yubindb.Wal.{WalWriter, full_type, block_size, header_size, ◌>>=◌, append_record}
use yubindb.Wal.Physical.{IsWriter, written-flushed, start_of, filler}
use yubindb.Wal.Fragments.{physical, append_record_fits}
use yubindb.Reader.{open_reader, read_all}
use yubindb.Reader.Recover.{IsRegular, log_bytes, IsNonEmpty, length-physical, read_all-log_bytes}

-- One Appendrecord after the other.
abbrev pub append_all :
    Crc → {D : Type 0} → Disk D → List (List ℕ) → WalWriter D → Option (WalWriter D)
append_all crc disk [] w = some w
append_all crc disk (str ∷ strs) w = do
  (s, v) ← append_record crc disk str w
  append_all crc disk strs v

module _ (crc : Crc) {D : Type 0} (disk : Disk D) (reliable : IsReliable disk) where
  append_all-log_bytes :
      (strs : List (List ℕ)) (w : WalWriter D)
      → IsWriter w
      → All IsNonEmpty strs
      → w.block_offset + length (log_bytes crc strs) < block_size
      → (w' : WalWriter D) × (append_all crc disk strs w ≡ some w')
        × (written disk w'.file ≡ written disk w.file ++ log_bytes crc strs)
        × IsWriter w'
  append_all-log_bytes [] w v pos fits = (w, refl, sym (append-nil (written disk w.file)), v)
  append_all-log_bytes (str ∷ strs) w v pos fits =
      let total : w.block_offset + (header_size + length str + length (log_bytes crc strs))
          < block_size =
        omega (
          arith,
          length-append (physical crc full_type str) (log_bytes crc strs),
          length-physical crc full_type str,
        ) in
      let room : ltb (block_size - w.block_offset) header_size ≡ false = ground arith in
      let start : start_of w.block_offset ≡ w.block_offset = rw room in
      let a =
        append_record_fits crc disk reliable str w v pos.0 (omega arith) (omega (arith, start)) in
      let (w', runs, content, last) =
        append_all-log_bytes strs a.after a.writer pos.1 (omega (arith, a.position, start)) in
      let bytes : filler w.block_offset ≡ [] = rw room in
      let one : written disk a.after.file ≡ written disk w.file ++ physical crc full_type str =
        a.content ∙ ap (λ t. written disk w.file ++ (t ++ physical crc full_type str)) bytes in
      (
        w',
        rw (a.runs, runs),
        content
            ∙ ap (λ t. t ++ log_bytes crc strs) one
            ∙ append_assoc (written disk w.file) (physical crc full_type str) (log_bytes crc strs),
        last,
      )

module _ (crc : Crc) (ok : IsCrc crc) {D F : Type 0} (disk : Disk D) (reliable : IsReliable disk)
    (source : Source F) (remaining : F → List ℕ) (regular : IsRegular source remaining)
    (file_of : List ℕ → F) (whole : (bytes : List ℕ) → remaining (file_of bytes) ≡ bytes) where
  -- Records that are appended to an empty log, and end before its first block does, are in its
  -- file, and are read back from it in their order, none missing and none added. The disk's writes are
  -- whole, and no record is empty.
  pub read_all-append_all :
      (strs : List (List ℕ)) (w : WalWriter D) (check : Bool)
      → IsWriter w
      → w.block_offset ≡ 0
      → written disk w.file ≡ []
      → All IsNonEmpty strs
      → 0 < length strs
      → length (log_bytes crc strs) < block_size
      → (w' : WalWriter D) × (append_all crc disk strs w ≡ some w')
        × (read_all crc source
              (suc (length strs))
              (open_reader (file_of (disk.contents w'.file.device)) check 0)
            ≡ some strs)
  read_all-append_all strs w check v start nothing pos some_record short =
      let (w', runs, content, last) =
        append_all-log_bytes crc disk reliable strs w v pos (omega (arith, start)) in
      let bytes : remaining (file_of (disk.contents w'.file.device)) ≡ log_bytes crc strs =
        whole (disk.contents w'.file.device)
        ∙ sym (written-flushed disk w'.file last.flushed)
        ∙ content
        ∙ ap (λ t. t ++ log_bytes crc strs) nothing in
      (
        w',
        runs,
        read_all-log_bytes crc ok source remaining regular (file_of (disk.contents w'.file.device))
            check strs pos some_record short bytes,
      )
