-- ===== src/Reader/Recover.antt =====
-- Reading a log back: the records of one block, and a log that is shorter than a header.
use yubindb.Prelude.{
  ℕ, suc, ◌+◌, ◌-◌, ◌%◌, ◌^◌, ◌≤◌, ◌<◌, ◌≡◌, refl, ap, sym, ◌∙◌, Bool, true, false, some, List, [],
  ◌∷◌, ◌++◌, length, length-append, ◌==◌, take, drop, take-append, take_all, append-nil, arith, ltb,
  Bool-cases, inl, inr, if◌then◌else◌, le→not-ltb, lt→ltb, ap₂, pos→nonzero, All,
}
use yubindb.State.{State, is_ok}
use yubindb.Crc.{Crc, IsCrc}
use yubindb.File.{Source, read_file}
use yubindb.Wal.{RecordType, full_type, block_size, header_size, header}
use yubindb.Wal.Physical.{length-header}
use yubindb.Wal.Fragments.{physical}
use yubindb.Reader.{
  LogReader, open_reader, read_physical, read_physical_record, read, undefined, dispatch,
  read_record, read_all,
}
use yubindb.Reader.Parse.{parse_physical-physical}

-- `::read` on a regular file of which `remaining` is still to come.
pub record IsRegular {F : Type 0} (source : Source F) (remaining : F → List ℕ) : Type 0 where
  pub reads : (n : ℕ) (f : F) → (source.read n f).0 ≡ some (take n (remaining f))
  pub rest : (n : ℕ) (f : F) → remaining (source.read n f).1 ≡ drop n (remaining f)

-- The log of a row of records, each a full one.
abbrev pub log_bytes : Crc → List (List ℕ) → List ℕ
log_bytes crc [] = []
log_bytes crc (str ∷ strs) = physical crc full_type str ++ log_bytes crc strs

abbrev pub IsNonEmpty : List ℕ → Type 0
IsNonEmpty str = 0 < length str

pub length-physical :
    (crc : Crc) (t : RecordType) (chunk : List ℕ)
    → length (physical crc t chunk) ≡ header_size + length chunk
length-physical crc t chunk = omega (
  arith,
  length-append (header crc t chunk (length chunk)) chunk,
  length-header crc t chunk (length chunk),
)

module _ (crc : Crc) (ok : IsCrc crc) {F : Type 0} (source : Source F) where
  -- With a record at the front of its store, the reader returns it and nothing else changes.
  read_record_stored :
      (chunk rest : List ℕ) (r : LogReader F)
      → 0 < length chunk
      → length chunk < 2 ^ 16
      → r.initial_offset ≡ 0
      → let store = physical crc full_type chunk ++ rest in
        (offset : ℕ) × (read_record crc source [] (record r { backing_store = store })
          ≡ read true chunk (record r { backing_store = rest; last_record_offset = offset }))
  unfolding read_record dispatch read_physical_record read_physical
  read_record_stored chunk rest r pos h init =
      let store = physical crc full_type chunk ++ rest in
      let long : ltb (length store) header_size ≡ false = ground (
        arith,
        length-append (physical crc full_type chunk) rest,
        length-physical crc full_type chunk,
      ) in
      let zero_offset : ltb r.last_record_offset r.initial_offset ≡ false = ground arith in
      (
        (r.end_of_buffer_offset + 2 ^ 64 + 2 ^ 64 - length rest - length chunk) % 2 ^ 64,
        rw (zero_offset, long, parse_physical-physical crc ok full_type chunk rest h r pos),
      )

  read_record_at_end :
      (r : LogReader F)
      → r.initial_offset ≡ 0
      → read_record crc source [] (record r { backing_store = []; eof = true })
        ≡ read false [] (record r { backing_store = []; eof = true })
  unfolding read_record dispatch read_physical_record read_physical
  read_record_at_end r init =
      let zero_offset : ltb r.last_record_offset r.initial_offset ≡ false = ground arith in
      rw zero_offset

  -- A store that holds the rest of the file gives its records in order.
  read_all_stored :
      (strs : List (List ℕ)) (r : LogReader F)
      → All IsNonEmpty strs
      → length (log_bytes crc strs) < block_size
      → r.initial_offset ≡ 0
      → read_all crc source
          (suc (length strs))
          (record r { backing_store = log_bytes crc strs; eof = true })
        ≡ some strs
  unfolding read_all
  read_all_stored [] r pos h init = rw (read_record_at_end r init, read_all)
  read_all_stored (str ∷ strs) r pos h init =
      let size : length str + length (log_bytes crc strs) + header_size < block_size = omega (
        arith,
        length-append (physical crc full_type str) (log_bytes crc strs),
        length-physical crc full_type str,
      ) in
      let (offset, e) =
        read_record_stored str (log_bytes crc strs) (record r { eof = true }) pos.0 (omega arith)
          init in
      rw (
        e,
        read_all,
        read_all_stored strs (record r { last_record_offset = offset }) pos.1 (omega arith) init,
      )

  module _ (remaining : F → List ℕ) (regular : IsRegular source remaining) (f : F)
      (check : Bool) where
    read_file_regular :
        (n : ℕ)
        → read_file source n [] f ≡ (
          State.ok,
          take n (remaining f),
          some (length (take n (remaining f))),
          (source.read n f).1,
        )
    unfolding read_file
    read_file_regular n = rw (regular.reads n f, read_file)

    -- The reader behind the first read of a file, which takes one block of it.
    abbrev filled : LogReader F
    filled = record (open_reader f check 0) {
      file = (source.read block_size f).1;
      backing_store = take block_size (remaining f);
      eof = ltb (length (take block_size (remaining f))) block_size;
      end_of_buffer_offset = (0 + length (take block_size (remaining f))) % 2 ^ 64;
    }

    initial_zero : filled.initial_offset ≡ 0
    unfolding open_reader
    initial_zero = refl

    first_block :
        header_size ≤ length (take block_size (remaining f))
        → read_record crc source [] (open_reader f check 0) ≡ read_record crc source [] filled
    unfolding read_record read_physical_record read_physical open_reader is_ok
    first_block long =
        let nonzero : (length (take block_size (remaining f)) == 0) ≡ false =
          pos→nonzero _ (omega arith) in
        let enough : ltb (length (take block_size (remaining f))) header_size ≡ false =
          le→not-ltb _ _ long in
        rw (read_file_regular block_size, nonzero, enough)

    -- A log of less than a header. If it is empty, the read reaches the end of ReadPhysicalRecord
    -- without a return; otherwise it says that there is no record.
    pub read_record_short_log :
        length (remaining f) < header_size
        → (r : LogReader F) × (read_record crc source [] (open_reader f check 0)
            ≡ (if length (remaining f) == 0 then undefined r else read false [] r))
    unfolding read_record dispatch read_physical_record read_physical open_reader is_ok
    read_record_short_log short =
        let all : take block_size (remaining f) ≡ remaining f =
          take_all block_size (remaining f) (omega arith) in
        let last : ltb (length (remaining f)) block_size ≡ true = lt→ltb _ _ (omega arith) in
        let less : ltb (length (remaining f)) header_size ≡ true = lt→ltb _ _ short in
        elim (Bool-cases (length (remaining f) == 0)) [
          | inl e ↦ (
            record (open_reader f check 0) {
              file = (source.read block_size f).1;
              backing_store = remaining f;
            },
            rw (read_file_regular block_size, all, e),
          )
          | inr e ↦ (
            record (open_reader f check 0) {
              file = (source.read block_size f).1;
              backing_store = [];
              eof = true;
              end_of_buffer_offset = (0 + length (remaining f)) % 2 ^ 64;
            },
            rw (read_file_regular block_size, all, e, last, less),
          )
        ]

    -- A log of full records that ends within its first block is read back record by record.
    pub read_all-log_bytes :
        (strs : List (List ℕ))
        → All IsNonEmpty strs
        → 0 < length strs
        → length (log_bytes crc strs) < block_size
        → remaining f ≡ log_bytes crc strs
        → read_all crc source (suc (length strs)) (open_reader f check 0) ≡ some strs
    unfolding read_all
    read_all-log_bytes (str ∷ strs) pos some_record short e =
        let size : header_size ≤ length (log_bytes crc (str ∷ strs)) = omega (
          arith,
          length-append (physical crc full_type str) (log_bytes crc strs),
          length-physical crc full_type str,
        ) in
        let block : take block_size (remaining f) ≡ log_bytes crc (str ∷ strs) =
          ap (take block_size) e ∙ take_all block_size (log_bytes crc (str ∷ strs)) (omega arith) in
        let first = first_block (rw block size) in
        let same : read_all crc source (suc (length (str ∷ strs))) (open_reader f check 0)
            ≡ read_all crc source (suc (length (str ∷ strs))) filled =
          rw (first, read_all) in
        let ended : ltb (length (take block_size (remaining f))) block_size ≡ true =
          lt→ltb _ _ (rw block short) in
        same
        ∙ ap₂
            (λ store end.
              read_all crc source (suc (length (str ∷ strs)))
                (record filled { backing_store = store; eof = end }))
            block ended
        ∙ read_all_stored (str ∷ strs) filled pos short initial_zero
    read_all-log_bytes [] pos some_record short e = absurd (omega arith)

    -- A full record that fills the first block is returned, whatever comes behind it.
    pub read_record_first_block :
        (front back : List ℕ)
        → length front ≡ block_size - header_size
        → remaining f ≡ physical crc full_type front ++ back
        → (r : LogReader F) × (read_record crc source [] (open_reader f check 0)
            ≡ read true front r)
    read_record_first_block front back size e =
        let block : take block_size (remaining f) ≡ physical crc full_type front =
          ap (take block_size) e
          ∙ take-append block_size (physical crc full_type front) back
              (omega (arith, length-physical crc full_type front)) in
        let first = first_block (rw block (omega (arith, length-physical crc full_type front))) in
        let whole : take block_size (remaining f) ≡ physical crc full_type front ++ [] =
          block ∙ sym (append-nil (physical crc full_type front)) in
        let (offset, runs) =
          read_record_stored front [] filled (omega arith) (omega arith) initial_zero in
        (
          record filled { backing_store = []; last_record_offset = offset },
          first
              ∙ ap (λ store. read_record crc source [] (record filled { backing_store = store }))
                  whole
              ∙ runs,
        )
