-- ===== src/Reader/Runs.antt =====
-- The reader over a file in memory.
use yubindb.Prelude.{
  ℕ, ◌≡◌, ◌<◌, refl, true, false, some, List, [], ◌∷◌, length, replicate, length-replicate, All,
  arith,
}
use yubindb.Coding.{encode_fixed32}
use yubindb.Wal.{header, WalWriter, append_record}
use yubindb.Wal.Physical.{IsWriter}
use yubindb.Reader.{LogReader, open_reader, read, read_record, read_all}
use yubindb.Reader.Recover.{IsRegular, log_bytes, IsNonEmpty, read_record_short_log}
use yubindb.Reader.Split.{first_part, append_record-read_record}
use yubindb.State.{State}
use yubindb.Reader.RoundTrip.{append_all, read_all-append_all}
use yubindb.Sample.{
  memory_disk, memory_disk-IsReliable, memory_source, empty_file, sum_crc, sum_crc-IsCrc,
}

memory-IsRegular : IsRegular memory_source (λ f. f)
memory-IsRegular = record { reads = λ n f. refl; rest = λ n f. refl }

abbrev strs : List (List ℕ)
strs = (7 ∷ 8 ∷ []) ∷ (9 ∷ []) ∷ []

strs-IsNonEmpty : All IsNonEmpty strs
strs-IsNonEmpty = (omega arith, (omega arith, tt))

log_length : length (log_bytes sum_crc strs) ≡ 17
unfolding header encode_fixed32
log_length = omega arith

abbrev opened : List ℕ → LogReader (List ℕ)
opened f = open_reader f true 0

-- A log of three bytes.
read_record_short_log_example :
    (r : LogReader (List ℕ)) × (read_record sum_crc memory_source [] (opened (1 ∷ 2 ∷ 3 ∷ []))
      ≡ read false [] r)
read_record_short_log_example =
    read_record_short_log sum_crc sum_crc-IsCrc memory_source (λ f. f) memory-IsRegular
      (1 ∷ 2 ∷ 3 ∷ []) true (omega arith)

abbrev fresh : WalWriter (List ℕ)
fresh = record { file = empty_file; block_offset = 0 }

fresh-IsWriter : IsWriter fresh
fresh-IsWriter = record {
  file_valid = record { backed = omega arith; bounded = omega arith };
  in_block = omega arith;
  flushed = refl;
}

read_all-append_all_example :
    (w : WalWriter (List ℕ)) × (append_all sum_crc memory_disk strs fresh ≡ some w)
    × (read_all sum_crc memory_source 3 (opened (memory_disk.contents w.file.device)) ≡ some strs)
read_all-append_all_example =
    read_all-append_all sum_crc sum_crc-IsCrc memory_disk memory_disk-IsReliable memory_source
      (λ f. f) memory-IsRegular (λ f. f) (λ bytes. refl) strs fresh true fresh-IsWriter refl refl
      strs-IsNonEmpty (omega arith) (omega (arith, log_length))

-- One byte more than the first block has room for.
abbrev long : List ℕ
long = replicate 32762 5

length-long : length long ≡ 32762
length-long = length-replicate {A = ℕ} 32762 5

append_record-read_record_example :
    (w : WalWriter (List ℕ)) × (append_record sum_crc memory_disk long fresh ≡ some (State.ok, w))
    × ((r : LogReader (List ℕ)) × (read_record sum_crc memory_source []
            (opened (memory_disk.contents w.file.device))
          ≡ read true (first_part long) r))
    × (length (first_part long) < length long)
append_record-read_record_example =
    append_record-read_record sum_crc sum_crc-IsCrc memory_disk memory_disk-IsReliable memory_source
      (λ f. f) memory-IsRegular (λ f. f) (λ bytes. refl) long fresh true fresh-IsWriter refl refl
      (omega (arith, length-long)) (omega (arith, length-long))
