-- ===== src/Wal/Runs.antt =====
-- The log writer over a disk in memory.
use yubindb.Prelude.{ℕ, ◌+◌, ◌-◌, ◌≡◌, refl, some, List, [], ◌∷◌, ◌++◌, take, drop, arith}
use yubindb.State.{State}
use yubindb.Coding.{encode_fixed32}
use yubindb.File.Buffer.{written}
use yubindb.Wal.{WalWriter, full_type, block_size, header_size, append_record, header, type_crc}
use yubindb.Wal.Physical.{IsWriter, Wrote, start_of, filler}
use yubindb.Wal.Append.{Appended, append_record-Appended}
use yubindb.Wal.Fragments.{physical, append_record_fits, append_record_splits}
use yubindb.Sample.{memory_disk, memory_disk-IsReliable, empty_file, sum_crc, sum}

abbrev fresh : WalWriter (List ℕ)
fresh = record { file = empty_file; block_offset = 0 }

fresh-IsWriter : IsWriter fresh
fresh-IsWriter = record {
  file_valid = record { backed = omega arith; bounded = omega arith };
  in_block = omega arith;
  flushed = refl;
}

abbrev str : List ℕ
str = 7 ∷ 8 ∷ []

header_bytes : header sum_crc full_type str 2 ≡ 16 ∷ 0 ∷ 0 ∷ 0 ∷ 2 ∷ 0 ∷ 1 ∷ []
unfolding header type_crc sum encode_fixed32
header_bytes = refl

append_record-Appended_example :
    Appended sum_crc memory_disk memory_disk-IsReliable fresh str
      (append_record sum_crc memory_disk str fresh)
append_record-Appended_example =
    append_record-Appended sum_crc memory_disk memory_disk-IsReliable str fresh (omega arith)
      fresh-IsWriter

append_record_fits_example :
    Wrote memory_disk fresh
      (filler 0 ++ physical sum_crc full_type str)
      (start_of 0 + (header_size + 2))
      (append_record sum_crc memory_disk str fresh)
append_record_fits_example =
    append_record_fits sum_crc memory_disk memory_disk-IsReliable str fresh fresh-IsWriter
      (omega arith) (omega arith) (omega arith)

-- Ten bytes where eight fit.
abbrev near_end : WalWriter (List ℕ)
near_end = record { file = empty_file; block_offset = block_size - 15 }

near_end-IsWriter : IsWriter near_end
near_end-IsWriter = record {
  file_valid = record { backed = omega arith; bounded = omega arith };
  in_block = omega arith;
  flushed = refl;
}

abbrev ten : List ℕ
ten = 0 ∷ 1 ∷ 2 ∷ 3 ∷ 4 ∷ 5 ∷ 6 ∷ 7 ∷ 8 ∷ 9 ∷ []

append_record_splits_example :
    (w : WalWriter (List ℕ)) × (append_record sum_crc memory_disk ten near_end ≡ some (State.ok, w))
    × (written memory_disk w.file
        ≡ written memory_disk empty_file
          ++ (filler (block_size - 15)
              ++ (physical sum_crc full_type (take 8 ten)
                  ++ physical sum_crc full_type (drop 8 ten))))
append_record_splits_example =
    append_record_splits sum_crc memory_disk memory_disk-IsReliable ten near_end near_end-IsWriter
      (omega arith) (omega arith) (omega arith) (omega arith) (omega arith)
