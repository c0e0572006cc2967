-- ===== src/Wal.antt =====
-- src/db/walog.h and src/db/walog.cpp: the writer of the write-ahead log, which the manifest uses
-- too. A log is a row of blocks of 32 KiB; a physical record is a header of seven bytes
-- (checksum, length, type) and its payload.
pub mod Physical
pub mod Append
pub mod Fragments
mod Runs
use yubindb.Prelude.{
  ℕ, zero, suc, ◌+◌, ◌-◌, ◌/◌, ◌%◌, ◌^◌, min, Bool, true, false, not, Option, none, some, List, [],
  ◌∷◌, ◌++◌, ◌==◌, ltb, if◌then◌else◌, length, take, drop, replicate, bit_and,
}
use yubindb.State.{State, is_ok}
use yubindb.Coding.{encode_fixed32}
use yubindb.Crc.{Crc}
use yubindb.File.{Disk, WritableFile, flush, append}

-- enum RecordType
pub data RecordType : Type 0 where
  zero_type full_type first_type middle_type last_type : RecordType

abbrev pub record_code : RecordType → ℕ
record_code zero_type = 0
record_code full_type = 1
record_code first_type = 2
record_code middle_type = 3
record_code last_type = 4

-- kBlockSize and kHeaderSize
abbrev pub block_size : ℕ
block_size = 32768

abbrev pub header_size : ℕ
header_size = 7

-- class walWriter, but for `type_crc`, which holds the checksum of each type's byte.
pub record WalWriter (D : Type 0) : Type 0 where
  pub file : WritableFile D
  pub block_offset : ℕ

infixl 5 ◌>>=◌
abbrev pub ◌>>=◌ : {A B : Type 0} → Option A → (A → Option B) → Option B
none >>= f = none
some a >>= f = f a

-- `bool end = avail > size ? size : avail;`
unfoldable pub ends : ℕ → ℕ → Bool
ends avail size = not ((if ltb size avail then size else avail) == 0)

unfoldable pub record_type : Bool → Bool → RecordType
record_type true true = full_type
record_type true false = first_type
record_type false true = last_type
record_type false false = middle_type

module _ {D : Type 0} (disk : Disk D) where
  -- The filler at the end of a block that has no room for a header. What Append answers is lost.
  unfoldable pub fill_block : WalWriter D → Option (WalWriter D)
  fill_block w =
      let left = block_size - w.block_offset in
      if ltb left header_size
      then (if ltb 0 left
          then (do
            (s, f) ← append disk (replicate left 0) w.file
            some (record { file = f; block_offset = 0 }))
          else some (record w { block_offset = 0 }))
      else some w

module _ (crc : Crc) where
  unfoldable pub type_crc : RecordType → ℕ
  type_crc t = crc.crc32c (record_code t ∷ [])

  -- The seven bytes of `buf` in Flushphyrecord.
  unfoldable pub header : RecordType → List ℕ → ℕ → List ℕ
  header t payload size =
      encode_fixed32 (crc.extend (type_crc t) payload)
      ++ (bit_and size 255 % 256) ∷ (size / 2 ^ 8 % 256) ∷ (record_code t) ∷ []

  module _ {D : Type 0} (disk : Disk D) where
    -- Flushphyrecord. Its assertion that the record fits the block is a theorem below.
    unfoldable pub flush_physical_record :
        RecordType → List ℕ → WalWriter D → Option (State × WalWriter D)
    flush_physical_record t payload w = do
      (s, f) ← append disk (header t payload (length payload)) w.file
      (if is_ok s
          then (do
            (s', f') ← append disk payload f
            (if is_ok s'
                then (do
                  (s'', f'') ← flush disk f'
                  some (
                    s',
                    record {
                      file = f'';
                      block_offset = w.block_offset + (header_size + length payload);
                    },
                  ))
                else some (s', record w { file = f' })))
          else some (s, record w { file = f }))

    -- `while (size > 0)`. No round changes `begin`. `none`: not over when the fuel is.
    unfoldable pub append_loop :
        ℕ → Bool → List ℕ → ℕ → State → WalWriter D → Option (State × WalWriter D)
    append_loop zero begin ptr size s w = if size == 0 then some (s, w) else none
    append_loop (suc fuel) begin ptr size s w =
        let round = do
          v ← fill_block disk w
          let avail = block_size - v.block_offset - header_size
          let n = min size avail
          (s', v') ← flush_physical_record (record_type begin (ends avail size)) (take n ptr) v
          append_loop fuel begin (drop n ptr) (size - n) s' v'
        in if size == 0 then some (s, w) else round

    -- Appendrecord. Each round but one that finds seven bytes left takes a byte at least.
    unfoldable pub append_record : List ℕ → WalWriter D → Option (State × WalWriter D)
    append_record str w =
        let size = length str % 2 ^ 32 in append_loop (size + 1) true str size State.ok w
