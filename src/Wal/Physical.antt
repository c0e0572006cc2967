-- ===== src/Wal/Physical.antt =====
-- One physical record, and the filler of a block, on a disk whose writes are whole.
use yubindb.Prelude.{
  ℕ, ◌+◌, ◌-◌, ◌≤◌, ◌<◌, ◌≡◌, refl, ap, ◌∙◌, Bool-cases, inl, inr, Option, some, List, [], ◌++◌,
  ltb, if◌then◌else◌, length, length-append, length-replicate, replicate, append_assoc, append-nil,
  arith,
}
use yubindb.State.{State, is_ok}
use yubindb.Coding.{encode_fixed32}
use yubindb.Coding.Fixed.{length-encode_fixed32}
use yubindb.Crc.{Crc}
use yubindb.File.{Disk, IsReliable, WritableFile}
use yubindb.File.Buffer.{IsValid, written, append_fits, flush-Stores}
use yubindb.Wal.{
  RecordType, block_size, header_size, WalWriter, header, flush_physical_record, fill_block,
}

-- Between two records: the position lies in a block, and the file's buffer is empty.
pub record IsWriter {D : Type 0} (w : WalWriter D) : Type 0 where
  pub file_valid : IsValid w.file
  pub in_block : w.block_offset ≤ block_size
  pub flushed : w.file.offset ≡ 0

-- Behind the filler the buffer may hold it.
pub record IsFilled {D : Type 0} (w : WalWriter D) : Type 0 where
  pub file_valid : IsValid w.file
  pub in_block : w.block_offset + header_size ≤ block_size
  pub nearly : w.file.offset < header_size

-- `r` is a success that adds `bytes` to the log and leaves the position `offset` in the block.
pub record Wrote {D : Type 0} (disk : Disk D) (w : WalWriter D) (bytes : List ℕ) (offset : ℕ)
    (r : Option (State × WalWriter D)) : Type 0 where
  pub after : WalWriter D
  pub runs : r ≡ some (State.ok, after)
  pub content : written disk after.file ≡ written disk w.file ++ bytes
  pub position : after.block_offset ≡ offset
  pub writer : IsWriter after

pub length-header :
    (crc : Crc) (t : RecordType) (payload : List ℕ) (size : ℕ)
    → length (header crc t payload size) ≡ 7
unfolding header
length-header crc t payload size =
    rw (length-append (encode_fixed32 (crc.extend _ payload)), length-encode_fixed32) (omega arith)

-- A file whose buffer is empty holds all that was written.
pub written-flushed :
    {D : Type 0} (disk : Disk D) (f : WritableFile D)
    → f.offset ≡ 0
    → written disk f ≡ disk.contents f.device
written-flushed disk f at = rw (at, append-nil (disk.contents f.device))

module _ (crc : Crc) {D : Type 0} (disk : Disk D) (reliable : IsReliable disk) where
  -- Flushphyrecord adds the header and the payload, where they fit the block.
  pub flush_physical_record_lem :
      (t : RecordType) (payload : List ℕ) (w : WalWriter D)
      → IsFilled w
      → w.block_offset + (header_size + length payload) ≤ block_size
      → Wrote disk w
          (header crc t payload (length payload) ++ payload)
          (w.block_offset + (header_size + length payload))
          (flush_physical_record crc disk t payload w)
  unfolding flush_physical_record is_ok
  flush_physical_record_lem t payload w v fits =
      let head = header crc t payload (length payload) in
      let size = length-header crc t payload (length payload) in
      let (f, runs, at, content, valid) =
        append_fits disk head w.file v.file_valid (omega (arith, v.nearly, size)) in
      let (f', runs', at', content', valid') =
        append_fits disk payload f valid (omega (arith, v.nearly, size, at)) in
      let (f'', runs'', at'', same, content'') = flush-Stores disk reliable f' valid' in
      record {
        after = record {
          file = f'';
          block_offset = w.block_offset + (header_size + length payload);
        };
        runs = rw (runs, runs', runs'');
        content =
            written-flushed disk f'' at''
            ∙ content''
            ∙ content'
            ∙ ap (λ t. t ++ payload) content
            ∙ append_assoc (written disk w.file) head payload;
        position = refl;
        writer = record {
          file_valid = record { backed = omega (arith, at''); bounded = omega (arith, at'') };
          in_block = fits;
          flushed = omega (arith, at'');
        };
      }

-- Where a new record finds the block: at its start, if the header does not fit what is left.
abbrev pub start_of : ℕ → ℕ
start_of offset = if ltb (block_size - offset) header_size then 0 else offset

-- The filler before it.
abbrev pub filler : ℕ → List ℕ
filler offset =
    if ltb (block_size - offset) header_size then replicate (block_size - offset) 0 else []

module _ {D : Type 0} (disk : Disk D) where
  -- The filler is zeros up to the end of the block, and the next record starts a block.
  pub fill_block_lem :
      (w : WalWriter D)
      → IsWriter w
      → (v : WalWriter D) × (fill_block disk w ≡ some v)
        × (written disk v.file ≡ written disk w.file ++ filler w.block_offset)
        × (v.block_offset ≡ start_of w.block_offset)
        × IsFilled v
  unfolding fill_block
  fill_block_lem w v =
      let size = length-replicate {A = ℕ} (block_size - w.block_offset) 0 in
      let (f, runs, at, content, valid) =
        append_fits disk (replicate (block_size - w.block_offset) 0) w.file v.file_valid
          (omega (arith, size, v.flushed)) in
      elim (Bool-cases (ltb (block_size - w.block_offset) header_size)) [
        | inl short ↦ elim (Bool-cases (ltb 0 (block_size - w.block_offset))) [
          | inl some_left ↦ (
            record { file = f; block_offset = 0 },
            rw (short, some_left, runs),
            rw short content,
            rw short,
            record {
              file_valid = valid;
              in_block = omega arith;
              nearly = ground (arith, at, size, v.flushed);
            },
          )
          | inr full ↦ (
            record w { block_offset = 0 },
            rw (short, full),
            let e : block_size - w.block_offset ≡ 0 = ground arith in
                rw (e, append-nil (written disk w.file)),
            rw short,
            record {
              file_valid = v.file_valid;
              in_block = omega arith;
              nearly = omega (arith, v.flushed);
            },
          )
        ]
        | inr room ↦ (
          w,
          rw room,
          rw (room, append-nil (written disk w.file)),
          rw room,
          record {
            file_valid = v.file_valid;
            in_block = ground arith;
            nearly = omega (arith, v.flushed);
          },
        )
      ]
