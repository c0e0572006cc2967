-- ===== src/Wal/Fragments.antt =====
-- The bytes of one log record, where it fits its block and where it passes the block's end.
use yubindb.Prelude.{
  ℕ, ◌+◌, ◌-◌, ◌^◌, ◌≤◌, ◌<◌, ◌≡◌, refl, ap, sym, ◌∙◌, subst, min, some, List, [], ◌∷◌, ◌++◌,
  length, length-take, length-drop, take, drop, take-append, drop-append, take_all, append-nil,
  arith,
}
use yubindb.State.{State}
use yubindb.Crc.{Crc}
use yubindb.File.{Disk, IsReliable}
use yubindb.File.Buffer.{written}
use yubindb.Wal.{RecordType, full_type, block_size, header_size, WalWriter, header, append_record}
use yubindb.Wal.Physical.{IsWriter, Wrote, start_of, filler}
use yubindb.Wal.Append.{fragment_type, Blocks, done, fragment, append_record-Appended}

-- A physical record: header and payload.
abbrev pub physical : Crc → RecordType → List ℕ → List ℕ
physical crc t chunk = header crc t chunk (length chunk) ++ chunk

module _ (crc : Crc) where
  Blocks-nil :
      {o o' : ℕ} {p bytes : List ℕ}
      → Blocks crc o p bytes o'
      → length p ≡ 0
      → (bytes ≡ []) × (o' ≡ o)
  Blocks-nil (done o) e = (refl, refl)
  Blocks-nil (fragment o chunk rest bytes o' more cut b) e = absurd (omega arith)

  -- The first fragment takes what the block has room for.
  Blocks-first :
      {o o' : ℕ} {p bytes : List ℕ}
      → Blocks crc o p bytes o'
      → 0 < length p
      → let n = min (length p) (block_size - start_of o - header_size) in
        (bytes' : List ℕ) × (bytes
          ≡ filler o ++ (physical crc (fragment_type (take n p)) (take n p) ++ bytes'))
        × Blocks crc (start_of o + (header_size + n)) (drop n p) bytes' o'
  Blocks-first (done o) h = absurd (omega arith)
  Blocks-first (fragment o chunk rest bytes o' more cut b) h =
      let n = min (length (chunk ++ rest)) (block_size - start_of o - header_size) in
      let front : take n (chunk ++ rest) ≡ chunk = take-append n chunk rest (sym cut) in
      let back : drop n (chunk ++ rest) ≡ rest = drop-append n chunk rest (sym cut) in
      (bytes, rw front, rw (back, ← cut) b)

  fragment_type-full : (chunk : List ℕ) → 0 < length chunk → fragment_type chunk ≡ full_type
  fragment_type-full [] h = absurd (omega arith)
  fragment_type-full (b ∷ bs) h = refl

  -- A payload that fits is one full record.
  Blocks-fits :
      {o o' : ℕ} {p bytes : List ℕ}
      → Blocks crc o p bytes o'
      → 0 < length p
      → start_of o + (header_size + length p) ≤ block_size
      → (bytes ≡ filler o ++ physical crc full_type p)
        × (o' ≡ start_of o + (header_size + length p))
  Blocks-fits {o} {o'} {p} {bytes} b h fits =
      let n = min (length p) (block_size - start_of o - header_size) in
      let all : n ≡ length p = omega arith in
      let (bytes', e, later) = Blocks-first b h in
      let (nil, same) = Blocks-nil later (omega (arith, length-drop n p)) in
      (
        e
            ∙ rw (take_all n p (omega arith), fragment_type-full p h, nil)
                (ap (λ t. filler o ++ t) (append-nil (physical crc full_type p))),
        omega (arith, same),
      )

  -- A payload that passes the end of one block, and fits the next, is two full records.
  pub Blocks-two :
      {o o' : ℕ} {p bytes : List ℕ}
      → Blocks crc o p bytes o'
      → let a = block_size - start_of o - header_size in
        0 < a
        → a < length p
        → length p ≤ a + (block_size - header_size)
        → bytes
          ≡ filler o ++ (physical crc full_type (take a p) ++ physical crc full_type (drop a p))
  Blocks-two {o} {o'} {p} {bytes} b pos over fits =
      let a = block_size - start_of o - header_size in
      let n = min (length p) a in
      let all : n ≡ a = omega arith in
      let (bytes', e, later) = Blocks-first b (omega arith) in
      let next : start_of o + (header_size + a) ≡ block_size = omega arith in
      let at_end : Blocks crc block_size (drop a p) bytes' o' =
        subst (λ k. Blocks crc k (drop a p) bytes' o') next
          (subst (λ k. Blocks crc (start_of o + (header_size + k)) (drop k p) bytes' o') all
            later) in
      let (second, same) =
        Blocks-fits at_end (omega (arith, length-drop a p)) (omega (arith, length-drop a p)) in
      let head : take n p ≡ take a p = ap (λ k. take k p) all in
      e ∙ rw (head, fragment_type-full (take a p) (omega (arith, length-take a p)), second)

  module _ {D : Type 0} (disk : Disk D) (reliable : IsReliable disk) (str : List ℕ)
      (w : WalWriter D) (v : IsWriter w) (nonempty : 0 < length str)
      (word : length str < 2 ^ 32) where
    -- On a disk whose writes are whole, a record that is not empty, of less than 2 ^ 32 bytes, that
    -- fits the rest of its block is written as one full record, behind the filler if the header did
    -- not fit.
    pub append_record_fits :
        start_of w.block_offset + (header_size + length str) ≤ block_size
        → Wrote disk w
            (filler w.block_offset ++ physical crc full_type str)
            (start_of w.block_offset + (header_size + length str))
            (append_record crc disk str w)
    append_record_fits fits =
        let a = append_record-Appended crc disk reliable str w word v in
        let (bytes, offset) = Blocks-fits a.blocks nonempty fits in
        record {
          after = a.wrote.after;
          runs = a.wrote.runs;
          content = rw (← bytes) a.wrote.content;
          position = a.wrote.position ∙ offset;
          writer = a.wrote.writer;
        }

    -- On a disk whose writes are whole, where the block has room for a byte of it at least, a
    -- longer record that ends in the next block becomes two full records: neither is marked as a
    -- part of it.
    pub append_record_splits :
        let a = block_size - start_of w.block_offset - header_size in
        0 < a
        → a < length str
        → length str ≤ a + (block_size - header_size)
        → (w' : WalWriter D) × (append_record crc disk str w ≡ some (State.ok, w'))
          × (written disk w'.file
              ≡ written disk w.file
                ++ (filler w.block_offset
                    ++ (physical crc full_type (take a str)
                        ++ physical crc full_type (drop a str))))
    append_record_splits pos over fits =
        let a = append_record-Appended crc disk reliable str w word v in
        (a.wrote.after, a.wrote.runs, rw (← Blocks-two a.blocks pos over fits) a.wrote.content)
