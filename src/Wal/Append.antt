-- ===== src/Wal/Append.antt =====
-- Appendrecord: which physical records a byte string becomes.
use yubindb.Prelude.{
  ℕ, zero, suc, ◌+◌, ◌-◌, ◌%◌, ◌^◌, ◌≤◌, ◌<◌, ◌≡◌, refl, ap, sym, ◌∙◌, subst, min, true, false,
  Option, some, List, [], ◌∷◌, ◌++◌, ◌==◌, if◌then◌else◌, length, length-take, length-drop, take,
  drop, take-append-drop, append_assoc, append-nil, arith,
}
use yubindb.State.{State}
use yubindb.Crc.{Crc}
use yubindb.File.{Disk, IsReliable}
use yubindb.File.Buffer.{written}
use yubindb.Wal.{
  RecordType, full_type, first_type, block_size, header_size, WalWriter, header, ends, record_type,
  append_loop, append_record,
}
use yubindb.Wal.Physical.{
  IsWriter, Wrote, start_of, filler, fill_block_lem, flush_physical_record_lem,
}

-- The type that the writer gives a fragment: full, but first for an empty fragment, which it
-- writes where seven bytes of a block are left.
abbrev pub fragment_type : List ℕ → RecordType
fragment_type [] = first_type
fragment_type (b ∷ bs) = full_type

-- The flag `end` is false only where no byte fits.
type-eq-fragment_type :
    (avail : ℕ) (b : ℕ) (bs : List ℕ)
    → record_type true (ends avail (suc (length bs)))
      ≡ fragment_type (take (min (suc (length bs)) avail) (b ∷ bs))
unfolding record_type ends
type-eq-fragment_type zero b bs =
    let e : min (suc (length bs)) 0 ≡ 0 = omega arith in rw e (ground arith)
type-eq-fragment_type (suc avail) b bs =
    let e : min (suc (length bs)) (suc avail) ≡ suc (min (length bs) avail) = omega arith in
    rw e (ground arith)

module _ (crc : Crc) where
  -- `Blocks o payload bytes o'`: from position `o` of a block on, `bytes` are the payload's
  -- fragments, each as long as what is left of the payload and of the block allow, and the next
  -- record goes to `o'`.
  pub data Blocks : ℕ → List ℕ → List ℕ → ℕ → Type 0 where
    done : (o : ℕ) → Blocks o [] [] o
    fragment :
        (o : ℕ) (chunk rest bytes : List ℕ) (o' : ℕ)
        → 0 < length (chunk ++ rest)
        → length chunk ≡ min (length (chunk ++ rest)) (block_size - start_of o - header_size)
        → Blocks (start_of o + (header_size + length chunk)) rest bytes o'
        → Blocks o
            (chunk ++ rest)
            (filler o
              ++ ((header crc (fragment_type chunk) chunk (length chunk) ++ chunk) ++ bytes))
            o'

  module _ {D : Type 0} (disk : Disk D) (reliable : IsReliable disk) where
    -- The bytes that a whole payload adds.
    pub record Appended (w : WalWriter D) (payload : List ℕ) (r : Option (State × WalWriter D))
        : Type 0 where
      pub bytes : List ℕ
      pub offset : ℕ
      pub blocks : Blocks w.block_offset payload bytes offset
      pub wrote : Wrote disk w bytes offset r

    -- Room for the payload in the block that `o` lies in, behind a header.
    abbrev avail_at : ℕ → ℕ
    avail_at o = block_size - start_of o - header_size

    -- Nothing is left to write.
    written_all : (w : WalWriter D) → IsWriter w → Appended w [] (some (State.ok, w))
    written_all w v = record {
      bytes = [];
      offset = w.block_offset;
      blocks = done w.block_offset;
      wrote = record {
        after = w;
        runs = refl;
        content = sym (append-nil (written disk w.file));
        position = refl;
        writer = v;
      };
    }

    -- A fragment in front of what the later rounds write.
    module _ (w x : WalWriter D) (chunk rest : List ℕ)
        (filled : written disk x.file ≡ written disk w.file ++ filler w.block_offset)
        (at : x.block_offset ≡ start_of w.block_offset) (more : 0 < length (chunk ++ rest))
        (cut : length chunk
          ≡ min (length (chunk ++ rest)) (block_size - x.block_offset - header_size))
        {r r' : Option (State × WalWriter D)}
        (one : Wrote disk x
          (header crc (fragment_type chunk) chunk (length chunk) ++ chunk)
          (x.block_offset + (header_size + length chunk))
          r)
        (later : Appended one.after rest r') where
      prepend : Appended w (chunk ++ rest) r'
      prepend = record {
        bytes =
            filler w.block_offset
            ++ ((header crc (fragment_type chunk) chunk (length chunk) ++ chunk) ++ later.bytes);
        offset = later.offset;
        blocks = fragment w.block_offset chunk rest later.bytes later.offset more (rw (← at) cut) (
            subst (λ o. Blocks o rest later.bytes later.offset)
              (one.position ∙ ap (λ o. o + (header_size + length chunk)) at) later.blocks);
        wrote = record {
          after = later.wrote.after;
          runs = later.wrote.runs;
          content = later.wrote.content ∙ rw (one.content, filled) (simp append_assoc);
          position = later.wrote.position;
          writer = later.wrote.writer;
        };
      }

    -- One round for each byte is enough, and one more where the first finds seven bytes left.
    abbrev rounds : List ℕ → ℕ → ℕ
    rounds [] o = 0
    rounds (b ∷ bs) o = suc (length bs) + (if o == block_size - header_size then 1 else 0)

    rounds_shrink :
        (o x n : ℕ) (bs rest : List ℕ) (o' fuel : ℕ)
        → x ≡ start_of o
        → x + header_size ≤ block_size
        → n ≡ min (suc (length bs)) (block_size - x - header_size)
        → length rest ≡ suc (length bs) - n
        → o' ≡ x + (header_size + n)
        → suc (length bs) + (if o == block_size - header_size then 1 else 0) ≤ suc fuel
        → rounds rest o' ≤ fuel
    rounds_shrink o x n bs [] o' fuel hx fits hn hr ho enough = omega arith
    rounds_shrink o x n bs (c ∷ cs) o' fuel hx fits hn hr ho enough = ground arith

    append_loop-Appended :
        (fuel : ℕ) (ptr : List ℕ) (w : WalWriter D)
        → IsWriter w
        → rounds ptr w.block_offset ≤ fuel
        → Appended w ptr (append_loop crc disk fuel true ptr (length ptr) State.ok w)
    unfolding append_loop
    append_loop-Appended zero [] w v enough = written_all w v
    append_loop-Appended zero (b ∷ bs) w v enough = absurd (omega arith)
    append_loop-Appended (suc fuel) [] w v enough = written_all w v
    append_loop-Appended (suc fuel) (b ∷ bs) w v enough =
        let (x, runs, content, at, filled) = fill_block_lem disk w v in
        let avail = block_size - x.block_offset - header_size in
        let n = min (suc (length bs)) avail in
        let ptr = b ∷ bs in
        let chunk = take n ptr in
        let cut : length chunk ≡ min n (suc (length bs)) = length-take n ptr in
        let fits : x.block_offset + (header_size + length chunk) ≤ block_size =
          omega (arith, cut, filled.in_block) in
        let one =
          flush_physical_record_lem crc disk reliable (fragment_type chunk) chunk x filled fits in
        let later = append_loop-Appended fuel (drop n ptr) one.after one.writer (
          rounds_shrink w.block_offset x.block_offset n bs (drop n ptr) one.after.block_offset fuel
            at filled.in_block refl (length-drop n ptr) (omega (arith, one.position, cut))
            enough) in
        let nonzero : (suc (length bs) == 0) ≡ false = ground arith in
        let step : append_loop crc disk (suc fuel) true ptr (length ptr) State.ok w
            ≡ append_loop crc disk fuel true (drop n ptr) (length (drop n ptr)) State.ok one.after =
          rw (nonzero, runs, type-eq-fragment_type avail b bs, one.runs, length-drop n ptr) in
        subst (Appended w ptr) (sym step) (
          subst
            (λ l. Appended w l (
              append_loop crc disk fuel true (drop n ptr) (length (drop n ptr)) State.ok one.after))
            (take-append-drop n ptr)
            (prepend w x chunk (drop n ptr) content at (rw (take-append-drop n ptr) (omega arith))
              (rw (take-append-drop n ptr) (omega (arith, cut))) one later))

    -- Appendrecord ends, succeeds, and writes the payload in fragments that fit their blocks.
    pub append_record-Appended :
        (str : List ℕ) (w : WalWriter D)
        → length str < 2 ^ 32
        → IsWriter w
        → Appended w str (append_record crc disk str w)
    unfolding append_record
    append_record-Appended str w h v =
        let word : length str % 2 ^ 32 ≡ length str = omega arith in
        rw word (append_loop-Appended (length str + 1) str w v (few str))
      where
        few : (l : List ℕ) → rounds l w.block_offset ≤ length l + 1
        few [] = omega arith
        few (b ∷ bs) = ground arith
