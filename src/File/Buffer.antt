-- ===== src/File/Buffer.antt =====
-- What WritableFile hands to the disk, on a disk whose writes are whole.
use yubindb.Prelude.{
  ℕ, zero, suc, ◌+◌, ◌-◌, ◌%◌, ◌^◌, ◌≤◌, ◌<◌, ◌≡◌, refl, ap, ◌∙◌, min, Option, some, List, [], ◌++◌,
  ltb, ◌==◌, if◌then◌else◌, length, take, drop, length-append, length-take, take-append,
  append_assoc, append-nil, arith, take_all, Bool-cases, inl, inr,
}
use yubindb.State.{State}
use yubindb.File.{
  buffer_size, Disk, IsReliable, WritableFile, write_at, flush_loop, flush, append_rest, append,
}

-- The buffered bytes are there, and no more than fit.
pub record IsValid {D : Type 0} (f : WritableFile D) : Type 0 where
  pub backed : f.offset ≤ length f.buf
  pub bounded : f.offset ≤ buffer_size

-- What the file will hold once the buffer is flushed.
abbrev pub written : {D : Type 0} → Disk D → WritableFile D → List ℕ
written disk f = disk.contents f.device ++ take f.offset f.buf

take-write_at :
    (at : ℕ) (bytes buf : List ℕ) (n : ℕ)
    → at ≤ length buf
    → n ≡ at + length bytes
    → take n (write_at at bytes buf) ≡ take at buf ++ bytes
unfolding write_at
take-write_at at bytes buf n h e =
    let front = take at buf ++ bytes in
    rw (← append_assoc (take at buf) bytes (drop (at + length bytes) buf)) (
      take-append n front (drop (at + length bytes) buf)
        (omega (arith, length-append (take at buf) bytes, length-take at buf)))

length-write_at :
    (at : ℕ) (bytes buf : List ℕ)
    → at ≤ length buf
    → at + length bytes ≤ length (write_at at bytes buf)
unfolding write_at
length-write_at at bytes buf h = omega (
  arith,
  length-append (take at buf) (bytes ++ drop (at + length bytes) buf),
  length-append bytes (drop (at + length bytes) buf),
  length-take at buf,
)

module _ {D : Type 0} (disk : Disk D) where
  flush_loop-zero :
      (fuel : ℕ) (f : WritableFile D)
      → flush_loop disk fuel 0 f ≡ some (State.ok, record f { offset = 0 })
  unfolding flush_loop
  flush_loop-zero zero f = refl
  flush_loop-zero (suc fuel) f = refl

module _ {D : Type 0} (disk : Disk D) (reliable : IsReliable disk) where
  abbrev pub Stores : WritableFile D → Option (State × WritableFile D) → Type 0
  Stores f r =
      (g : WritableFile D) × (r ≡ some (State.ok, g))
      × (g.offset ≡ 0)
      × (g.buf ≡ f.buf)
      × (disk.contents g.device ≡ written disk f)

  flush_loop-Stores :
      (fuel : ℕ) (f : WritableFile D)
      → 0 < fuel
      → IsValid f
      → Stores f (flush_loop disk fuel f.offset f)
  unfolding flush_loop
  flush_loop-Stores zero f h v = absurd (omega arith)
  flush_loop-Stores (suc fuel) f h v = elim (Bool-cases (f.offset == 0)) [
    | inl done ↦ (
      record f { offset = 0 },
      rw done,
      refl,
      refl,
      let e : f.offset ≡ 0 = ground arith in rw (e, append-nil (disk.contents f.device)),
    )
    | inr more ↦ (
      record f { offset = 0; device = (disk.write (take f.offset f.buf) f.device).1 },
      ground (
        arith,
        v.backed,
        v.bounded,
        length-take f.offset f.buf,
        reliable.whole (take f.offset f.buf) f.device,
        flush_loop-zero disk fuel
            (record f { device = (disk.write (take f.offset f.buf) f.device).1 }),
      ),
      refl,
      refl,
      reliable.stored (take f.offset f.buf) f.device,
    )
  ]

  -- A flush writes the buffered bytes once, and empties the buffer.
  pub flush-Stores : (f : WritableFile D) → IsValid f → Stores f (flush disk f)
  unfolding flush
  flush-Stores f v = flush_loop-Stores (f.offset + 1) f (omega arith) v

-- The bytes that Append adds to a file whose buffer holds `offset` bytes already. Where `bytes` pass
-- the end of the buffer, what is left of them is taken from their start again, or dropped.
abbrev pub appended : ℕ → List ℕ → List ℕ
appended offset bytes =
    let room = buffer_size - offset in
    let left = length bytes - room in
    if left == 0
    then bytes
    else if ltb left buffer_size
    then take room bytes ++ take left bytes
    else take room bytes

module _ {D : Type 0} (disk : Disk D) where
  -- Where the bytes fit the buffer, Append keeps them all and calls no write.
  pub append_fits :
      (bytes : List ℕ) (f : WritableFile D)
      → IsValid f
      → f.offset + length bytes ≤ buffer_size
      → (g : WritableFile D) × (append disk bytes f ≡ some (State.ok, g))
        × (g.offset ≡ f.offset + length bytes)
        × (written disk g ≡ written disk f ++ bytes)
        × IsValid g
  unfolding append append_rest
  append_fits bytes f v h = (
    record f { buf = write_at f.offset bytes f.buf; offset = f.offset + length bytes },
    (let word : length bytes % 2 ^ 32 ≡ length bytes = omega arith in
        let all : min (length bytes) ((buffer_size + 2 ^ 32 - f.offset) % 2 ^ 32) ≡ length bytes =
          omega arith in
        let none_left : length bytes - length bytes ≡ 0 = omega arith in
        rw (word, all, none_left, take_all (length bytes) bytes (omega arith))),
    refl,
    rw (take-write_at f.offset bytes f.buf _ v.backed refl, append_assoc),
    record { backed = length-write_at f.offset bytes f.buf v.backed; bounded = h },
  )

appended_over :
    (offset : ℕ) (bytes : List ℕ)
    → buffer_size < offset + length bytes
    → take (buffer_size - offset) bytes
        ++ (if ltb (length bytes - (buffer_size - offset)) buffer_size
            then take (length bytes - (buffer_size - offset)) bytes
            else [])
      ≡ appended offset bytes
appended_over offset bytes h = ground (arith, append-nil (take (buffer_size - offset) bytes))

-- The file after the first memcpy of an Append whose bytes pass the end of the buffer.
abbrev filled : {D : Type 0} → List ℕ → WritableFile D → WritableFile D
filled bytes f = record f {
  buf = write_at f.offset (take (buffer_size - f.offset) bytes) f.buf;
  offset = buffer_size;
}

module _ {D : Type 0} (disk : Disk D) (bytes : List ℕ) (f : WritableFile D) (v : IsValid f)
    (over : buffer_size < f.offset + length bytes) where
  room_bytes : length (take (buffer_size - f.offset) bytes) ≡ buffer_size - f.offset
  room_bytes = omega (arith, length-take (buffer_size - f.offset) bytes)

  filled-IsValid : IsValid (filled bytes f)
  filled-IsValid = record {
    backed = omega (
      arith,
      room_bytes,
      length-write_at f.offset (take (buffer_size - f.offset) bytes) f.buf v.backed,
    );
    bounded = omega arith;
  }

  written-filled :
      written disk (filled bytes f) ≡ written disk f ++ take (buffer_size - f.offset) bytes
  written-filled = rw (
    take-write_at f.offset (take (buffer_size - f.offset) bytes) f.buf buffer_size v.backed
        (omega (arith, room_bytes)),
    append_assoc,
  )

  append_overflows :
      length bytes < 2 ^ 32
      → append disk bytes f
        ≡ append_rest disk bytes (length bytes - (buffer_size - f.offset)) (filled bytes f)
  unfolding append
  append_overflows h =
      let word : length bytes % 2 ^ 32 ≡ length bytes = omega arith in
      let wr : min (length bytes) ((buffer_size + 2 ^ 32 - f.offset) % 2 ^ 32)
          ≡ buffer_size - f.offset =
        omega arith in
      let full : f.offset + (buffer_size - f.offset) ≡ buffer_size = omega arith in
      rw (word, wr, full)

module _ {D : Type 0} (disk : Disk D) (reliable : IsReliable disk) where
  -- Behind a full buffer, what is left goes into the emptied one, from the start of the bytes.
  rest_stores :
      (bytes : List ℕ) (left : ℕ) (f : WritableFile D)
      → IsValid f
      → 0 < left
      → left ≤ length bytes
      → (g : WritableFile D) × (append_rest disk bytes left f ≡ some (State.ok, g))
        × (written disk g
            ≡ written disk f ++ (if ltb left buffer_size then take left bytes else []))
        × IsValid g
  unfolding append_rest
  rest_stores bytes left f v pos le =
      let (g, runs, at, same, content) = flush-Stores disk reliable f v in
      elim (Bool-cases (ltb left buffer_size)) [
        | inl small ↦ (
          record g { buf = write_at 0 (take left bytes) g.buf; offset = g.offset + left },
          ground (arith, runs),
          rw (
            take-write_at 0 (take left bytes) g.buf (g.offset + left) (omega arith)
                (omega (arith, at, length-take left bytes)),
            small,
            content,
          ),
          record {
            backed = omega (
              arith,
              at,
              length-take left bytes,
              length-write_at 0 (take left bytes) g.buf (omega arith),
            );
            bounded = ground (arith, at);
          },
        )
        | inr big ↦
            let (g', runs', at', same', content') =
              flush-Stores disk reliable g
                (record { backed = omega (arith, at); bounded = omega (arith, at) }) in
            (
              g',
              ground (arith, runs, runs'),
              rw (at', big)
                  (append-nil (disk.contents g'.device)
                    ∙ content'
                    ∙ rw (at, append-nil (disk.contents g.device), append-nil (written disk f))
                        content),
              record { backed = omega (arith, at'); bounded = omega (arith, at') },
            )
      ]

  -- What Append adds to the file in every case, on a disk whose writes are whole.
  pub append_stores :
      (bytes : List ℕ) (f : WritableFile D)
      → IsValid f
      → length bytes < 2 ^ 32
      → (g : WritableFile D) × (append disk bytes f ≡ some (State.ok, g))
        × (written disk g ≡ written disk f ++ appended f.offset bytes)
        × IsValid g
  append_stores bytes f v h = elim (Bool-cases (length bytes - (buffer_size - f.offset) == 0)) [
    | inl fits ↦
        let (g, runs, at, content, valid) = append_fits disk bytes f v (ground arith) in
        (g, runs, rw fits content, valid)
    | inr over ↦
        let past : buffer_size < f.offset + length bytes = ground arith in
        let (g, runs, content, valid) =
          rest_stores bytes (length bytes - (buffer_size - f.offset)) (filled bytes f)
            (filled-IsValid disk bytes f v past) (omega arith) (omega arith) in
        (
          g,
          append_overflows disk bytes f v past h ∙ runs,
          content
              ∙ rw (written-filled disk bytes f v past, append_assoc)
                  (ap (λ t. written disk f ++ t) (appended_over f.offset bytes past)),
          valid,
        )
  ]
