-- ===== src/File.antt =====
-- The files of src/util/env.h and src/util/env.cpp: WritableFile with its buffer of 64 KiB, and the
-- sequential ReadFile. The system calls are parameters; a call that EINTR interrupts is repeated
-- by the code, so a parameter's call is the last one of such a row.
pub mod Buffer
mod Runs
use yubindb.Prelude.{
  ℕ, zero, suc, ◌+◌, ◌-◌, ◌*◌, ◌%◌, ◌^◌, min, Bool, Option, none, some, List, [], ◌++◌, ◌==◌, ltb,
  if◌then◌else◌, length, take, drop, replicate, ◌≡◌,
}
use yubindb.State.{State, io_error}

abbrev pub buffer_size : ℕ
buffer_size = 64 * 1024

-- `::write(fd, …)`: the number of bytes that were written, or `none` for an error.
-- `contents` is what the file holds, seen from outside the program.
pub record Disk (D : Type 0) : Type 0 where
  pub write : List ℕ → D → Option ℕ × D
  pub contents : D → List ℕ

-- A disk whose writes are whole.
pub record IsReliable {D : Type 0} (disk : Disk D) : Type 0 where
  pub whole : (bytes : List ℕ) (d : D) → (disk.write bytes d).0 ≡ some (length bytes)
  pub stored :
      (bytes : List ℕ) (d : D) → disk.contents (disk.write bytes d).1 ≡ disk.contents d ++ bytes

-- class WritableFile. Of `buf_` the list holds the bytes that were written to it.
pub record WritableFile (D : Type 0) : Type 0 where
  pub buf : List ℕ
  pub offset : ℕ
  pub device : D

-- memcpy to `buf + at`
unfoldable pub write_at : ℕ → List ℕ → List ℕ → List ℕ
write_at at bytes buf = take at buf ++ (bytes ++ drop (at + length bytes) buf)

module _ {D : Type 0} (disk : Disk D) where
  -- WritableFile::Flush: each round writes `offset` bytes from the start of the buffer. `none`
  -- means that the loop is not over when the fuel is.
  unfoldable pub flush_loop : ℕ → ℕ → WritableFile D → Option (State × WritableFile D)
  flush_loop zero size f = if size == 0 then some (State.ok, record f { offset = 0 }) else none
  flush_loop (suc fuel) size f =
      let (n, d) = disk.write (take f.offset f.buf) f.device in
      let more =
        λ (k : ℕ). flush_loop fuel ((size + 2 ^ 64 - k) % 2 ^ 64) (record f { device = d }) in
      if size == 0
      then some (State.ok, record f { offset = 0 })
      else elim n [ none ↦ some (io_error, record f { device = d }) | some k ↦ more k ]

  -- As many rounds as there are bytes, and one to see that none is left.
  unfoldable pub flush : WritableFile D → Option (State × WritableFile D)
  flush f = flush_loop (f.offset + 1) f.offset f

  -- The part of Append behind the first memcpy: `ptr` and the size that is left. The answer of the
  -- first Flush is not looked at, and the second memcpy starts at `ptr` again.
  unfoldable pub append_rest : List ℕ → ℕ → WritableFile D → Option (State × WritableFile D)
  append_rest ptr size f = if size == 0 then some (State.ok, f) else elim (flush f) [
    | none ↦ none
    | some (s, g) ↦
        if ltb size buffer_size
        then some (
          State.ok,
          record g { buf = write_at 0 (take size ptr) g.buf; offset = g.offset + size },
        )
        else flush g
  ]

  -- WritableFile::Append(ptr, size), with `size` the length of the bytes.
  unfoldable pub append : List ℕ → WritableFile D → Option (State × WritableFile D)
  append ptr f =
      let size = length ptr % 2 ^ 32 in
      let wrsize = min size ((buffer_size + 2 ^ 32 - f.offset) % 2 ^ 32) in
      append_rest ptr (size - wrsize)
        (record f { buf = write_at f.offset (take wrsize ptr) f.buf; offset = f.offset + wrsize })

-- `::read(fd, …, n)`: the bytes that were read, none at the end of the file; `none` for an error.
-- `::lseek(fd, n, SEEK_CUR)`: whether it succeeded.
pub record Source (F : Type 0) : Type 0 where
  pub read : ℕ → F → Option (List ℕ) × F
  pub seek : ℕ → F → Bool × F

module _ {F : Type 0} (source : Source F) where
  -- ReadFile::Read: what it answers, `*result`, `*readsize` if it is set, and the file.
  unfoldable pub read_file : ℕ → List ℕ → F → State × List ℕ × Option ℕ × F
  read_file n result f =
      let (bytes, f') = source.read n f in
      elim bytes [
        | none ↦ (io_error, result ++ replicate n 0, none, f')
        | some bs ↦ (State.ok, result ++ bs, some (length bs), f')
      ]

  -- ReadFile::Skip
  unfoldable pub skip_file : ℕ → F → State × F
  skip_file n f = let (found, f') = source.seek n f in (if found then State.ok else io_error, f')
