-- ===== src/Sample.antt =====
-- A disk and a file in memory and a checksum, at which the theorems are run.
use yubindb.Prelude.{
  ℕ, ◌+◌, ◌%◌, ◌^◌, ◌≡◌, refl, true, some, List, [], ◌∷◌, ◌++◌, length, take, drop, arith,
}
use yubindb.Crc.{Crc, IsCrc}
use yubindb.File.{Disk, IsReliable, WritableFile, Source}

-- A device is the bytes it holds.
abbrev pub memory_disk : Disk (List ℕ)
memory_disk = record { write = λ bytes d. (some (length bytes), d ++ bytes); contents = λ d. d }

pub memory_disk-IsReliable : IsReliable memory_disk
memory_disk-IsReliable = record { whole = λ bytes d. refl; stored = λ bytes d. refl }

-- A file that is read is the bytes that are left of it.
abbrev pub memory_source : Source (List ℕ)
memory_source = record { read = λ n f. (some (take n f), drop n f); seek = λ n f. (true, drop n f) }

unfoldable pub sum : List ℕ → ℕ
sum [] = 0
sum (b ∷ bs) = b + sum bs

sum-append : (a b : List ℕ) → sum (a ++ b) ≡ sum a + sum b
unfolding sum
sum-append [] b = omega arith
sum-append (x ∷ a) b = omega (arith, sum-append a b)

abbrev pub sum_crc : Crc
sum_crc = record {
  crc32c = λ bytes. sum bytes % 2 ^ 32;
  extend = λ c bytes. (c + sum bytes) % 2 ^ 32;
}

pub sum_crc-IsCrc : IsCrc sum_crc
sum_crc-IsCrc = record {
  word = λ bytes. omega arith;
  extends = λ a b. omega (arith, sum-append a b);
}

abbrev pub empty_file : WritableFile (List ℕ)
empty_file = record { buf = []; offset = 0; device = [] }
