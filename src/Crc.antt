-- ===== src/Crc.antt =====
-- The checksum library crc32c, which is not in the repository: a parameter of the log and the tables.
use yubindb.Prelude.{ℕ, ◌<◌, ◌^◌, ◌≡◌, List, ◌++◌}

-- crc32c::Crc32c(data, n) and crc32c::Extend(crc, data, n)
pub record Crc : Type 0 where
  pub crc32c : List ℕ → ℕ
  pub extend : ℕ → List ℕ → ℕ

-- Documented: a checksum is a uint32_t, and extending the checksum of a string by another string
-- gives the checksum of both.
pub record IsCrc (c : Crc) : Type 0 where
  pub word : (bytes : List ℕ) → c.crc32c bytes < 2 ^ 32
  pub extends : (a b : List ℕ) → c.extend (c.crc32c a) b ≡ c.crc32c (a ++ b)
