-- ===== src/Version/Runs.antt =====
-- Runs of FindFile and Version::Get.
use Prim.Native.Nat.{Ordering}
use yubindb.Prelude.{ℕ, ◌≤◌, ◌≡◌, ◌≢◌, ◌∷◌, refl, some, List, [], length, take, drop, All, arith}
use yubindb.Key.{InternalKey, FileMate, ValueType, internal_key, lookey, cmp}
use yubindb.Version.{find_file}
use yubindb.Version.Find.{IsSorted, find_file-Splits}

abbrev key_at : ℕ → InternalKey
key_at n = internal_key (n ∷ []) 5 ValueType.value

abbrev table : ℕ → ℕ → ℕ → FileMate
table num a b = record { num = num; file_size = 100; smallest = key_at a; largest = key_at b }

abbrev tables : List FileMate
tables = table 3 10 20 ∷ table 5 30 40 ∷ table 4 50 60 ∷ []

level_of_three-IsSorted : IsSorted tables
unfolding cmp yubindb.Key.then_by yubindb.Key.compare_views yubindb.Key.extract_user_key
    internal_key yubindb.Coding.put_fixed64 yubindb.Coding.encode_fixed64
level_of_three-IsSorted = ((refl, (refl, tt)), ((refl, tt), (tt, tt)))

find_file-Splits_example :
    (r : ℕ) × (find_file tables (key_at 35) ≡ some r)
    × (r ≤ length tables)
    × All (λ f. cmp f.largest (key_at 35) ≡ Ordering.lt) (take r tables)
    × All (λ f. cmp f.largest (key_at 35) ≢ Ordering.lt) (drop r tables)
find_file-Splits_example = find_file-Splits tables (key_at 35) level_of_three-IsSorted (omega arith)
