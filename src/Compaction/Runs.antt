-- ===== src/Compaction/Runs.antt =====
-- A run of GetRange.
use yubindb.Prelude.{ℕ, ◌≡◌, some, [], ◌∷◌}
use yubindb.Key.{InternalKey, FileMate, ValueType, internal_key}
use yubindb.Compaction.{get_range}
use yubindb.Compaction.Range.{OneOf, Narrow, get_range-Narrow}

abbrev file : ℕ → ℕ → FileMate
file a b = record {
  num = a;
  file_size = 100;
  smallest = internal_key (a ∷ []) 5 ValueType.value;
  largest = internal_key (b ∷ []) 5 ValueType.value;
}

get_range-Narrow_example :
    (s : InternalKey) × (l : InternalKey) × (get_range (file 10 20 ∷ file 5 40 ∷ []) ≡ some (s, l))
    × OneOf (λ g. g.smallest) s (file 10 20 ∷ file 5 40 ∷ [])
    × OneOf (λ g. g.largest) l (file 10 20 ∷ file 5 40 ∷ [])
    × Narrow s l (file 10 20 ∷ file 5 40 ∷ [])
get_range-Narrow_example = get_range-Narrow (file 10 20) (file 5 40 ∷ [])
