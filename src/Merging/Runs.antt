-- ===== src/Merging/Runs.antt =====
-- A run of FindSmallest.
use yubindb.Prelude.{
  ℕ, if◌then◌else◌, ◌+◌, ◌-◌, ◌≡◌, ◌⊎◌, true, none, some, [], ◌∷◌, ltb, get_elem?,
}
use yubindb.State.{State}
use yubindb.Iterator.{Iter, Wrapper}
use yubindb.Merging.{MergingIter, new_merging, find_smallest}
use yubindb.Merging.Least.{valid_keys, IsLeast, find_smallest-IsLeast}

-- An iterator over the keys 0, 1 and 2.
abbrev counter : Iter ℕ
counter = record {
  valid = λ i. ltb i 3;
  seek_to_first = λ i. 0;
  seek_to_last = λ i. 2;
  seek = λ target i. 1;
  next = λ i. i + 1;
  prev = λ i. if ltb 0 i then i - 1 else 3;
  state = λ i. State.ok;
  key = λ i. i ∷ 0 ∷ 0 ∷ 0 ∷ 0 ∷ 0 ∷ 0 ∷ 0 ∷ 0 ∷ [];
  value = λ i. i ∷ [];
}

-- Children at the keys 2 and 1, and one behind its end.
abbrev children : MergingIter ℕ
children = new_merging counter (some 2 ∷ some 1 ∷ some 3 ∷ [])

find_smallest-IsLeast_example :
    (((find_smallest children).current ≡ none) × (valid_keys children.children ≡ []))
    ⊎ ((n : ℕ) × (w : Wrapper ℕ) × ((find_smallest children).current ≡ some n)
        × (get_elem? children.children n ≡ some w)
        × (w.is_valid ≡ true)
        × IsLeast w.saved_key children.children)
find_smallest-IsLeast_example = find_smallest-IsLeast children
