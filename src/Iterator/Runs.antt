-- ===== src/Iterator/Runs.antt =====
-- Runs of the two-level iterator over iterators that count.
use yubindb.Prelude.{
  ℕ, if◌then◌else◌, ◌+◌, ◌-◌, ◌≡◌, false, Option, some, List, [], ◌∷◌, ltb, ltb→lt, arith,
}
use yubindb.State.{State}
use yubindb.Iterator.{Iter, TwoLevelIter, new_two_level, two_level_valid, two_level_to_first}
use yubindb.Iterator.TwoLevel.{Run, Run-invalid}

-- An iterator over the keys 0, 1 and 2.
abbrev counter : Iter ℕ
counter = record {
  valid = λ i. ltb i 3;
  seek_to_first = λ i. 0;
  seek_to_last = λ i. 2;
  seek = λ target i. 1;
  next = λ i. i + 1;
  prev = λ i. if ltb 0 i then i - 1 else 3;
  state = λ i. State.ok;
  key = λ i. i ∷ 0 ∷ 0 ∷ 0 ∷ 0 ∷ 0 ∷ 0 ∷ 0 ∷ 0 ∷ [];
  value = λ i. i ∷ [];
}

-- Every block has the keys 0, 1 and 2.
abbrev block : List ℕ → Option ℕ
block handle = some 0

-- What is left of the keys.
abbrev keys_left : ℕ → ℕ
keys_left i = 3 - i

Run-invalid_example :
    (two_level_valid counter counter block (new_two_level counter counter block (some 0)) ≡ false)
    × ((u : TwoLevelIter ℕ ℕ) × (two_level_to_first counter counter block 4
            (new_two_level counter counter block (some 0))
          ≡ some u)
        × (two_level_valid counter counter block u ≡ false))
Run-invalid_example =
    Run-invalid counter counter block 0 (new_two_level counter counter block (some 0)) keys_left 4
      Run.start (λ j inside. omega (arith, ltb→lt j 3 inside)) (λ j. omega arith)
