-- ===== src/Merging.antt =====
-- Merageitor and NewMergingIterator of src/db/iterator.h and src/db/iterator.cpp. A call that fails an
-- assertion is `none`.
pub mod Least
mod Runs
use Prim.Native.Nat.{Ordering}
use yubindb.Prelude.{
  ℕ, zero, suc, ◌+◌, ◌-◌, Bool, true, false, ◌&&◌, ◌||◌, not, Option, none, some, List, [], ◌∷◌,
  ◌++◌, ◌==◌, ltb, leb, if◌then◌else◌, length, get_elem?, drop,
}
use yubindb.State.{State, is_ok}
use yubindb.Coding.{decode_fixed64}
use yubindb.Key.{cmp}
use yubindb.Version.{is_below, is_above, is_same}
use yubindb.Builder.{set_at}
use yubindb.Iterator.{Iter, Wrapper, new_wrapper, set_iter, on_iter, wrapper_value, wrapper_state}

-- enum Direction, without its prefix `k`
pub data Direction : Type 0 where
  forward reverse : Direction

unfoldable pub is_forward : Direction → Bool
is_forward forward = true
is_forward reverse = false

-- class Merageitor; `current` is the number of a child.
pub record MergingIter (I : Type 0) : Type 0 where
  pub children : List (Wrapper I)
  pub current : Option ℕ
  pub direction : Direction

-- The loop of FindSmallest from child `i` on, with the best child so far.
unfoldable pub smallest_from :
    {I : Type 0} → ℕ → Option (ℕ × List ℕ) → List (Wrapper I) → Option (ℕ × List ℕ)
smallest_from i best [] = best
smallest_from i best (child ∷ rest) =
    let here = smallest_from (i + 1) (some (i, child.saved_key)) rest in
    let later = smallest_from (i + 1) best rest in
    if child.is_valid
    then elim best [
      | none ↦ here
      | some (j, k) ↦ if is_below (cmp child.saved_key k) then here else later
    ]
    else later

-- The loop of FindLargest, from the last child down to child `i`.
unfoldable pub largest_from : {I : Type 0} → ℕ → List (Wrapper I) → Option (ℕ × List ℕ)
largest_from i [] = none
largest_from i (child ∷ rest) =
    let best = largest_from (i + 1) rest in
    if child.is_valid
    then elim best [
      | none ↦ some (i, child.saved_key)
      | some (j, k) ↦
          if is_above (cmp child.saved_key k) then some (i, child.saved_key) else some (j, k)
    ]
    else best

unfoldable pub child_number : Option (ℕ × List ℕ) → Option ℕ
child_number none = none
child_number (some (i, k)) = some i

unfoldable pub find_smallest : {I : Type 0} → MergingIter I → MergingIter I
find_smallest m = record m { current = child_number (smallest_from 0 none m.children) }

unfoldable pub find_largest : {I : Type 0} → MergingIter I → MergingIter I
find_largest m = record m { current = child_number (largest_from 0 m.children) }

-- The member functions of Merageitor.
module _ {I : Type 0} (ops : Iter I) where
  unfoldable pub wrap_all : List (Option I) → List (Wrapper I)
  wrap_all [] = []
  wrap_all (i ∷ is) = set_iter ops i new_wrapper ∷ wrap_all is

  -- Merageitor(children, n)
  unfoldable pub new_merging : List (Option I) → MergingIter I
  new_merging children = record {
    children = wrap_all children;
    current = none;
    direction = forward;
  }

  unfoldable pub merging_valid : MergingIter I → Bool
  merging_valid m = elim m.current [ none ↦ false | some i ↦ true ]

  -- A call on every child
  unfoldable pub on_all : (I → I) → List (Wrapper I) → Option (List (Wrapper I))
  on_all f [] = some []
  on_all f (w ∷ ws) = elim (on_iter ops f w) [
    | none ↦ none
    | some v ↦ elim (on_all f ws) [ none ↦ none | some vs ↦ some (v ∷ vs) ]
  ]

  -- SeekToFirst, SeekToLast and Seek
  unfoldable pub merging_to_first : MergingIter I → Option (MergingIter I)
  merging_to_first m = elim (on_all ops.seek_to_first m.children) [
    | none ↦ none
    | some ws ↦ some (record (find_smallest (record m { children = ws })) { direction = forward })
  ]

  unfoldable pub merging_to_last : MergingIter I → Option (MergingIter I)
  merging_to_last m = elim (on_all ops.seek_to_last m.children) [
    | none ↦ none
    | some ws ↦ some (record (find_largest (record m { children = ws })) { direction = reverse })
  ]

  unfoldable pub merging_seek : List ℕ → MergingIter I → Option (MergingIter I)
  merging_seek target m = elim (on_all (ops.seek target) m.children) [
    | none ↦ none
    | some ws ↦ some (record (find_smallest (record m { children = ws })) { direction = forward })
  ]

  -- Next on a child that was at another direction: it goes behind the key.
  unfoldable pub go_behind : List ℕ → Wrapper I → Option (Wrapper I)
  go_behind key w = elim (on_iter ops (ops.seek key) w) [
    | none ↦ none
    | some v ↦
        if v.is_valid && is_same (cmp key v.saved_key) then on_iter ops ops.next v else some v
  ]

  -- Prev on such a child: it goes before the key.
  unfoldable pub go_before : List ℕ → Wrapper I → Option (Wrapper I)
  go_before key w = elim (on_iter ops (ops.seek key) w) [
    | none ↦ none
    | some v ↦ if v.is_valid then on_iter ops ops.prev v else on_iter ops ops.seek_to_last v
  ]

  -- The loop over the children but the current one
  unfoldable pub turn :
      (Wrapper I → Option (Wrapper I)) → ℕ → ℕ → List (Wrapper I) → Option (List (Wrapper I))
  turn f current i [] = some []
  turn f current i (w ∷ ws) = elim (if i == current then some w else f w) [
    | none ↦ none
    | some v ↦ elim (turn f current (i + 1) ws) [ none ↦ none | some vs ↦ some (v ∷ vs) ]
  ]

  -- current_->Next() or current_->Prev()
  unfoldable pub on_current : (I → I) → ℕ → List (Wrapper I) → Option (List (Wrapper I))
  on_current f current ws = elim (get_elem? ws current) [
    | none ↦ none
    | some w ↦ elim (on_iter ops f w) [ none ↦ none | some v ↦ some (set_at current v ws) ]
  ]

  -- key and value
  unfoldable pub merging_key : MergingIter I → Option (List ℕ)
  merging_key m = elim m.current [
    | none ↦ none
    | some i ↦ elim (get_elem? m.children i) [
      | none ↦ none
      | some w ↦ if w.is_valid then some w.saved_key else none
    ]
  ]

  unfoldable pub merging_value : MergingIter I → Option (List ℕ)
  merging_value m = elim m.current [
    | none ↦ none
    | some i ↦ elim (get_elem? m.children i) [ none ↦ none | some w ↦ wrapper_value ops w ]
  ]

  -- Next
  unfoldable pub merging_next : MergingIter I → Option (MergingIter I)
  merging_next m = elim m.current [
    | none ↦ none
    | some i ↦ elim (merging_key m) [
      | none ↦ none
      | some key ↦
          elim (if is_forward m.direction
            then some m.children
            else turn (go_behind key) i 0 m.children) [
              | none ↦ none
              | some ws ↦ elim (on_current ops.next i ws) [
                | none ↦ none
                | some vs ↦ some (find_smallest (record m { children = vs; direction = forward }))
              ]
            ]
    ]
  ]

  -- Prev
  unfoldable pub merging_prev : MergingIter I → Option (MergingIter I)
  merging_prev m = elim m.current [
    | none ↦ none
    | some i ↦ elim (merging_key m) [
      | none ↦ none
      | some key ↦
          elim (if is_forward m.direction
            then turn (go_before key) i 0 m.children
            else some m.children) [
              | none ↦ none
              | some ws ↦ elim (on_current ops.prev i ws) [
                | none ↦ none
                | some vs ↦ some (find_largest (record m { children = vs; direction = reverse }))
              ]
            ]
    ]
  ]

  -- state: that of the first child which is not well, or of the last child.
  unfoldable pub merging_state : State → List (Wrapper I) → Option State
  merging_state s [] = some s
  merging_state s (w ∷ ws) = elim (wrapper_state ops w) [
    | none ↦ none
    | some t ↦ if is_ok t then merging_state t ws else some t
  ]

-- NewMergingIterator
pub data Merged (I : Type 0) : Type 0 where
  null_iterator : Merged I
  only : Option I → Merged I
  several : MergingIter I → Merged I

unfoldable pub new_merging_iterator : {I : Type 0} → Iter I → List (Option I) → Merged I
new_merging_iterator ops [] = null_iterator
new_merging_iterator ops (i ∷ []) = only i
new_merging_iterator ops (i ∷ j ∷ is) = several (new_merging ops (i ∷ j ∷ is))
