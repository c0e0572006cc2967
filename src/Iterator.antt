-- ===== src/Iterator.antt =====
-- Iterator, IteratorWrapper, TweLevelIterator and GetFileIterator of src/db/iterator.h and
-- src/db/iterator.cpp. A call that fails an assertion is `none`.
pub mod TwoLevel
mod Runs
use Prim.Native.Nat.{Ordering}
use yubindb.Prelude.{
  ℕ, zero, suc, ◌+◌, ◌-◌, Bool, true, false, ◌&&◌, ◌||◌, not, Option, none, some, List, [], ◌∷◌,
  ◌++◌, ◌==◌, ltb, leb, if◌then◌else◌, length, get_elem?, drop,
}
use yubindb.State.{State, is_ok}
use yubindb.Coding.{decode_fixed64}
use yubindb.Key.{cmp, compare_views}
use yubindb.Version.{is_below, is_above, is_same}
use yubindb.Builder.{set_at}

-- class Iterator, whose virtual functions its subclasses give.
pub record Iter (I : Type 0) : Type 0 where
  pub valid : I → Bool
  pub seek_to_first : I → I
  pub seek_to_last : I → I
  pub seek : List ℕ → I → I
  pub next : I → I
  pub prev : I → I
  pub state : I → State
  pub key : I → List ℕ
  pub value : I → List ℕ

-- class IteratorWrapper: iter_, valid_ and key_
pub record Wrapper (I : Type 0) : Type 0 where
  pub iter : Option I
  pub is_valid : Bool
  pub saved_key : List ℕ

unfoldable pub has_iter : {I : Type 0} → Wrapper I → Bool
has_iter w = elim w.iter [ none ↦ false | some i ↦ true ]

-- IteratorWrapper(), and clear
unfoldable pub new_wrapper : {I : Type 0} → Wrapper I
new_wrapper = record { iter = none; is_valid = false; saved_key = [] }

unfoldable pub clear_wrapper : {I : Type 0} → Wrapper I → Wrapper I
clear_wrapper w = record w { iter = none; is_valid = false }

module _ {I : Type 0} (ops : Iter I) where
  -- Update, behind a change of the iterator
  unfoldable pub update : I → Wrapper I → Wrapper I
  update i w = record w {
    iter = some i;
    is_valid = ops.valid i;
    saved_key = if ops.valid i then ops.key i else w.saved_key;
  }

  -- Set
  unfoldable pub set_iter : Option I → Wrapper I → Wrapper I
  set_iter none w = record w { iter = none; is_valid = false }
  set_iter (some i) w = update i w

  -- Next, Prev, Seek, SeekToFirst and SeekToLast: a call on the iterator, then Update.
  unfoldable pub on_iter : (I → I) → Wrapper I → Option (Wrapper I)
  on_iter f w = elim w.iter [ none ↦ none | some i ↦ some (update (f i) w) ]

  -- value and state
  unfoldable pub wrapper_value : Wrapper I → Option (List ℕ)
  wrapper_value w =
      if w.is_valid then elim w.iter [ none ↦ none | some i ↦ some (ops.value i) ] else none

  unfoldable pub wrapper_state : Wrapper I → Option State
  wrapper_state w = elim w.iter [ none ↦ none | some i ↦ some (ops.state i) ]

-- class TweLevelIterator
pub record TwoLevelIter (I D : Type 0) : Type 0 where
  pub index_iter : Wrapper I
  pub data_iter : Wrapper D
  pub data_block_handle : List ℕ

-- `block_function` is the function that is given to the constructor.
module _ {I D : Type 0} (index_ops : Iter I) (data_ops : Iter D)
    (block_function : List ℕ → Option D) where
  -- TweLevelIterator(index_iter, …)
  unfoldable pub new_two_level : Option I → TwoLevelIter I D
  new_two_level i = record {
    index_iter = set_iter index_ops i new_wrapper;
    data_iter = new_wrapper;
    data_block_handle = [];
  }

  -- Valid
  unfoldable pub two_level_valid : TwoLevelIter I D → Bool
  two_level_valid t = t.data_iter.is_valid

  -- clear
  unfoldable pub clear_data : TwoLevelIter I D → TwoLevelIter I D
  clear_data t =
      if has_iter t.data_iter then record t { data_iter = clear_wrapper t.data_iter } else t

  -- SetDataIterator
  unfoldable pub set_data_iterator : Option D → TwoLevelIter I D → TwoLevelIter I D
  set_data_iterator d t =
      if has_iter t.data_iter then record t { data_iter = set_iter data_ops d t.data_iter } else t

  -- InitDataBlock
  unfoldable pub init_data_block : TwoLevelIter I D → Option (TwoLevelIter I D)
  init_data_block t =
      if not t.index_iter.is_valid
      then some (clear_data t)
      else elim (wrapper_value index_ops t.index_iter) [
        | none ↦ none
        | some handle ↦
            if has_iter t.data_iter && is_same (compare_views handle t.data_block_handle)
            then some t
            else some (
                set_data_iterator (block_function handle) (record t { data_block_handle = handle }))
      ]

  -- `if (data_iter.iter() != nullptr) …`
  unfoldable pub on_data : (D → D) → TwoLevelIter I D → Option (TwoLevelIter I D)
  on_data f t =
      if has_iter t.data_iter
      then elim (on_iter data_ops f t.data_iter) [
        | none ↦ none
        | some w ↦ some (record t { data_iter = w })
      ]
      else some t

  -- A call on the index iterator, InitDataBlock, and a call on the data iterator.
  unfoldable pub move : (I → I) → (D → D) → TwoLevelIter I D → Option (TwoLevelIter I D)
  move f g t = elim (on_iter index_ops f t.index_iter) [
    | none ↦ none
    | some w ↦ elim (init_data_block (record t { index_iter = w })) [
      | none ↦ none
      | some u ↦ on_data g u
    ]
  ]

  -- SkipEmptyDataBlocksForward and SkipEmptyDataBlocksBackward. `none`: not over when the fuel is.
  unfoldable pub skip_empty : (I → I) → (D → D) → ℕ → TwoLevelIter I D → Option (TwoLevelIter I D)
  skip_empty f g zero t = if has_iter t.data_iter && t.data_iter.is_valid then some t else none
  skip_empty f g (suc fuel) t =
      if has_iter t.data_iter && t.data_iter.is_valid
      then some t
      else if not t.index_iter.is_valid
      then some (clear_data t)
      else elim (move f g t) [ none ↦ none | some u ↦ skip_empty f g fuel u ]

  unfoldable pub skip_forward : ℕ → TwoLevelIter I D → Option (TwoLevelIter I D)
  skip_forward = skip_empty index_ops.next data_ops.seek_to_first

  unfoldable pub skip_backward : ℕ → TwoLevelIter I D → Option (TwoLevelIter I D)
  skip_backward = skip_empty index_ops.prev data_ops.seek_to_last

  -- Seek
  unfoldable pub two_level_seek : ℕ → List ℕ → TwoLevelIter I D → Option (TwoLevelIter I D)
  two_level_seek fuel target t = elim (move (index_ops.seek target) (data_ops.seek target) t) [
    | none ↦ none
    | some u ↦ skip_forward fuel u
  ]

  -- SeekToFirst
  unfoldable pub two_level_to_first : ℕ → TwoLevelIter I D → Option (TwoLevelIter I D)
  two_level_to_first fuel t = elim (move index_ops.seek_to_first data_ops.seek_to_first t) [
    | none ↦ none
    | some u ↦ skip_forward fuel u
  ]

  -- SeekToLast
  unfoldable pub two_level_to_last : ℕ → TwoLevelIter I D → Option (TwoLevelIter I D)
  two_level_to_last fuel t = elim (move index_ops.seek_to_last data_ops.seek_to_last t) [
    | none ↦ none
    | some u ↦ skip_backward fuel u
  ]

  -- Next and Prev, with their assertion
  unfoldable pub two_level_next : ℕ → TwoLevelIter I D → Option (TwoLevelIter I D)
  two_level_next fuel t =
      if two_level_valid t
      then elim (on_iter data_ops data_ops.next t.data_iter) [
        | none ↦ none
        | some w ↦ skip_forward fuel (record t { data_iter = w })
      ]
      else none

  unfoldable pub two_level_prev : ℕ → TwoLevelIter I D → Option (TwoLevelIter I D)
  two_level_prev fuel t =
      if two_level_valid t
      then elim (on_iter data_ops data_ops.prev t.data_iter) [
        | none ↦ none
        | some w ↦ skip_backward fuel (record t { data_iter = w })
      ]
      else none

  -- state; the member `s` is never set.
  unfoldable pub two_level_state : TwoLevelIter I D → Option State
  two_level_state t = elim (wrapper_state index_ops t.index_iter) [
    | none ↦ none
    | some s ↦
        if not (is_ok s)
        then some s
        else elim (wrapper_state data_ops t.data_iter) [ none ↦ some State.ok | some d ↦ some d ]
  ]

-- GetFileIterator, given TableCache::NewIterator: a value of another length has no iterator.
unfoldable pub get_file_iterator : {D : Type 0} → (ℕ → ℕ → Option D) → List ℕ → Option D
get_file_iterator new_iterator file_value =
    if length file_value == 16
    then new_iterator (decode_fixed64 file_value) (decode_fixed64 (drop 8 file_value))
    else none
