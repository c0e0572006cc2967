-- ===== src/Iterator/TwoLevel.antt =====
-- TweLevelIterator never has a data iterator: SetDataIterator sets one only if there is one.
use yubindb.Prelude.{
  ℕ, zero, suc, ◌<◌, ◌≡◌, refl, sym, subst, ◌∙◌, inl, inr, true, false, Option, none, some, List,
  arith, Bool-cases,
}
use yubindb.Version.Find.{some-injective}
use yubindb.Iterator.{
  Iter, Wrapper, has_iter, new_wrapper, update, set_iter, on_iter, wrapper_value, TwoLevelIter,
  new_two_level, two_level_valid, clear_data, set_data_iterator, init_data_block, on_data, move,
  skip_empty, skip_forward, skip_backward, two_level_seek, two_level_to_first, two_level_to_last,
  two_level_next, two_level_prev,
}

module _ {I D : Type 0} (index_ops : Iter I) (data_ops : Iter D)
    (block_function : List ℕ → Option D) where
  -- There is an index iterator with its flag, and no data iterator.
  abbrev pub IsBare : I → TwoLevelIter I D → Type 0
  IsBare i t =
      (t.index_iter.iter ≡ some i)
      × (t.index_iter.is_valid ≡ index_ops.valid i)
      × (t.data_iter.iter ≡ none)
      × (t.data_iter.is_valid ≡ false)

  has_iter-none : (w : Wrapper D) → w.iter ≡ none → has_iter w ≡ false
  unfolding has_iter
  has_iter-none w h = ground (arith, h)

  wrapper_value-some :
      (i : I) (w : Wrapper I)
      → w.iter ≡ some i
      → w.is_valid ≡ true
      → wrapper_value index_ops w ≡ some (index_ops.value i)
  unfolding wrapper_value
  wrapper_value-some i w h e = ground (arith, h, e)

  on_iter-some :
      (f : I → I) (i : I) (w : Wrapper I)
      → w.iter ≡ some i
      → on_iter index_ops f w ≡ some (update index_ops (f i) w)
  unfolding on_iter
  on_iter-some f i w h = ground (arith, h)

  clear_data-IsBare :
      (i : I) (t : TwoLevelIter I D)
      → IsBare i t
      → clear_data index_ops data_ops block_function t ≡ t
  unfolding clear_data
  clear_data-IsBare i t h = rw (has_iter-none t.data_iter h.2)

  init_data_block-IsBare :
      (i : I) (t : TwoLevelIter I D)
      → IsBare i t
      → (u : TwoLevelIter I D) × (init_data_block index_ops data_ops block_function t ≡ some u)
        × IsBare i u
  unfolding init_data_block set_data_iterator
  init_data_block-IsBare i t h = elim (Bool-cases t.index_iter.is_valid) [
    | inr e ↦ (t, ground (arith, e, clear_data-IsBare i t h), h)
    | inl e ↦ (
      record t { data_block_handle = index_ops.value i },
      rw (wrapper_value-some i t.index_iter h.0 e, has_iter-none t.data_iter h.2, init_data_block)
          (ground (arith, e)),
      h,
    )
  ]

  on_data-IsBare :
      (g : D → D) (i : I) (t : TwoLevelIter I D)
      → IsBare i t
      → on_data index_ops data_ops block_function g t ≡ some t
  unfolding on_data
  on_data-IsBare g i t h = rw (has_iter-none t.data_iter h.2)

  move-IsBare :
      (f : I → I) (g : D → D) (i : I) (t : TwoLevelIter I D)
      → IsBare i t
      → (u : TwoLevelIter I D) × (move index_ops data_ops block_function f g t ≡ some u)
        × IsBare (f i) u
  unfolding move update
  move-IsBare f g i t h =
      let moved : TwoLevelIter I D = record t {
        index_iter = update index_ops (f i) t.index_iter;
      } in
      let (u, e, bare) = init_data_block-IsBare (f i) moved (refl, refl, h.2, h.3) in
      (
        u,
        rw (on_iter-some f i t.index_iter h.0, move, e, move) (on_data-IsBare g (f i) u bare),
        bare,
      )

  -- The measure of a loop: what a move leaves of it is smaller, while the index iterator is valid.
  abbrev pub Shrinks : (I → I) → (I → ℕ) → Type 0
  Shrinks f left = (i : I) → index_ops.valid i ≡ true → left (f i) < left i

  skip_empty-IsBare :
      (f : I → I) (g : D → D) (left : I → ℕ) (fuel : ℕ) (i : I) (t : TwoLevelIter I D)
      → Shrinks f left
      → left i < fuel
      → IsBare i t
      → (j : I) × (u : TwoLevelIter I D) × (skip_empty index_ops data_ops block_function f g fuel t
          ≡ some u)
        × IsBare j u
  unfolding skip_empty
  skip_empty-IsBare f g left zero i t shrinks enough h = absurd (omega arith)
  skip_empty-IsBare f g left (suc fuel) i t shrinks enough h =
      elim (Bool-cases t.index_iter.is_valid) [
        | inr e ↦
            (i, t, ground (arith, has_iter-none t.data_iter h.2, e, clear_data-IsBare i t h), h)
        | inl e ↦
            let (u, moved, bare) = move-IsBare f g i t h in
            let less : left (f i) < left i = shrinks i (sym h.1 ∙ e) in
            let (j, v, skipped, end) =
              skip_empty-IsBare f g left fuel (f i) u shrinks (omega (arith, less, enough)) bare in
            (j, v, ground (arith, has_iter-none t.data_iter h.2, e, moved, skipped), end)
      ]

  -- The states that calls on a new iterator lead to.
  pub data Run (i : I) : TwoLevelIter I D → Type 0 where
    start : Run i (new_two_level index_ops data_ops block_function (some i))
    after_seek :
        {t u : TwoLevelIter I D} (fuel : ℕ) (target : List ℕ)
        → Run i t
        → two_level_seek index_ops data_ops block_function fuel target t ≡ some u
        → Run i u
    after_first :
        {t u : TwoLevelIter I D} (fuel : ℕ)
        → Run i t
        → two_level_to_first index_ops data_ops block_function fuel t ≡ some u
        → Run i u
    after_last :
        {t u : TwoLevelIter I D} (fuel : ℕ)
        → Run i t
        → two_level_to_last index_ops data_ops block_function fuel t ≡ some u
        → Run i u
    after_next :
        {t u : TwoLevelIter I D} (fuel : ℕ)
        → Run i t
        → two_level_next index_ops data_ops block_function fuel t ≡ some u
        → Run i u
    after_prev :
        {t u : TwoLevelIter I D} (fuel : ℕ)
        → Run i t
        → two_level_prev index_ops data_ops block_function fuel t ≡ some u
        → Run i u

  new_two_level-IsBare :
      (i : I) → IsBare i (new_two_level index_ops data_ops block_function (some i))
  unfolding new_two_level set_iter update new_wrapper
  new_two_level-IsBare i = (refl, refl, refl, refl)

  -- A move and its loop leave no data iterator, whatever the fuel.
  skip_empty-stays :
      (f : I → I) (g : D → D) (fuel : ℕ) (i : I) (t u : TwoLevelIter I D)
      → IsBare i t
      → skip_empty index_ops data_ops block_function f g fuel t ≡ some u
      → (j : I) × IsBare j u
  unfolding skip_empty
  skip_empty-stays f g zero i t u h e = absurd (ground (arith, has_iter-none t.data_iter h.2, e))
  skip_empty-stays f g (suc fuel) i t u h e = elim (Bool-cases t.index_iter.is_valid) [
    | inr k ↦ (
      i,
      (let same : t ≡ u =
            some-injective
              (ground (arith, has_iter-none t.data_iter h.2, e, k, clear_data-IsBare i t h)) in
          subst (IsBare i) same h),
    )
    | inl k ↦
        let (v, moved, bare) = move-IsBare f g i t h in
        skip_empty-stays f g fuel (f i) v u bare
          (ground (arith, has_iter-none t.data_iter h.2, e, k, moved))
  ]

  move_then-stays :
      (f f' : I → I) (g g' : D → D) (fuel : ℕ) (i : I) (t u : TwoLevelIter I D)
      → IsBare i t
      → elim (move index_ops data_ops block_function f g t) [
        | none ↦ none
        | some v ↦ skip_empty index_ops data_ops block_function f' g' fuel v
      ]
        ≡ some u
      → (j : I) × IsBare j u
  move_then-stays f f' g g' fuel i t u h e =
      let (v, moved, bare) = move-IsBare f g i t h in
      skip_empty-stays f' g' fuel (f i) v u bare (rw moved at e)

  Run-IsBare : (i : I) (t : TwoLevelIter I D) → Run i t → (j : I) × IsBare j t
  unfolding two_level_seek two_level_to_first two_level_to_last two_level_next two_level_prev
      two_level_valid skip_forward skip_backward
  Run-IsBare i t start = (i, new_two_level-IsBare i)
  Run-IsBare i u (after_seek {t} fuel target r e) =
      let (j, h) = Run-IsBare i t r in
      move_then-stays (index_ops.seek target) index_ops.next (data_ops.seek target)
        data_ops.seek_to_first fuel j t u h e
  Run-IsBare i u (after_first {t} fuel r e) =
      let (j, h) = Run-IsBare i t r in
      move_then-stays index_ops.seek_to_first index_ops.next data_ops.seek_to_first
        data_ops.seek_to_first fuel j t u h e
  Run-IsBare i u (after_last {t} fuel r e) =
      let (j, h) = Run-IsBare i t r in
      move_then-stays index_ops.seek_to_last index_ops.prev data_ops.seek_to_last
        data_ops.seek_to_last fuel j t u h e
  Run-IsBare i u (after_next {t} fuel r e) =
      let (j, h) = Run-IsBare i t r in absurd (ground (arith, e, h.3))
  Run-IsBare i u (after_prev {t} fuel r e) =
      let (j, h) = Run-IsBare i t r in absurd (ground (arith, e, h.3))

  -- In every state that calls on a new two-level iterator lead to, the iterator is not valid,
  -- whatever the index and the blocks hold; and SeekToFirst returns, if the index iterator has a
  -- measure that Next makes smaller and the fuel is above it.
  pub Run-invalid :
      (i : I) (t : TwoLevelIter I D) (left : I → ℕ) (fuel : ℕ)
      → Run i t
      → ((j : I) → index_ops.valid j ≡ true → left (index_ops.next j) < left j)
      → ((j : I) → left (index_ops.seek_to_first j) < fuel)
      → (two_level_valid index_ops data_ops block_function t ≡ false)
        × ((u : TwoLevelIter I D) × (two_level_to_first index_ops data_ops block_function fuel t
              ≡ some u)
            × (two_level_valid index_ops data_ops block_function u ≡ false))
  unfolding two_level_valid two_level_to_first skip_forward
  Run-invalid i t left fuel r shrinks enough =
      let (j, h) = Run-IsBare i t r in
      let (v, moved, bare) = move-IsBare index_ops.seek_to_first data_ops.seek_to_first j t h in
      let (k, u, skipped, end) =
        skip_empty-IsBare index_ops.next data_ops.seek_to_first left fuel
          (index_ops.seek_to_first j) v shrinks (enough j) bare in
      (h.3, (u, rw (two_level_to_first, moved, two_level_to_first) skipped, end.3))
