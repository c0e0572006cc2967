-- ===== src/Filter/Blocks.antt =====
-- A filter block that is built along the blocks of a table has no false negatives.
use yubindb.Prelude.{
  ℕ, zero, suc, ◌+◌, ◌-◌, ◌*◌, ◌/◌, ◌%◌, ◌^◌, ◌≤◌, ◌<◌, ◌≡◌, refl, sym, ap, subst, ◌∙◌, true, List,
  [], ◌∷◌, ◌++◌, length, All, All-split, length-append, append_assoc, append-nil, arith,
  pos→nonzero,
}
use yubindb.Coding.{put_fixed32}
use yubindb.Bloom.{BloomFilter, key_may_match}
use yubindb.Bloom.Match.{key_may_match-create_filter}
use yubindb.Filter.{
  FilterBuilder, new_filter_builder, add_key, put_offsets, start_block, create_filters,
  finish_filters, new_filter_reader, filter_may_match,
}
use yubindb.Filter.Layout.{
  filter_of, filters, sizes, builder_of, closed, add_key-builder_of, create_new_filter-builder_of,
  create_filters-builder_of,
}
use yubindb.Filter.Match.{
  length-offsets, block_bytes, reader_of, finish_filters-bytes, new_filter_reader-block_bytes,
  filter_may_match-group,
}

-- A block: its offset, and its keys.
abbrev pub KeyBlock : Type 0
KeyBlock = ℕ × List (List ℕ)

-- AddKey for each key, and StartBlock with AddKey for each block.
abbrev pub add_keys : List (List ℕ) → FilterBuilder → FilterBuilder
add_keys [] b = b
add_keys (k ∷ ks) b = add_keys ks (add_key k b)

-- The groups and the pending keys after some blocks.
abbrev run :
    List KeyBlock → List (List (List ℕ)) → List (List ℕ) → List (List (List ℕ)) × List (List ℕ)
run [] done pending = (done, pending)
run ((o, ks) ∷ bs) done pending =
    run bs (closed (o / 2 ^ 11 - length done) done pending).0
      ((closed (o / 2 ^ 11 - length done) done pending).1 ++ ks)

-- The groups that Finish leaves.
abbrev final : List (List (List ℕ)) → List (List ℕ) → List (List (List ℕ))
final done [] = done
final done (k ∷ ks) = done ++ (k ∷ ks) ∷ []

abbrev pub groups : List KeyBlock → List (List (List ℕ))
groups bs = final (run bs [] []).0 (run bs [] []).1

-- Groups that are made stay, at the front.
abbrev Extends : List (List (List ℕ)) → List (List (List ℕ)) → Type 0
Extends gs done = (more : List (List (List ℕ))) × (gs ≡ done ++ more)

Extends-trans : (gs hs ds : List (List (List ℕ))) → Extends gs hs → Extends hs ds → Extends gs ds
Extends-trans gs hs ds (more, e) (more', e') =
    (more' ++ more, e ∙ ap (λ t. t ++ more) e' ∙ append_assoc ds more' more)

closed-Extends :
    (n : ℕ) (done : List (List (List ℕ))) (pending : List (List ℕ))
    → Extends (closed n done pending).0 done
closed-Extends zero done pending = ([], sym (append-nil done))
closed-Extends (suc n) done pending =
    Extends-trans (closed n (done ++ pending ∷ []) []).0 (done ++ pending ∷ []) done
      (closed-Extends n (done ++ pending ∷ []) []) (pending ∷ [], refl)

final-Extends :
    (done : List (List (List ℕ))) (pending : List (List ℕ)) → Extends (final done pending) done
final-Extends done [] = ([], sym (append-nil done))
final-Extends done (k ∷ ks) = ((k ∷ ks) ∷ [], refl)

run-Extends :
    (bs : List KeyBlock) (done : List (List (List ℕ))) (pending : List (List ℕ))
    → Extends (final (run bs done pending).0 (run bs done pending).1) done
run-Extends [] done pending = final-Extends done pending
run-Extends ((o, ks) ∷ bs) done pending =
    let n = o / 2 ^ 11 - length done in
    let next = closed n done pending in
    Extends-trans (final (run bs next.0 (next.1 ++ ks)).0 (run bs next.0 (next.1 ++ ks)).1) next.0
      done (run-Extends bs next.0 (next.1 ++ ks)) (closed-Extends n done pending)

-- A pending key comes into the group behind those that are made.
abbrev Stands : List (List (List ℕ)) → List (List (List ℕ)) → List ℕ → Type 0
Stands gs done key =
    (before : List (List ℕ)) × (after : List (List ℕ)) × (post : List (List (List ℕ))) × (gs
      ≡ done ++ (before ++ key ∷ after) ∷ post)

-- The same at a block whose StartBlock makes `n` filters, given that it holds if it makes none.
closed-Stands :
    (n : ℕ) (bs : List KeyBlock) (ks : List (List ℕ)) (done : List (List (List ℕ)))
    (before after : List (List ℕ)) (key : List ℕ)
    → Stands
        (final
          (run bs done (before ++ key ∷ (after ++ ks))).0
          (run bs done (before ++ key ∷ (after ++ ks))).1)
        done
        key
    → Stands
        (final
          (run bs
            (closed n done (before ++ key ∷ after)).0
            ((closed n done (before ++ key ∷ after)).1 ++ ks)).0
          (run bs
            (closed n done (before ++ key ∷ after)).0
            ((closed n done (before ++ key ∷ after)).1 ++ ks)).1)
        done
        key
closed-Stands zero bs ks done before after key h =
    subst (λ t. Stands (final (run bs done t).0 (run bs done t).1) done key)
      (sym (append_assoc before (key ∷ after) ks)) h
closed-Stands (suc n) bs ks done before after key h =
    let next = closed n (done ++ (before ++ key ∷ after) ∷ []) [] in
    let (more, e) =
      Extends-trans (final (run bs next.0 (next.1 ++ ks)).0 (run bs next.0 (next.1 ++ ks)).1) next.0
        (done ++ (before ++ key ∷ after) ∷ []) (run-Extends bs next.0 (next.1 ++ ks))
        (closed-Extends n (done ++ (before ++ key ∷ after) ∷ []) []) in
    (before, after, more, e ∙ append_assoc done ((before ++ key ∷ after) ∷ []) more)

run-Stands :
    (bs : List KeyBlock) (done : List (List (List ℕ))) (before after : List (List ℕ)) (key : List ℕ)
    → Stands
        (final (run bs done (before ++ key ∷ after)).0 (run bs done (before ++ key ∷ after)).1)
        done
        key
run-Stands [] done [] after key = ([], after, [], refl)
run-Stands [] done (k ∷ before) after key = (k ∷ before, after, [], refl)
run-Stands ((o, ks) ∷ bs) done before after key =
    closed-Stands (o / 2 ^ 11 - length done) bs ks done before after key
      (run-Stands bs done before (after ++ ks) key)

-- How many groups are made: as many as the offset of the last block says.
length-closed :
    (n : ℕ) (done : List (List (List ℕ))) (pending : List (List ℕ))
    → length (closed n done pending).0 ≡ length done + n
length-closed zero done pending = omega arith
length-closed (suc n) done pending =
    omega (arith, length-closed n (done ++ pending ∷ []) [], length-append done (pending ∷ []))

length-run :
    (bs : List KeyBlock) (o : ℕ) (done : List (List (List ℕ))) (pending : List (List ℕ))
    → All (λ b. b.0 ≤ o) bs
    → length done ≤ o / 2 ^ 11
    → length (run bs done pending).0 ≤ o / 2 ^ 11
length-run [] o done pending h small = small
length-run ((p, ks) ∷ bs) o done pending h small =
    let next = closed (p / 2 ^ 11 - length done) done pending in
    let low : p / 2 ^ 11 ≤ o / 2 ^ 11 = omega (arith, h.0) in
    length-run bs o next.0 (next.1 ++ ks) h.1
      (omega (arith, low, small, length-closed (p / 2 ^ 11 - length done) done pending))

run-append :
    (bs cs : List KeyBlock) (done : List (List (List ℕ))) (pending : List (List ℕ))
    → run (bs ++ cs) done pending ≡ run cs (run bs done pending).0 (run bs done pending).1
run-append [] cs done pending = refl
run-append ((o, ks) ∷ bs) cs done pending =
    let next = closed (o / 2 ^ 11 - length done) done pending in
    run-append bs cs next.0 (next.1 ++ ks)

-- A key of a block stands in the group whose number is the block's offset by 2048.
group_of_key :
    (before after : List KeyBlock) (o : ℕ) (ks ls : List (List ℕ)) (key : List ℕ)
    → All (λ b. b.0 ≤ o) before
    → (pre : List (List (List ℕ))) × (a : List (List ℕ)) × (b : List (List ℕ)) × (post : List
        (List (List ℕ)))
      × (groups (before ++ (o, ks ++ key ∷ ls) ∷ after) ≡ pre ++ (a ++ key ∷ b) ∷ post)
      × (length pre ≡ o / 2 ^ 11)
group_of_key before after o ks ls key h =
    let now = run before [] [] in
    let n = o / 2 ^ 11 - length now.0 in
    let next = closed n now.0 now.1 in
    let low : length now.0 ≤ o / 2 ^ 11 = length-run before o [] [] h (omega arith) in
    let (a, b, post, e) = run-Stands after next.0 (next.1 ++ ks) ls key in
    (
      next.0,
      a,
      b,
      post,
      ap (λ r. final r.0 r.1) (run-append before ((o, ks ++ key ∷ ls) ∷ after) [] [])
          ∙ ap (λ t. final (run after next.0 t).0 (run after next.0 t).1)
              (sym (append_assoc next.1 ks (key ∷ ls)))
          ∙ e,
      omega (arith, low, length-closed n now.0 now.1),
    )

module _ (hash : List ℕ → ℕ) (bloom : BloomFilter) where
  abbrev pub filter_blocks : List KeyBlock → FilterBuilder → FilterBuilder
  filter_blocks [] b = b
  filter_blocks ((o, ks) ∷ bs) b = filter_blocks bs (add_keys ks (start_block hash bloom o b))

  add_keys-builder_of :
      (ks : List (List ℕ)) (done : List (List (List ℕ))) (pending : List (List ℕ))
      → add_keys ks (builder_of hash bloom done pending)
        ≡ builder_of hash bloom done (pending ++ ks)
  add_keys-builder_of [] done pending = ap (builder_of hash bloom done) (sym (append-nil pending))
  add_keys-builder_of (k ∷ ks) done pending =
      ap (add_keys ks) (add_key-builder_of hash bloom done pending k)
      ∙ add_keys-builder_of ks done (pending ++ k ∷ [])
      ∙ ap (builder_of hash bloom done) (append_assoc pending (k ∷ []) ks)

  start_block-builder_of :
      (o : ℕ) (done : List (List (List ℕ))) (pending : List (List ℕ))
      → start_block hash bloom o (builder_of hash bloom done pending)
        ≡ builder_of hash bloom
            (closed (o / 2 ^ 11 - length done) done pending).0
            (closed (o / 2 ^ 11 - length done) done pending).1
  unfolding start_block
  start_block-builder_of o done pending =
      ap (λ n. create_filters hash bloom (o / 2 ^ 11 - n) (builder_of hash bloom done pending))
        (length-offsets hash bloom 0 done)
      ∙ create_filters-builder_of hash bloom (o / 2 ^ 11 - length done) done pending

  filter_blocks-builder_of :
      (bs : List KeyBlock) (done : List (List (List ℕ))) (pending : List (List ℕ))
      → filter_blocks bs (builder_of hash bloom done pending)
        ≡ builder_of hash bloom (run bs done pending).0 (run bs done pending).1
  filter_blocks-builder_of [] done pending = refl
  filter_blocks-builder_of ((o, ks) ∷ bs) done pending =
      let next = closed (o / 2 ^ 11 - length done) done pending in
      ap (λ b. filter_blocks bs (add_keys ks b)) (start_block-builder_of o done pending)
      ∙ ap (filter_blocks bs) (add_keys-builder_of ks next.0 next.1)
      ∙ filter_blocks-builder_of bs next.0 (next.1 ++ ks)

  abbrev closed_off : FilterBuilder → List ℕ
  closed_off b =
      put_fixed32 (put_offsets b.result b.filter_offsets) (length b.result % 2 ^ 32) ++ 11 ∷ []

  finish_filters-final :
      (done : List (List (List ℕ))) (pending : List (List ℕ))
      → (finish_filters hash bloom (builder_of hash bloom done pending)).0
        ≡ block_bytes hash bloom (final done pending)
  unfolding finish_filters
  finish_filters-final done [] = finish_filters-bytes hash bloom done
  finish_filters-final done (k ∷ ks) = rw (pos→nonzero (suc (length (sizes ks))) (omega arith)) (
      ap closed_off (create_new_filter-builder_of hash bloom done (k ∷ ks))
      ∙ finish_filters-bytes hash bloom (done ++ (k ∷ ks) ∷ []))

  key_may_match-filter_of :
      (a b : List (List ℕ)) (key : List ℕ)
      → bloom.hash_size ≤ 30
      → bloom.bits_key * length (a ++ key ∷ b) + 7 < 2 ^ 64
      → key_may_match hash key (filter_of hash bloom (a ++ key ∷ b)) ≡ true
  key_may_match-filter_of [] b key = key_may_match-create_filter hash bloom [] b key
  key_may_match-filter_of (x ∷ a) b key = key_may_match-create_filter hash bloom (x ∷ a) b key

  -- A filter block that is built along the blocks of a table has no false negatives: a key of a block
  -- matches at the offset of the block. The offsets of the blocks before are not above it, all filters
  -- fit 32 bits, and no group of keys overflows the number of its bits.
  pub filter_may_match-filter_blocks :
      (before after : List KeyBlock) (o : ℕ) (ks ls : List (List ℕ)) (key : List ℕ)
      → All (λ b. b.0 ≤ o) before
      → bloom.hash_size ≤ 30
      → length (filters hash bloom (groups (before ++ (o, ks ++ key ∷ ls) ∷ after))) < 2 ^ 32
      → All
          (λ g. bloom.bits_key * length g + 7 < 2 ^ 64)
          (groups (before ++ (o, ks ++ key ∷ ls) ∷ after))
      → filter_may_match hash o key (
          new_filter_reader
            (finish_filters hash bloom
              (filter_blocks (before ++ (o, ks ++ key ∷ ls) ∷ after) new_filter_builder)).0)
        ≡ true
  unfolding new_filter_builder
  filter_may_match-filter_blocks before after o ks ls key h probes fit small =
      let bs = before ++ (o, ks ++ key ∷ ls) ∷ after in
      let (pre, a, b, post, e, place) = group_of_key before after o ks ls key h in
      let group_small : bloom.bits_key * length (a ++ key ∷ b) + 7 < 2 ^ 64 =
        (All-split (λ g. bloom.bits_key * length g + 7 < 2 ^ 64) pre ((a ++ key ∷ b) ∷ post)
          (subst (λ gs. All (λ g. bloom.bits_key * length g + 7 < 2 ^ 64) gs) e small)).1.0 in
      let bytes : (finish_filters hash bloom (filter_blocks bs new_filter_builder)).0
          ≡ block_bytes hash bloom (groups bs) =
        ap (λ t. (finish_filters hash bloom t).0) (filter_blocks-builder_of bs [] [])
        ∙ finish_filters-final (run bs [] []).0 (run bs [] []).1 in
      ap (λ t. filter_may_match hash o key (new_filter_reader t)) bytes
      ∙ ap (filter_may_match hash o key) (new_filter_reader-block_bytes hash bloom (groups bs) fit)
      ∙ ap (λ gs. filter_may_match hash o key (reader_of hash bloom gs)) e
      ∙ filter_may_match-group hash bloom pre post (a ++ key ∷ b) o key (sym place)
          (subst (λ gs. length (filters hash bloom gs) < 2 ^ 32) e fit)
      ∙ key_may_match-filter_of a b key probes group_small
