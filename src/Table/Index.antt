-- ===== src/Table/Index.antt =====
-- The index block of a table has no entries.
use yubindb.Prelude.{
  ℕ, ◌+◌, ◌≡◌, refl, sym, ap, ◌∙◌, inl, inr, Bool, false, Option, none, some, List, [], ◌∷◌, leb,
  true, arith, Bool-cases, Option-cases,
}
use yubindb.State.{State, is_ok}
use yubindb.Crc.{Crc}
use yubindb.Block.{BlockBuilder, new_builder, add, finish, put_restarts, current_size_estimate}
use yubindb.Coding.{put_fixed32, encode_fixed32, little_endian}
use yubindb.Filter.{add_key, finish_filters}
use yubindb.Bloom.{BloomFilter}
use yubindb.Version.Find.{some-injective}
use yubindb.Table.{Snappy, BlockHandle, put_handle, put_footer}
use yubindb.Table.Build.{
  TableBuilder, new_table_builder, write_raw_block, write_block, flush_block, add_pending,
  add_entry, finish_filter, finish_metaindex, finish_index, index_and_footer, finish_table,
}

empty_block : (finish (new_builder 1)).0 ≡ 0 ∷ 0 ∷ 0 ∷ 0 ∷ 1 ∷ 0 ∷ 0 ∷ 0 ∷ []
unfolding finish new_builder put_restarts put_fixed32 encode_fixed32 little_endian
empty_block = refl

module _ {F : Type 0} (append_file : F → List ℕ → State × F) (flush_file : F → F) (crc : Crc)
    (snappy : Snappy) (cleared : List ℕ → List ℕ) (hash : List ℕ → ℕ) (bloom : BloomFilter) where
  -- No entry of the index is pending, and none is there.
  abbrev pub IsBare : TableBuilder F → Type 0
  IsBare t = (t.pending_index_entry ≡ false) × (t.index_block ≡ new_builder 1)

  write_raw_block-keeps :
      (contents : List ℕ) (kind : ℕ) (t : TableBuilder F)
      → ((write_raw_block append_file flush_file crc snappy cleared hash bloom contents kind
            t).1.pending_index_entry
          ≡ t.pending_index_entry)
        × ((write_raw_block append_file flush_file crc snappy cleared hash bloom contents kind
              t).1.index_block
            ≡ t.index_block)
  unfolding write_raw_block
  write_raw_block-keeps contents kind t = (ground arith, ground arith)

  write_block-keeps :
      (raw : List ℕ) (t : TableBuilder F)
      → ((write_block append_file flush_file crc snappy cleared hash bloom raw
            t).1.pending_index_entry
          ≡ t.pending_index_entry)
        × ((write_block append_file flush_file crc snappy cleared hash bloom raw t).1.index_block
            ≡ t.index_block)
  unfolding write_block
  write_block-keeps raw t = elim (Bool-cases t.has_compression) [
    | inr e ↦ (
      ground (arith, e, (write_raw_block-keeps raw 0 t).0),
      ground (arith, e, (write_raw_block-keeps raw 0 t).1),
    )
    | inl e ↦ elim (Option-cases (snappy.compress raw)) [
      | inl k ↦ (
        ground (arith, e, k, (write_raw_block-keeps raw 0 t).0),
        ground (arith, e, k, (write_raw_block-keeps raw 0 t).1),
      )
      | inr (packed, k) ↦ (
        ground (arith, e, k, (write_raw_block-keeps (cleared packed) 1 t).0),
        ground (arith, e, k, (write_raw_block-keeps (cleared packed) 1 t).1),
      )
    ]
  ]

  -- What an operation that returns leaves of the index; where it does not return, what was there.
  abbrev index_after : TableBuilder F → Option (TableBuilder F) → Bool × BlockBuilder
  index_after t none = (t.pending_index_entry, t.index_block)
  index_after t (some u) = (u.pending_index_entry, u.index_block)

  flush_block-keeps :
      (t : TableBuilder F)
      → t.pending_index_entry ≡ false
      → index_after t (flush_block append_file flush_file crc snappy cleared hash bloom t)
        ≡ (false, t.index_block)
  unfolding flush_block
  flush_block-keeps t h = ground (arith, h, (write_block-keeps (finish t.data_block).0 t).1)

  add_entry-keeps :
      (key val : List ℕ) (t : TableBuilder F)
      → t.pending_index_entry ≡ false
      → index_after t (add_entry append_file flush_file crc snappy cleared hash bloom key val t)
        ≡ (false, t.index_block)
  unfolding add_entry add_pending
  add_entry-keeps key val t h =
      let block = add t.data_block key val in
      let added : TableBuilder F = record t {
        filter_block = add_key key t.filter_block;
        last_key = key;
        num_entries = t.num_entries + 1;
        data_block = block;
      } in
      elim (Bool-cases t.closed) [
        | inl e ↦ ground (arith, e, h)
        | inr e ↦ elim (Bool-cases (leb t.block_size (current_size_estimate block))) [
          | inr small ↦ ground (arith, e, h, small)
          | inl big ↦
              elim (Option-cases
                (flush_block append_file flush_file crc snappy cleared hash bloom added)) [
                  | inl k ↦ ground (arith, e, h, big, k)
                  | inr (u, k) ↦
                      let kept : (u.pending_index_entry, u.index_block) ≡ (false, t.index_block) =
                        sym (ap (index_after added) k) ∙ flush_block-keeps added h in
                      ground (arith, e, h, big, k, kept)
                ]
        ]
      ]

  -- The states that Add and Flush lead to.
  pub data Run (size interval : ℕ) (compression : Bool) (f : F) : TableBuilder F → Type 0 where
    start : Run size interval compression f (new_table_builder size interval compression f)
    after_add :
        {t u : TableBuilder F} (key val : List ℕ)
        → Run size interval compression f t
        → add_entry append_file flush_file crc snappy cleared hash bloom key val t ≡ some u
        → Run size interval compression f u
    after_flush :
        {t u : TableBuilder F}
        → Run size interval compression f t
        → flush_block append_file flush_file crc snappy cleared hash bloom t ≡ some u
        → Run size interval compression f u

  Run-keeps :
      (size interval : ℕ) (compression : Bool) (f : F) (t : TableBuilder F)
      → Run size interval compression f t
      → (t.pending_index_entry ≡ false) × (t.index_block ≡ new_builder 1)
  unfolding new_table_builder
  Run-keeps size interval compression f _ start = (refl, refl)
  Run-keeps size interval compression f u (after_add {t} key val r e) =
      let (h, k) = Run-keeps size interval compression f t r in
      let kept = sym (ap (index_after t) e) ∙ add_entry-keeps key val t h in
      (ap (λ p. p.0) kept, ap (λ p. p.1) kept ∙ k)
  Run-keeps size interval compression f u (after_flush {t} r e) =
      let (h, k) = Run-keeps size interval compression f t r in
      let kept = sym (ap (index_after t) e) ∙ flush_block-keeps t h in
      (ap (λ p. p.0) kept, ap (λ p. p.1) kept ∙ k)

  finish_filter-keeps :
      (t : TableBuilder F)
      → IsBare t
      → IsBare (finish_filter append_file flush_file crc snappy cleared hash bloom t).1
  unfolding finish_filter
  finish_filter-keeps t h =
      let (contents, b) = finish_filters hash bloom t.filter_block in
      let (p, k) = write_raw_block-keeps contents 0 (record t { filter_block = b }) in
      elim (Bool-cases (is_ok t.state)) [ inl e ↦ rw e (p ∙ h.0, k ∙ h.1) | inr e ↦ rw e h ]

  finish_metaindex-keeps :
      (handle : BlockHandle) (t : TableBuilder F)
      → IsBare t
      → IsBare (finish_metaindex append_file flush_file crc snappy cleared hash bloom handle t).1
  unfolding finish_metaindex
  finish_metaindex-keeps handle t h =
      let name = 102 ∷ 105 ∷ 108 ∷ 116 ∷ 101 ∷ 114 ∷ 46 ∷ 98 ∷ 108 ∷ 111 ∷ 111 ∷ 109 ∷ [] in
      let block = add (new_builder t.data_block.interval) name (put_handle [] handle) in
      let (p, k) = write_block-keeps (finish block).0 t in
      elim (Bool-cases (is_ok t.state)) [ inl e ↦ rw e (p ∙ h.0, k ∙ h.1) | inr e ↦ rw e h ]

  -- The handle of the metaindex block and the state behind it, in a Finish whose Flush is done.
  abbrev pub behind_metaindex : TableBuilder F → BlockHandle × TableBuilder F
  behind_metaindex flushed =
      let (filter, t) =
        finish_filter append_file flush_file crc snappy cleared hash bloom
          (record flushed { closed = true }) in
      finish_metaindex append_file flush_file crc snappy cleared hash bloom filter t

  -- The file behind the footer, from the state in front of the index block.
  abbrev pub Finished : BlockHandle × TableBuilder F → TableBuilder F → Type 0
  Finished (metaindex, before) u =
      let (index, t) =
        write_block append_file flush_file crc snappy cleared hash bloom
          (0 ∷ 0 ∷ 0 ∷ 0 ∷ 1 ∷ 0 ∷ 0 ∷ 0 ∷ []) before in
      append_file t.file
        (put_footer [] (record { metaindex_handle = metaindex; index_handle = index }))
      ≡ (State.ok, u.file)

  index_and_footer-Finished :
      (metaindex : BlockHandle) (t u : TableBuilder F)
      → IsBare t
      → index_and_footer append_file flush_file crc snappy cleared hash bloom metaindex t
        ≡ (State.ok, u)
      → Finished (metaindex, t) u
  unfolding index_and_footer finish_index is_ok
  index_and_footer-Finished metaindex t u h e =
      let bytes : (finish t.index_block).0 ≡ 0 ∷ 0 ∷ 0 ∷ 0 ∷ 1 ∷ 0 ∷ 0 ∷ 0 ∷ [] =
        ap (λ b. (finish b).0) h.1 ∙ empty_block in
      ground (arith, h.0, bytes, e)

  -- However many entries are added, the index block that a Finish writes is the block without
  -- entries, one restart point at 0 and their number: a Finish that succeeds writes it behind the
  -- filter and the metaindex block, and then the footer with its handle.
  pub Run-index_block :
      (size interval : ℕ) (compression : Bool) (f : F) (t u : TableBuilder F)
      → Run size interval compression f t
      → finish_table append_file flush_file crc snappy cleared hash bloom t ≡ some (State.ok, u)
      → (flushed : TableBuilder F) × (flush_block append_file flush_file crc snappy cleared hash
            bloom t
          ≡ some flushed)
        × Finished (behind_metaindex flushed) u
  unfolding finish_table
  Run-index_block size interval compression f t u r e =
      let (h, k) = Run-keeps size interval compression f t r in
      elim (Option-cases (flush_block append_file flush_file crc snappy cleared hash bloom t)) [
        | inl missing ↦ absurd (ground (arith, missing, e))
        | inr (flushed, found) ↦
            let kept = sym (ap (index_after t) found) ∙ flush_block-keeps t h in
            let closing : TableBuilder F = record flushed { closed = true } in
            let filter =
              finish_filter append_file flush_file crc snappy cleared hash bloom closing in
            let meta =
              finish_metaindex append_file flush_file crc snappy cleared hash bloom filter.0
                filter.1 in
            let bare =
              finish_metaindex-keeps filter.0 filter.1
                (finish_filter-keeps closing (ap (λ p. p.0) kept, ap (λ p. p.1) kept ∙ k)) in
            let whole : finish_table append_file flush_file crc snappy cleared hash bloom t
                ≡ some (
                    index_and_footer append_file flush_file crc snappy cleared hash bloom meta.0
                      meta.1) =
              rw (found, finish_table) refl in
            (
              flushed,
              found,
              index_and_footer-Finished meta.0 meta.1 u bare (some-injective (sym whole ∙ e)),
            )
      ]
