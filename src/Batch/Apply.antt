-- ===== src/Batch/Apply.antt =====
-- InsertInto: a batch in the memtable, and what becomes of a batch that Append joined.
use yubindb.Prelude.{
  ℕ, true, false, suc, ◌+◌, ◌%◌, ◌^◌, ◌≤◌, ◌<◌, ◌≡◌, refl, ap, sym, ap₂, ◌-◌, ◌∙◌, some, List, [],
  ◌∷◌, ◌++◌, ◌==◌, if◌then◌else◌, length, length-append, drop, append_assoc, append-nil, All, arith,
  ==_refl,
}
use yubindb.State.{State, corruption}
use yubindb.Coding.{put_length_prefixed}
use yubindb.Coding.Prefixed.{get_length_prefixed-put_length_prefixed}
use yubindb.Key.{deletion, value}
use yubindb.Memtable.{Skiplist, add}
use yubindb.Batch.{
  head_size, WriteBatch, count, set_count, sequence, c_string, append, insert_loop, insert_into,
}
use yubindb.Batch.Contents.{
  body-set_count, count-set_count, sequence-set_count, Update, putting, deleting, entry, entries,
  Fits, IsBatch,
}

module _ {T : Type 0} (table : Skiplist T) (seq : ℕ) where
  -- The updates, one after the other, all with one sequence number.
  abbrev pub apply : List Update → T → T
  apply [] m = m
  apply (putting key v ∷ us) m = apply us (add table seq value key v m)
  apply (deleting key ∷ us) m = apply us (add table seq deletion key [] m)

  module _ (expected : ℕ) where
    -- One round takes one entry.
    insert_loop-entry :
        (u : Update) (rest : List ℕ) (fuel cnt s : ℕ) (m : T)
        → Fits u
        → insert_loop table seq expected (suc fuel) (entry u ++ rest) cnt s m
          ≡ insert_loop table seq expected fuel rest
              ((cnt + 1) % 2 ^ 32)
              ((s + 1) % 2 ^ 64)
              (apply (u ∷ []) m)
    unfolding insert_loop
    insert_loop-entry (putting key v) rest fuel cnt s m fits = ground (
      arith,
      append_assoc (put_length_prefixed [] key) (put_length_prefixed [] v) rest,
      get_length_prefixed-put_length_prefixed key (put_length_prefixed [] v ++ rest) fits.0,
      get_length_prefixed-put_length_prefixed v rest fits.1,
    )
    insert_loop-entry (deleting key) rest fuel cnt s m fits =
        ground (arith, get_length_prefixed-put_length_prefixed key rest fits)

    insert_loop-entries :
        (us : List Update) (rest : List ℕ) (fuel cnt s : ℕ) (m : T)
        → All Fits us
        → cnt + length us < 2 ^ 32
        → (s' : ℕ) × (insert_loop table seq expected (length us + fuel) (entries us ++ rest) cnt s m
            ≡ insert_loop table seq expected fuel rest (cnt + length us) s' (apply us m))
    insert_loop-entries [] rest fuel cnt s m fits few =
        (s, ap₂ (λ f c. insert_loop table seq expected f rest c s m) (omega arith) (omega arith))
    insert_loop-entries (u ∷ us) rest fuel cnt s m fits few =
        let (s', later) =
          insert_loop-entries us rest fuel (cnt + 1) ((s + 1) % 2 ^ 64) (apply (u ∷ []) m) fits.1
            (omega arith) in
        let word : (cnt + 1) % 2 ^ 32 ≡ cnt + 1 = omega arith in
        let more : suc (length us) + fuel ≡ suc (length us + fuel) = omega arith in
        let counted : cnt + 1 + length us ≡ cnt + suc (length us) = omega arith in
        (
          s',
          ap₂ (λ f t. insert_loop table seq expected f t cnt s m) more
                (append_assoc (entry u) (entries us) rest)
              ∙ insert_loop-entry u (entries us ++ rest) (length us + fuel) cnt s m fits.0
              ∙ ap
                  (λ c.
                    insert_loop table seq expected (length us + fuel) (entries us ++ rest) c
                      ((s + 1) % 2 ^ 64) (apply (u ∷ []) m))
                  word
              ∙ later
              ∙ ap₂ (λ c t. insert_loop table seq expected fuel rest c s' t) counted
                  (apply_step u us m),
        )
      where
        apply_step :
            (u : Update) (us : List Update) (m : T) → apply us (apply (u ∷ []) m) ≡ apply (u ∷ us) m
        apply_step (putting key v) us m = refl
        apply_step (deleting key) us m = refl

length-entries : (us : List Update) → length us ≤ length (entries us)
length-entries [] = omega arith
length-entries (putting key v ∷ us) = omega (
  arith,
  length-entries us,
  length-append (put_length_prefixed [] key ++ put_length_prefixed [] v) (entries us),
)
length-entries (deleting key ∷ us) =
    omega (arith, length-entries us, length-append (put_length_prefixed [] key) (entries us))

module _ {T : Type 0} (table : Skiplist T) where
  -- All entries are applied, and their number is compared with the one that is stored.
  insert_into-entries :
      (b : WriteBatch) (us : List Update) (m : T)
      → drop head_size b.mate ≡ entries us
      → All Fits us
      → length us < 2 ^ 32
      → (s : ℕ) × (insert_into table b m
          ≡ some (
            if length us == count b then State.ok else corruption,
            record b { seq = s },
            apply table (sequence b) us m,
          ))
  unfolding insert_into
  insert_into-entries b us m body fits few =
      let left = length (entries us) - length us in
      let (s, runs) =
        insert_loop-entries table (sequence b) (count b) us [] (suc left) 0 b.seq m fits
          (omega arith) in
      let fuel : length us + suc left ≡ length (entries us) + 1 =
        omega (arith, length-entries us) in
      let ran : insert_loop table (sequence b) (count b) (length (entries us) + 1) (entries us) 0
            b.seq m
          ≡ some (
            if length us == count b then State.ok else corruption,
            s,
            apply table (sequence b) us m,
          ) =
        ap₂ (λ f t. insert_loop table (sequence b) (count b) f t 0 b.seq m) (sym fuel)
          (sym (append-nil (entries us)))
        ∙ runs
        ∙ at_end left s in
      (s, rw (body, ran, insert_into))
    where
      at_end :
          (left s : ℕ)
          → insert_loop table
              (sequence b)
              (count b)
              (suc left)
              []
              (0 + length us)
              s
              (apply table (sequence b) us m)
            ≡ some (
              if length us == count b then State.ok else corruption,
              s,
              apply table (sequence b) us m,
            )
      at_end left s = unfold insert_loop in ground arith

  -- InsertInto applies the updates of a batch in their order, all with the batch's own sequence
  -- number, and ends well.
  pub insert_into-apply :
      (b : WriteBatch) (seq : ℕ) (us : List Update) (m : T)
      → IsBatch b seq us
      → (s : ℕ) × (insert_into table b m
          ≡ some (State.ok, record b { seq = s }, apply table seq us m))
  insert_into-apply b seq us m v =
      let (s, runs) = insert_into-entries b us m v.body v.fits v.few in
      let same : (length us == count b) ≡ true = rw v.counted (==_refl (length us)) in
      (s, runs ∙ rw (same, v.numbered))

  -- After Append of a batch whose first update is a deletion, InsertInto applies the updates of the
  -- first batch alone and reports corruption: the entry's type is the byte that ends the C string.
  pub append_loses_deletions :
      (b source : WriteBatch) (seq seq' : ℕ) (us vs : List Update) (key : List ℕ) (m : T)
      → IsBatch b seq us
      → IsBatch source seq' (deleting key ∷ vs)
      → length us + suc (length vs) < 2 ^ 32
      → (b' : WriteBatch) × (insert_into table (append b source) m
          ≡ some (corruption, b', apply table seq us m))
  unfolding append c_string
  append_loses_deletions b source seq seq' us vs key m v w few =
      let n = count source + count b in
      let c = set_count b n in
      let nothing : c.mate ++ c_string (drop head_size source.mate) ≡ c.mate =
        ap (λ t. c.mate ++ c_string t) w.body ∙ append-nil c.mate in
      let (s, runs) =
        insert_into-entries c us m (body-set_count b v.room n ∙ v.body) v.fits v.few in
      let differ : (length us == count c) ≡ false =
        ground (arith, count-set_count b v.room n, v.counted, w.counted) in
      let numbered = sequence-set_count b v.room n ∙ v.numbered in
      (
        record c { seq = s },
        ap (λ t. insert_into table (record c { mate = t }) m) nothing
            ∙ runs
            ∙ rw (differ, numbered),
      )
