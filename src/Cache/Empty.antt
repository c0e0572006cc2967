-- ===== src/Cache/Empty.antt =====
-- A cache stays empty: the first Insert of each key is undefined.
use yubindb.Prelude.{
  ℕ, zero, suc, ◌/◌, ◌%◌, ◌≡◌, refl, ap, none, some, List, [], ◌∷◌, All, arith, replicate,
  Option-cases, inl, inr,
}
use yubindb.Cache.{
  LruCache, new_lru, find, erase, insert, lookup, get_size, ShareCache, new_share, shard_at,
  set_shard, sum_sizes, new_id, share_size, share_insert, share_lookup, share_erase,
}

module _ (hash : List ℕ → ℕ) where
  -- The states that calls on a new cache lead to without undefined behaviour.
  pub data Run (size : ℕ) : ShareCache → Type 0 where
    start : Run size (new_share size)
    after_insert :
        {s t : ShareCache} (key : List ℕ) (value : ℕ)
        → Run size s
        → share_insert hash key value s ≡ some t
        → Run size t
    after_lookup :
        {s : ShareCache} (key : List ℕ) → Run size s → Run size (share_lookup hash key s).1
    after_erase : {s : ShareCache} (key : List ℕ) → Run size s → Run size (share_erase hash key s)
    after_new_id : {s : ShareCache} → Run size s → Run size (new_id s).1

  abbrev IsEmpty : LruCache → Type 0
  IsEmpty c = (c.nodes ≡ []) × (c.map ≡ [])

  shard_at-IsEmpty :
      (i : ℕ) (cs : List LruCache) (c : LruCache)
      → All IsEmpty cs
      → shard_at i cs ≡ some c
      → IsEmpty c
  unfolding shard_at
  shard_at-IsEmpty i [] c h e = absurd (ground arith)
  shard_at-IsEmpty zero (d ∷ cs) c h e = ground (arith, h.0)
  shard_at-IsEmpty (suc i) (d ∷ cs) c h e = shard_at-IsEmpty i cs c h.1 e

  set_shard-IsEmpty :
      (i : ℕ) (d : LruCache) (cs : List LruCache)
      → IsEmpty d
      → All IsEmpty cs
      → All IsEmpty (set_shard i d cs)
  unfolding set_shard
  set_shard-IsEmpty i d [] hd h = tt
  set_shard-IsEmpty zero d (c ∷ cs) hd h = (hd, h.1)
  set_shard-IsEmpty (suc i) d (c ∷ cs) hd h = (h.0, set_shard-IsEmpty i d cs hd h.1)

  find-IsEmpty : (key : List ℕ) (c : LruCache) → IsEmpty c → find key c.map ≡ none
  unfolding find
  find-IsEmpty key c h = ap (find key) h.1

  lookup-IsEmpty : (key : List ℕ) (c : LruCache) → IsEmpty c → lookup key c ≡ (none, c)
  unfolding lookup
  lookup-IsEmpty key c h = rw (find-IsEmpty key c h, lookup)

  erase-IsEmpty : (key : List ℕ) (c : LruCache) → IsEmpty c → erase key c ≡ c
  unfolding erase
  erase-IsEmpty key c h = rw (find-IsEmpty key c h, erase)

  insert-IsEmpty : (key : List ℕ) (value : ℕ) (c : LruCache) → IsEmpty c → insert key value c ≡ none
  unfolding insert
  insert-IsEmpty key value c h = rw (find-IsEmpty key c h, insert)

  replicate-IsEmpty : (n size : ℕ) → All IsEmpty (replicate n (new_lru size))
  unfolding new_lru
  replicate-IsEmpty zero size = tt
  replicate-IsEmpty (suc n) size = ((refl, refl), replicate-IsEmpty n size)

  share_lookup-IsEmpty :
      (key : List ℕ) (s : ShareCache)
      → All IsEmpty s.shards
      → ((share_lookup hash key s).0 ≡ none) × All IsEmpty (share_lookup hash key s).1.shards
  unfolding share_lookup
  share_lookup-IsEmpty key s h = elim (Option-cases (shard_at (hash key % 16) s.shards)) [
    | inl e ↦ rw (e, share_lookup) (refl, h)
    | inr (c, e) ↦
        let one = shard_at-IsEmpty (hash key % 16) s.shards c h e in
        rw (e, share_lookup, lookup-IsEmpty key c one)
          (refl, set_shard-IsEmpty (hash key % 16) c s.shards one h)
  ]

  share_erase-IsEmpty :
      (key : List ℕ) (s : ShareCache)
      → All IsEmpty s.shards
      → All IsEmpty (share_erase hash key s).shards
  unfolding share_erase
  share_erase-IsEmpty key s h = elim (Option-cases (shard_at (hash key % 16) s.shards)) [
    | inl e ↦ rw (e, share_erase) h
    | inr (c, e) ↦
        let one = shard_at-IsEmpty (hash key % 16) s.shards c h e in
        rw (e, share_erase, erase-IsEmpty key c one)
          (set_shard-IsEmpty (hash key % 16) c s.shards one h)
  ]

  share_insert-IsEmpty :
      (key : List ℕ) (value : ℕ) (s : ShareCache)
      → All IsEmpty s.shards
      → share_insert hash key value s ≡ none
  unfolding share_insert
  share_insert-IsEmpty key value s h = elim (Option-cases (shard_at (hash key % 16) s.shards)) [
    | inl e ↦ rw (e, share_insert)
    | inr (c, e) ↦ rw (
      e,
      share_insert,
      insert-IsEmpty key value c (shard_at-IsEmpty (hash key % 16) s.shards c h e),
      share_insert,
    )
  ]

  Run-IsEmpty : (size : ℕ) (s : ShareCache) → Run size s → All IsEmpty s.shards
  unfolding new_share new_id
  Run-IsEmpty size _ start = replicate-IsEmpty 16 (size / 16)
  Run-IsEmpty size t (after_insert {s} key value r e) =
      absurd (ground (arith, e, share_insert-IsEmpty key value s (Run-IsEmpty size s r)))
  Run-IsEmpty size _ (after_lookup {s} key r) =
      (share_lookup-IsEmpty key s (Run-IsEmpty size s r)).1
  Run-IsEmpty size _ (after_erase {s} key r) = share_erase-IsEmpty key s (Run-IsEmpty size s r)
  Run-IsEmpty size _ (after_new_id {s} r) = Run-IsEmpty size s r

  sum_sizes-IsEmpty : (cs : List LruCache) → All IsEmpty cs → sum_sizes cs ≡ 0
  unfolding sum_sizes get_size
  sum_sizes-IsEmpty [] h = refl
  sum_sizes-IsEmpty (c ∷ cs) h = rw (h.0.0, sum_sizes-IsEmpty cs h.1)

  -- In every state that calls on a new cache lead to without undefined behaviour, the size is 0,
  -- Lookup returns a null pointer whatever was inserted before, and Insert is undefined.
  pub Run-Empty :
      (size : ℕ) (s : ShareCache)
      → Run size s
      → (key : List ℕ) (value : ℕ)
      → (share_size s ≡ 0)
        × ((share_lookup hash key s).0 ≡ none)
        × (share_insert hash key value s ≡ none)
  unfolding share_size
  Run-Empty size s r key value =
      let h = Run-IsEmpty size s r in
      (
        sum_sizes-IsEmpty s.shards h,
        (share_lookup-IsEmpty key s h).0,
        share_insert-IsEmpty key value s h,
      )
