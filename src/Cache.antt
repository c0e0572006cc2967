-- ===== src/Cache.antt =====
-- LruCache and ShareCache of src/db/cache.h and src/db/cache.cpp. An iterator of the list is the
-- number of its node, so that the map and the list share nodes as the code's do. The mutexes
-- make each call one step.
pub mod Empty
mod Runs
use yubindb.Prelude.{
  ℕ, zero, suc, ◌+◌, ◌*◌, ◌/◌, ◌%◌, ◌^◌, Bool, true, false, ◌&&◌, not, Option, none, some, List, [],
  ◌∷◌, ◌++◌, ◌==◌, ltb, if◌then◌else◌, length, replicate,
}

-- An element of the list: kvpair and the node's number. The handle is what the pointer points at.
pub record Node : Type 0 where
  pub id : ℕ
  pub key : List ℕ
  pub handle : ℕ

-- class LruCache; `use` is never used. `next_id` numbers the nodes.
pub record LruCache : Type 0 where
  pub size : ℕ
  pub nodes : List Node
  pub map : List (List ℕ × ℕ)
  pub next_id : ℕ

-- LruCache(), with SetCapacity
unfoldable pub new_lru : ℕ → LruCache
new_lru capacity = record { size = capacity; nodes = []; map = []; next_id = 0 }

unfoldable pub key_eq : List ℕ → List ℕ → Bool
key_eq [] [] = true
key_eq [] (y ∷ ys) = false
key_eq (x ∷ xs) [] = false
key_eq (x ∷ xs) (y ∷ ys) = let rest = key_eq xs ys in if x == y then rest else false

-- cacheMap.find
unfoldable pub find : List ℕ → List (List ℕ × ℕ) → Option ℕ
find key [] = none
find key ((k, id) ∷ m) = let rest = find key m in if key_eq key k then some id else rest

-- cacheMap.erase
unfoldable pub erase_key : List ℕ → List (List ℕ × ℕ) → List (List ℕ × ℕ)
erase_key key [] = []
erase_key key ((k, id) ∷ m) =
    let rest = erase_key key m in if key_eq key k then rest else (k, id) ∷ rest

-- cacheMap[key] = id
unfoldable pub set_key : List ℕ → ℕ → List (List ℕ × ℕ) → List (List ℕ × ℕ)
set_key key id m = (key, id) ∷ erase_key key m

-- cacheList.erase
unfoldable pub erase_node : ℕ → List Node → List Node
erase_node id [] = []
erase_node id (n ∷ ns) = let rest = erase_node id ns in if id == n.id then ns else n ∷ rest

unfoldable pub find_node : ℕ → List Node → Option Node
find_node id [] = none
find_node id (n ∷ ns) = let rest = find_node id ns in if id == n.id then some n else rest

-- cacheList.splice(cacheList.begin(), cacheList, …)
unfoldable pub move_front : ℕ → List Node → List Node
move_front id ns = elim (find_node id ns) [ none ↦ ns | some n ↦ n ∷ erase_node id ns ]

-- cacheList.back() and pop_back()
unfoldable pub last_node : List Node → Option Node
last_node [] = none
last_node (n ∷ []) = some n
last_node (n ∷ m ∷ ns) = last_node (m ∷ ns)

unfoldable pub drop_last : List Node → List Node
drop_last [] = []
drop_last (n ∷ []) = []
drop_last (n ∷ m ∷ ns) = n ∷ drop_last (m ∷ ns)

-- LruCache::Erase
unfoldable pub erase : List ℕ → LruCache → LruCache
erase key c = elim (find key c.map) [
  | none ↦ c
  | some id ↦ record c { nodes = erase_node id c.nodes; map = erase_key key c.map }
]

-- Insert behind `emplace_front`: the last node goes if there are too many.
unfoldable pub evict : LruCache → LruCache
evict c =
    if ltb c.size (length c.nodes)
    then elim (last_node c.nodes) [
      | none ↦ c
      | some n ↦ record c { nodes = drop_last c.nodes; map = erase_key n.key c.map }
    ]
    else c

-- LruCache::Insert. A key that is not in the map takes the branch that reads the map's end
-- iterator, which is undefined: `none`.
unfoldable pub insert : List ℕ → ℕ → LruCache → Option LruCache
insert key handle c = elim (find key c.map) [
  | none ↦ none
  | some id ↦ some (
      evict (record c {
        nodes = record { id = c.next_id; key = key; handle = handle } ∷ c.nodes;
        map = set_key key c.next_id c.map;
        next_id = c.next_id + 1;
      }))
]

-- LruCache::Lookup: the handle, or a null pointer.
unfoldable pub lookup : List ℕ → LruCache → Option ℕ × LruCache
lookup key c = elim (find key c.map) [
  | none ↦ (none, c)
  | some id ↦ (
    elim (find_node id c.nodes) [ none ↦ none | some n ↦ some n.handle ],
    record c { nodes = move_front id c.nodes },
  )
]

-- LruCache::Getsize; a kvpair has 32 bytes.
unfoldable pub get_size : LruCache → ℕ
get_size c = length c.nodes * (32 + 8)

-- class ShareCache
pub record ShareCache : Type 0 where
  pub shards : List LruCache
  pub last_id : ℕ

-- ShareCache(size)
unfoldable pub new_share : ℕ → ShareCache
new_share size = record { shards = replicate 16 (new_lru (size / 16)); last_id = 0 }

unfoldable pub shard_at : ℕ → List LruCache → Option LruCache
shard_at i [] = none
shard_at zero (c ∷ cs) = some c
shard_at (suc i) (c ∷ cs) = shard_at i cs

unfoldable pub set_shard : ℕ → LruCache → List LruCache → List LruCache
set_shard i d [] = []
set_shard zero d (c ∷ cs) = d ∷ cs
set_shard (suc i) d (c ∷ cs) = c ∷ set_shard i d cs

unfoldable pub sum_sizes : List LruCache → ℕ
sum_sizes [] = 0
sum_sizes (c ∷ cs) = get_size c + sum_sizes cs

-- ShareCache::NewId and Getsize
unfoldable pub new_id : ShareCache → ℕ × ShareCache
new_id s = (s.last_id + 1, record s { last_id = s.last_id + 1 })

unfoldable pub share_size : ShareCache → ℕ
share_size s = sum_sizes s.shards

-- std::hash of a string view is a parameter.
module _ (hash : List ℕ → ℕ) where
  -- ShareCache::Insert
  unfoldable pub share_insert : List ℕ → ℕ → ShareCache → Option ShareCache
  share_insert key value s =
      let i = hash key % 16 in
      elim (shard_at i s.shards) [
        | none ↦ none
        | some c ↦ elim (insert key value c) [
          | none ↦ none
          | some d ↦ some (record s { shards = set_shard i d s.shards })
        ]
      ]

  -- ShareCache::Lookup
  unfoldable pub share_lookup : List ℕ → ShareCache → Option ℕ × ShareCache
  share_lookup key s =
      let i = hash key % 16 in
      elim (shard_at i s.shards) [
        | none ↦ (none, s)
        | some c ↦
            let (found, d) = lookup key c in (found, record s { shards = set_shard i d s.shards })
      ]

  -- ShareCache::Erase
  unfoldable pub share_erase : List ℕ → ShareCache → ShareCache
  share_erase key s =
      let i = hash key % 16 in
      elim (shard_at i s.shards) [
        | none ↦ s
        | some c ↦ record s { shards = set_shard i (erase key c) s.shards }
      ]
