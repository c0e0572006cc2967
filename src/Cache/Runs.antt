-- ===== src/Cache/Runs.antt =====
-- Runs of ShareCache.
use yubindb.Prelude.{ℕ, ◌≡◌, none, List, [], ◌∷◌}
use yubindb.Cache.{share_insert, share_lookup, share_erase, new_share, share_size}
use yubindb.Cache.Empty.{Run, Run-Empty}

abbrev sum_hash : List ℕ → ℕ
sum_hash k = 21

abbrev erased : Run sum_hash 32 (share_erase sum_hash (7 ∷ []) (new_share 32))
erased = Run.after_erase (7 ∷ []) Run.start

Run-Empty_example :
    (share_size (share_erase sum_hash (7 ∷ []) (new_share 32)) ≡ 0)
    × ((share_lookup sum_hash (7 ∷ []) (share_erase sum_hash (7 ∷ []) (new_share 32))).0 ≡ none)
    × (share_insert sum_hash (7 ∷ []) 5 (share_erase sum_hash (7 ∷ []) (new_share 32)) ≡ none)
Run-Empty_example =
    Run-Empty sum_hash 32 (share_erase sum_hash (7 ∷ []) (new_share 32)) erased (7 ∷ []) 5
