-- ===== src/Batch/Runs.antt =====
-- Batches at concrete inputs.
use yubindb.Prelude.{ℕ, ◌≡◌, none, some, List, [], ◌∷◌, arith}
use yubindb.State.{State, corruption}
use yubindb.Memtable.{Node, Skiplist}
use yubindb.Batch.{WriteBatch, clear, put, delete, append, insert_into}
use yubindb.Batch.Contents.{putting, deleting, IsBatch, clear-IsBatch, put-IsBatch, delete-IsBatch}
use yubindb.Batch.Apply.{apply, insert_into-apply, append_loses_deletions}

-- The nodes in the order in which they were inserted, the last first.
abbrev inserted : Skiplist (List Node)
inserted = record { insert = λ n t. n ∷ t; find_ge = λ k t. none }

abbrev empty_batch : WriteBatch
empty_batch = clear (record { mate = []; seq = 0 })

abbrev one_put : WriteBatch
one_put = put empty_batch (97 ∷ []) (1 ∷ 2 ∷ [])

abbrev one_delete : WriteBatch
one_delete = delete empty_batch (98 ∷ [])

one_put-IsBatch : IsBatch one_put 0 (putting (97 ∷ []) (1 ∷ 2 ∷ []) ∷ [])
one_put-IsBatch =
    put-IsBatch empty_batch 0 [] (97 ∷ []) (1 ∷ 2 ∷ [])
      (clear-IsBatch (record { mate = []; seq = 0 })) (omega arith) (omega arith) (omega arith)

one_delete-IsBatch : IsBatch one_delete 0 (deleting (98 ∷ []) ∷ [])
one_delete-IsBatch =
    delete-IsBatch empty_batch 0 [] (98 ∷ []) (clear-IsBatch (record { mate = []; seq = 0 }))
      (omega arith) (omega arith)

insert_into-apply_example :
    (s : ℕ) × (insert_into inserted one_put []
      ≡ some (
        State.ok,
        record one_put { seq = s },
        apply inserted 0 (putting (97 ∷ []) (1 ∷ 2 ∷ []) ∷ []) [],
      ))
insert_into-apply_example =
    insert_into-apply inserted one_put 0 (putting (97 ∷ []) (1 ∷ 2 ∷ []) ∷ []) [] one_put-IsBatch

append_loses_deletions_example :
    (b : WriteBatch) × (insert_into inserted (append one_put one_delete) []
      ≡ some (corruption, b, apply inserted 0 (putting (97 ∷ []) (1 ∷ 2 ∷ []) ∷ []) []))
append_loses_deletions_example =
    append_loses_deletions inserted one_put one_delete 0 0 (putting (97 ∷ []) (1 ∷ 2 ∷ []) ∷ []) []
      (98 ∷ []) [] one_put-IsBatch one_delete-IsBatch (omega arith)

put-IsBatch_example :
    IsBatch
      (put one_delete (97 ∷ []) (1 ∷ []))
      0
      (deleting (98 ∷ []) ∷ putting (97 ∷ []) (1 ∷ []) ∷ [])
put-IsBatch_example =
    put-IsBatch one_delete 0 (deleting (98 ∷ []) ∷ []) (97 ∷ []) (1 ∷ []) one_delete-IsBatch
      (omega arith) (omega arith) (omega arith)
