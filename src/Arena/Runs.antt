-- ===== src/Arena/Runs.antt =====
-- Two allocations: one fills the start of a block, the other gets a block of its own.
use yubindb.Prelude.{◌%◌, ◌≡◌, refl, inl, [], ◌∷◌, arith}
use yubindb.Arena.{
  Arena, new_arena, allocate_new_block, allocate_fallback, allocate, allocate_aligned,
}
use yubindb.Arena.Disjoint.{
  IsFresh, start, plain, aligned, PairwiseApart, Run-PairwiseApart, allocate_aligned-mod,
}

abbrev one : Arena
one = (allocate 4096 16 new_arena).1

-- The second block begins 2000 bytes in front of the first.
one_block : IsFresh (2096, 2000) one
unfolding new_arena allocate allocate_fallback allocate_new_block
one_block = (inl (omega arith), tt)

none_yet : IsFresh (4096, 4096) new_arena
unfolding new_arena
none_yet = tt

Run-PairwiseApart_example :
    PairwiseApart
      (((allocate_aligned 2096 2000 one).0, 2000) ∷ ((allocate 4096 16 new_arena).0, 16) ∷ [])
Run-PairwiseApart_example =
    Run-PairwiseApart
      (aligned 2096 2000 (plain 4096 16 start (λ full. none_yet)) (omega arith) (λ full. one_block))

allocate_aligned-mod_example : (allocate_aligned 40960 2000 one).0 % 8 ≡ 0
allocate_aligned-mod_example = allocate_aligned-mod 40960 2000 one refl
