-- ===== src/Block/Runs.antt =====
-- Blocks at concrete inputs.
use yubindb.Prelude.{◌≡◌, refl, ap, some, [], ◌∷◌, length, arith}
use yubindb.Coding.{encode_fixed32, put_fixed32, put_varint32, encode_varint32}
use yubindb.Block.{
  BlockIter, new_builder, shared_length, start_entry, add, put_restarts, finish, open_block,
  new_iterator, seek_to_first,
}
use yubindb.Block.Build.{Pairs, add_all, Small}
use yubindb.Block.Iterate.{walk}
use yubindb.Block.RoundTrip.{walk-add_all}

-- Two keys with a common prefix, and one that starts at a new restart.
abbrev three : Pairs
three = (97 ∷ 98 ∷ [], 1 ∷ []) ∷ (97 ∷ 99 ∷ [], []) ∷ (98 ∷ [], 2 ∷ 3 ∷ []) ∷ []

three-Small : Small three
three-Small = (omega arith, omega arith, (omega arith, omega arith, (omega arith, omega arith, tt)))

three_bytes :
    (finish (add_all three (new_builder 2))).0
    ≡ 0 ∷ 2 ∷ 1 ∷ 97 ∷ 98 ∷ 1 ∷ 1 ∷ 1 ∷ 0 ∷ 99 ∷ 0 ∷ 1 ∷ 2 ∷ 98 ∷ 2 ∷ 3 ∷ 0 ∷ 0 ∷ 0 ∷ 0 ∷ 10 ∷ 0 ∷ 0
      ∷ 0 ∷ 2 ∷ 0 ∷ 0 ∷ 0 ∷ []
unfolding finish add start_entry shared_length put_restarts new_builder put_fixed32 encode_fixed32
    put_varint32 encode_varint32
three_bytes = refl

length-three : length (finish (add_all three (new_builder 2))).0 ≡ 28
length-three = ap length three_bytes

walk-add_all_example :
    (it : BlockIter) × (new_iterator (open_block (finish (add_all three (new_builder 2))).0)
      ≡ some it)
    × (walk 4 (seek_to_first it) ≡ some three)
walk-add_all_example = walk-add_all three 2 three-Small (omega (arith, length-three))
