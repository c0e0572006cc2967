-- ===== src/Block/RoundTrip.antt =====
-- A finished block, opened again.
use yubindb.Prelude.{
  ℕ, suc, ◌+◌, ◌-◌, ◌*◌, ◌/◌, ◌%◌, ◌^◌, ◌<◌, ◌≡◌, refl, ap, ap₂, sym, ◌∙◌, true, false, some, List,
  [], ◌∷◌, ◌++◌, ltb, length, length-append, drop, drop-append, append_assoc, append-nil, arith,
  le→not-ltb, lt→ltb,
}
use yubindb.Coding.{encode_fixed32, decode_fixed32, put_fixed32}
use yubindb.Coding.Fixed.{decode_fixed32-encode_fixed32, length-encode_fixed32}
use yubindb.Block.{
  new_builder, put_restarts, finish, num_restarts_at, open_block, BlockIter, new_iter, new_iterator,
  next_entry_offset, restart_point, seek_to_restart_point, seek_to_first, next,
}
use yubindb.Block.Build.{
  Pairs, Encoded, add_all, Small, add_all-Encoded, put_restarts-append, length-put_restarts,
  finish_lem,
}
use yubindb.Block.Iterate.{walk, At, walk-Encoded}

-- A block's bytes: entries, `suc k` restarts of which the first is 0, and their number.
module _ (es : Pairs) (bytes : List ℕ) (enc : Encoded [] es bytes) (rs : List ℕ)
    (word : length bytes + (suc (length rs) * 4 + 4) < 2 ^ 32) where
  abbrev n : ℕ
  n = suc (length rs)

  abbrev points : List ℕ
  points = put_restarts [] (0 ∷ rs)

  abbrev back : List ℕ
  back = points ++ encode_fixed32 n

  abbrev contents : List ℕ
  contents = bytes ++ back

  length-points : length points ≡ n * 4
  length-points = length-put_restarts (0 ∷ rs)

  contents_length : length contents ≡ length bytes + (n * 4 + 4)
  contents_length = omega (
    arith,
    length-append bytes back,
    length-append points (encode_fixed32 n),
    length-points,
    length-encode_fixed32 n,
  )

  contents_number : num_restarts_at contents (length contents) ≡ n
  unfolding num_restarts_at
  contents_number =
      ap₂ (λ k t. decode_fixed32 (drop k t)) at_number
        (sym (append_assoc bytes points (encode_fixed32 n)))
      ∙ ap decode_fixed32
          (drop-append (length (bytes ++ points)) (bytes ++ points) (encode_fixed32 n) refl)
      ∙ ap decode_fixed32 (sym (append-nil (encode_fixed32 n)))
      ∙ decode_fixed32-encode_fixed32 n [] (omega arith)
    where
      at_number : length contents - 4 ≡ length (bytes ++ points)
      at_number = omega (arith, contents_length, length-append bytes points, length-points)

  contents_open :
      open_block contents
      ≡ record { data_bytes = contents; size = length contents; restart_offset = length bytes }
  unfolding open_block
  contents_open =
      let long : ltb (length contents) 4 ≡ false =
        le→not-ltb (length contents) 4 (omega (arith, contents_length)) in
      let fits : ltb ((length contents - 4) / 4) n ≡ false =
        le→not-ltb ((length contents - 4) / 4) n (omega (arith, contents_length)) in
      let at_points : (length contents - (1 + n) * 4) % 2 ^ 32 ≡ length bytes =
        omega (arith, contents_length) in
      rw (long, contents_number, fits, at_points)

  abbrev it : BlockIter
  it = new_iter contents (length bytes) n

  contents_iterator : new_iterator (open_block contents) ≡ some it
  unfolding new_iterator
  contents_iterator =
      let long : ltb (length contents) 4 ≡ false =
        le→not-ltb (length contents) 4 (omega (arith, contents_length)) in
      let some_points : ltb 0 n ≡ true = lt→ltb 0 n (omega arith) in
      rw (contents_open, long, contents_number, some_points)

  points_first : points ≡ encode_fixed32 0 ++ put_restarts [] rs
  unfolding put_restarts put_fixed32
  points_first = put_restarts-append rs (encode_fixed32 0)

  first_point : restart_point it 0 ≡ 0
  unfolding restart_point new_iter
  first_point =
      let at_back : length bytes + 0 * 4 ≡ length bytes = omega arith in
      ap (λ k. decode_fixed32 (drop k contents)) at_back
      ∙ ap decode_fixed32 (drop-append (length bytes) bytes back refl)
      ∙ ap (λ t. decode_fixed32 (t ++ encode_fixed32 n)) points_first
      ∙ ap decode_fixed32 (append_assoc (encode_fixed32 0) (put_restarts [] rs) (encode_fixed32 n))
      ∙ decode_fixed32-encode_fixed32 0 (put_restarts [] rs ++ encode_fixed32 n) (omega arith)

  first_At : At (seek_to_restart_point 0 it) [] [] bytes back
  unfolding seek_to_restart_point next_entry_offset new_iter
  first_At = record {
    data_split = refl;
    limit = omega arith;
    word = omega arith;
    offset = omega (arith, first_point);
    key_last = refl;
  }

  contents_walk : walk (suc (length es)) (seek_to_first it) ≡ some es
  unfolding seek_to_first next
  contents_walk = walk-Encoded enc (seek_to_restart_point 0 it) [] back first_At

-- An iterator over a finished block starts at the first entry that was added and gives all of
-- them in their order, whatever the restart interval is, where the block is shorter than 2 ^ 32.
pub walk-add_all :
    (es : Pairs) (interval : ℕ)
    → Small es
    → length (finish (add_all es (new_builder interval))).0 < 2 ^ 32
    → (it : BlockIter) × (new_iterator (open_block (finish (add_all es (new_builder interval))).0)
        ≡ some it)
      × (walk (suc (length es)) (seek_to_first it) ≡ some es)
unfolding new_builder
walk-add_all es interval small short =
    let b = add_all es (new_builder interval) in
    let (bytes, rs, buffer, first, enc) = add_all-Encoded es (new_builder interval) [] small refl in
    let whole : (finish b).0
        ≡ bytes ++ (put_restarts [] (0 ∷ rs) ++ encode_fixed32 (suc (length rs) % 2 ^ 32)) =
      finish_lem b
      ∙ ap₂ (λ t r. t ++ (put_restarts [] r ++ encode_fixed32 (length r % 2 ^ 32))) buffer first in
    let long : length (finish b).0 ≡ length bytes + (suc (length rs) * 4 + 4) = omega (
      arith,
      ap length whole,
      length-append bytes (put_restarts [] (0 ∷ rs) ++ encode_fixed32 (suc (length rs) % 2 ^ 32)),
      length-append (put_restarts [] (0 ∷ rs)) (encode_fixed32 (suc (length rs) % 2 ^ 32)),
      length-put_restarts (0 ∷ rs),
      length-encode_fixed32 (suc (length rs) % 2 ^ 32),
    ) in
    let word : length bytes + (suc (length rs) * 4 + 4) < 2 ^ 32 = omega (arith, long) in
    let number : suc (length rs) % 2 ^ 32 ≡ suc (length rs) = omega arith in
    let same : (finish b).0 ≡ contents es bytes enc rs word =
      whole ∙ ap (λ k. bytes ++ (put_restarts [] (0 ∷ rs) ++ encode_fixed32 k)) number in
    (
      it es bytes enc rs word,
      ap (λ t. new_iterator (open_block t)) same ∙ contents_iterator es bytes enc rs word,
      contents_walk es bytes enc rs word,
    )
