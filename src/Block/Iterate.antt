-- ===== src/Block/Iterate.antt =====
-- Reading a block: the iterator gives the entries that were added, in their order.
use yubindb.Prelude.{
  ℕ, zero, suc, ◌+◌, ◌-◌, ◌^◌, ◌≤◌, ◌<◌, ◌≡◌, refl, ap, ap₂, sym, ◌∙◌, Bool-cases, inl, inr, true,
  false, Option, none, some, List, [], ◌∷◌, ◌++◌, ltb, leb, if◌then◌else◌, ◌&&◌, length,
  length-append, length-drop, take, drop, take-append, drop-append, take-append-drop, append_assoc,
  append-nil, arith, le→leb, lt→not-leb, le→not-ltb, lt→ltb,
}
use yubindb.Coding.{encode_varint32}
use yubindb.Coding.Varint.{length-encode_varint32}
use yubindb.Block.{
  Sizes, decode_entry, BlockIter, valid, value, next_entry_offset, restart_point, advance_restart,
  take_entry, parse_next_key, next,
}
use yubindb.Block.Entry.{size_bytes, decode_entry-size_bytes}
use yubindb.Block.Build.{Pairs, Encoded, done, entry}

-- The entries from where the iterator stands on: `none` if there are more than fuel.
abbrev pub walk : ℕ → BlockIter → Option Pairs
walk zero it = none
walk (suc fuel) it =
    let rest = walk fuel (next it) in
    if valid it
    then elim rest [ none ↦ none | some es ↦ some ((it.key, value it) ∷ es) ]
    else some []

-- The loop changes no field but the restart index.
advance_restart_lem :
    (fuel : ℕ) (it : BlockIter)
    → (i : ℕ) × (advance_restart fuel it ≡ record it { restart_index = i })
unfolding advance_restart
advance_restart_lem zero it = (it.restart_index, refl)
advance_restart_lem (suc fuel) it =
    let (i, e) = advance_restart_lem fuel (record it { restart_index = it.restart_index + 1 }) in
    elim (Bool-cases (
      ltb (it.restart_index + 1) it.num_restarts
      && ltb (restart_point it (it.restart_index + 1)) it.current)) [
        | inl more ↦ (i, rw (more, e))
        | inr enough ↦ (it.restart_index, rw enough)
      ]

-- The iterator is behind `front`, with `bytes` of entries to come before the restarts.
pub record At (it : BlockIter) (last front bytes tail : List ℕ) : Type 0 where
  pub data_split : it.data_bytes ≡ front ++ (bytes ++ tail)
  pub limit : it.restarts ≡ length front + length bytes
  pub word : it.restarts < 2 ^ 32
  pub offset : next_entry_offset it ≡ length front
  pub key_last : it.key ≡ last

module _ (it : BlockIter) (last front bytes tail : List ℕ) (v : At it last front bytes tail) where
  entry_bytes :
      take (it.restarts - next_entry_offset it) (drop (next_entry_offset it) it.data_bytes) ≡ bytes
  entry_bytes =
      ap₂ (λ n t. take (it.restarts - n) (drop n t)) v.offset v.data_split
      ∙ ap (take (it.restarts - length front))
          (drop-append (length front) front (bytes ++ tail) refl)
      ∙ take-append (it.restarts - length front) bytes tail (omega (arith, v.limit))

-- At the end the iterator becomes invalid.
next_end :
    (it : BlockIter) (last front tail : List ℕ) → At it last front [] tail → valid (next it) ≡ false
unfolding next parse_next_key valid
next_end it last front tail v =
    let ended : next it ≡ record it { current = it.restarts; restart_index = it.num_restarts } =
      rw (le→leb it.restarts (next_entry_offset it) (omega (arith, v.limit, v.offset)), next) in
    ap valid ended ∙ le→not-ltb it.restarts it.restarts (omega arith)

regroup :
    (a s d v b t : List ℕ) → a ++ ((s ++ ((d ++ v) ++ b)) ++ t) ≡ (a ++ (s ++ d)) ++ (v ++ (b ++ t))
regroup a s d v b t = simp append_assoc refl

size_bytes-split : (s n v : ℕ) (rest : List ℕ) → size_bytes s n v rest ≡ size_bytes s n v [] ++ rest
size_bytes-split s n v rest = simp (append_assoc, append-nil) refl

-- An entry is read, and the iterator moves behind it.
record Moved (it : BlockIter) (key v front bytes tail : List ℕ) : Type 0 where
  at : At it key front bytes tail
  is_valid : valid it ≡ true
  reads : value it ≡ v

module _ (it : BlockIter) (last key v : List ℕ) (shared : ℕ) (bytes front tail : List ℕ)
    (in_last : shared ≤ length last) (in_key : shared ≤ length key)
    (agrees : take shared last ≡ take shared key) (hk : length key < 2 ^ 32)
    (hv : length v < 2 ^ 32) where
  abbrev behind : List ℕ
  behind = (drop shared key ++ v) ++ bytes

  abbrev sizes : List ℕ
  sizes = size_bytes shared (length key - shared) (length v) []

  abbrev all : List ℕ
  all = size_bytes shared (length key - shared) (length v) behind

  abbrev front' : List ℕ
  front' = (front ++ (sizes ++ drop shared key)) ++ v

  module _ (at : At it last front all tail) where
    length-all : length all ≡ length sizes + (length key - shared) + length v + length bytes
    length-all = omega (
      arith,
      ap length (size_bytes-split shared (length key - shared) (length v) behind),
      length-append sizes behind,
      length-append (drop shared key ++ v) bytes,
      length-append (drop shared key) v,
      length-drop shared key,
    )

    sized : Sizes
    sized = record {
      shared = shared;
      non_shared = length key - shared;
      value_length = length v;
      behind = behind;
    }

    length_behind : length behind ≡ (length key - shared) + length v + length bytes
    length_behind = omega (
      arith,
      length-append (drop shared key ++ v) bytes,
      length-append (drop shared key) v,
      length-drop shared key,
    )

    size_pos : 0 < length sizes
    size_pos = omega (
      arith,
      length-append (encode_varint32 shared)
          (encode_varint32 (length key - shared) ++ (encode_varint32 (length v) ++ [])),
      length-encode_varint32 shared (omega arith),
    )

    decoded :
        decode_entry
          (take (it.restarts - next_entry_offset it) (drop (next_entry_offset it) it.data_bytes))
        ≡ some (record {
          shared = shared;
          non_shared = length key - shared;
          value_length = length v;
          behind = behind;
        })
    decoded =
        ap decode_entry (entry_bytes it last front all tail at)
        ∙ decode_entry-size_bytes shared (length key - shared) (length v) (omega arith)
            (omega arith) hv behind (omega (arith, length_behind))
            (omega (arith, length_behind, length-all, at.limit, at.word))

    -- The fields that ParseNextKey sets.
    abbrev filled : BlockIter
    filled = record it {
      current = next_entry_offset it;
      key = take shared it.key ++ take (length key - shared) behind;
      value_at = it.restarts - length behind + (length key - shared);
      value_length = length v;
    }

    next_filled : (i : ℕ) × (next it ≡ record filled { restart_index = i })
    unfolding next parse_next_key take_entry
    next_filled =
        let (i, e) = advance_restart_lem it.num_restarts filled in
        let inside : leb it.restarts (next_entry_offset it) ≡ false =
          lt→not-leb it.restarts (next_entry_offset it)
            (omega (arith, at.offset, at.limit, length-all, size_pos)) in
        let shares : ltb (length it.key) shared ≡ false =
          le→not-ltb (length it.key) shared (omega (arith, ap length at.key_last)) in
        (i, rw (inside, decoded, shares, e, next))

    abbrev pre : List ℕ
    pre = front ++ (sizes ++ drop shared key)

    length-pre : length pre ≡ length front + length sizes + (length key - shared)
    length-pre = omega (
      arith,
      length-append front (sizes ++ drop shared key),
      length-append sizes (drop shared key),
      length-drop shared key,
    )

    pre_split : it.data_bytes ≡ pre ++ (v ++ (bytes ++ tail))
    pre_split =
        at.data_split
        ∙ ap (λ t. front ++ (t ++ tail))
            (size_bytes-split shared (length key - shared) (length v) behind)
        ∙ regroup front sizes (drop shared key) v bytes tail

    value_at : it.restarts - length behind + (length key - shared) ≡ length pre
    value_at = omega (arith, at.limit, length-all, length_behind, length-pre)

    key_read : take shared it.key ++ take (length key - shared) behind ≡ key
    key_read =
        ap (λ t. take shared t ++ take (length key - shared) behind) at.key_last
        ∙ ap₂ (λ a b. a ++ b) agrees
            (ap (take (length key - shared)) (append_assoc (drop shared key) v bytes)
              ∙ take-append (length key - shared) (drop shared key) (v ++ bytes)
                  (omega (arith, length-drop shared key)))
        ∙ take-append-drop shared key

    value_read :
        take (length v) (drop (it.restarts - length behind + (length key - shared)) it.data_bytes)
        ≡ v
    value_read =
        ap₂ (λ n t. take (length v) (drop n t)) value_at pre_split
        ∙ ap (take (length v)) (drop-append (length pre) pre (v ++ (bytes ++ tail)) refl)
        ∙ take-append (length v) v (bytes ++ tail) refl

    front_length : length front' ≡ length pre + length v
    front_length = length-append pre v

    filled-Moved : (i : ℕ) → Moved (record filled { restart_index = i }) key v front' bytes tail
    unfolding valid value next_entry_offset
    filled-Moved i = record {
      at = record {
        data_split = pre_split ∙ sym (append_assoc pre v (bytes ++ tail));
        limit = omega (arith, at.limit, front_length, length-pre, length-all);
        word = at.word;
        offset = omega (arith, value_at, front_length, at.limit, length-pre, length-all, at.word);
        key_last = key_read;
      };
      is_valid =
          lt→ltb (next_entry_offset it) it.restarts
            (omega (arith, at.offset, at.limit, length-all, size_pos));
      reads = value_read;
    }

    next_entry : (it' : BlockIter) × (next it ≡ it') × Moved it' key v front' bytes tail
    next_entry =
        let (i, e) = next_filled in (record filled { restart_index = i }, e, filled-Moved i)

-- The entries that are left are walked through in order.
pub walk-Encoded :
    {last : List ℕ} {es : Pairs} {bytes : List ℕ}
    → Encoded last es bytes
    → (it : BlockIter) (front tail : List ℕ) → At it last front bytes tail
    → walk (suc (length es)) (next it) ≡ some es
walk-Encoded (done last) it front tail v = rw (next_end it last front tail v, walk)
walk-Encoded (entry last key v shared es bytes in_last in_key agrees hk hv later) it front tail
      here =
    let (it', e, m) =
      next_entry it last key v shared bytes front tail in_last in_key agrees hk hv here in
    let rest =
      walk-Encoded later it'
        (front' it last key v shared bytes front tail in_last in_key agrees hk hv) tail m.at in
    ap (walk (suc (suc (length es)))) e ∙ rw (m.is_valid, rest, walk, m.at.key_last, m.reads)
