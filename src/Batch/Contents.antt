-- ===== src/Batch/Contents.antt =====
-- What a batch holds: Clear, Put, Delete and SetSequence against a list of updates.
use yubindb.Prelude.{
  ℕ, suc, ◌+◌, ◌%◌, ◌^◌, ◌≤◌, ◌<◌, ◌≡◌, refl, ap, sym, subst, ◌∙◌, List, [], ◌∷◌, ◌++◌, length,
  length-append, length-take, length-drop, take-append_in, drop-append_in, take, drop, take-append,
  drop-append, append_assoc, append-nil, All, All-append, arith,
}
use yubindb.Coding.{
  encode_fixed32, decode_fixed32, decode_fixed64, from_little_endian, put_varint32,
  put_length_prefixed,
}
use yubindb.Coding.Fixed.{decode_fixed32-encode_fixed32, length-encode_fixed32}
use yubindb.Batch.{head_size, WriteBatch, clear, count, set_count, sequence, put, delete}

pub data Update : Type 0 where
  putting : List ℕ → List ℕ → Update
  deleting : List ℕ → Update

-- The bytes of an entry.
abbrev pub entry : Update → List ℕ
entry (putting key v) = 1 ∷ (put_length_prefixed [] key ++ put_length_prefixed [] v)
entry (deleting key) = 0 ∷ put_length_prefixed [] key

abbrev pub entries : List Update → List ℕ
entries [] = []
entries (u ∷ us) = entry u ++ entries us

-- Strings have a length that fits uint32_t.
abbrev pub Fits : Update → Type 0
Fits (putting key v) = (length key < 2 ^ 32) × (length v < 2 ^ 32)
Fits (deleting key) = length key < 2 ^ 32

-- The batch holds the updates, counts them, and has the sequence number `seq`.
pub record IsBatch (b : WriteBatch) (seq : ℕ) (us : List Update) : Type 0 where
  pub body : drop head_size b.mate ≡ entries us
  pub room : head_size ≤ length b.mate
  pub counted : count b ≡ length us
  pub few : length us < 2 ^ 32
  pub numbered : sequence b ≡ seq
  pub fits : All Fits us

entries-append : (us vs : List Update) → entries (us ++ vs) ≡ entries us ++ entries vs
entries-append [] vs = refl
entries-append (u ∷ us) vs =
    ap (λ t. entry u ++ t) (entries-append us vs)
    ∙ sym (append_assoc (entry u) (entries us) (entries vs))

put_length_prefixed-dst :
    (dst v : List ℕ) → put_length_prefixed dst v ≡ dst ++ put_length_prefixed [] v
unfolding put_length_prefixed put_varint32
put_length_prefixed-dst dst v = append_assoc dst _ v

-- A new batch is empty.
pub clear-IsBatch : (b : WriteBatch) → IsBatch (clear b) 0 []
unfolding clear count sequence decode_fixed32 decode_fixed64
clear-IsBatch b = record {
  body = refl;
  room = omega arith;
  counted = refl;
  few = omega arith;
  numbered = refl;
  fits = tt;
}

module _ (b : WriteBatch) (room : head_size ≤ length b.mate) (n : ℕ) where
  abbrev head : List ℕ
  head = take 8 b.mate

  head-length : length head ≡ 8
  head-length = omega (arith, length-take 8 b.mate)

  abbrev number : List ℕ
  number = encode_fixed32 (n % 2 ^ 32)

  pub body-set_count : drop head_size (set_count b n).mate ≡ drop head_size b.mate
  unfolding set_count
  body-set_count =
      ap (drop head_size) (sym (append_assoc head number (drop head_size b.mate)))
      ∙ drop-append head_size (head ++ number) (drop head_size b.mate) (
          omega (arith, head-length, length-append head number, length-encode_fixed32 (n % 2 ^ 32)))

  room-set_count : head_size ≤ length (set_count b n).mate
  unfolding set_count
  room-set_count = omega (
    arith,
    head-length,
    length-append head (number ++ drop head_size b.mate),
    length-append number (drop head_size b.mate),
    length-encode_fixed32 (n % 2 ^ 32),
  )

  pub count-set_count : count (set_count b n) ≡ n % 2 ^ 32
  unfolding set_count count
  count-set_count =
      ap decode_fixed32 (drop-append 8 head (number ++ drop head_size b.mate) (sym head-length))
      ∙ decode_fixed32-encode_fixed32 (n % 2 ^ 32) (drop head_size b.mate) (omega arith)

  pub sequence-set_count : sequence (set_count b n) ≡ sequence b
  unfolding set_count sequence decode_fixed64
  sequence-set_count =
      ap from_little_endian (take-append 8 head (number ++ drop head_size b.mate) (sym head-length))

-- Bytes that are added behind the header change no field of it.
abbrev pub longer : WriteBatch → List ℕ → WriteBatch
longer b more = record b { mate = b.mate ++ more }

module _ (b : WriteBatch) (room : head_size ≤ length b.mate) (more : List ℕ) where
  body-longer : drop head_size (longer b more).mate ≡ drop head_size b.mate ++ more
  body-longer = drop-append_in head_size b.mate more room

  count-longer : count (longer b more) ≡ count b
  unfolding count decode_fixed32
  count-longer =
      ap (λ t. from_little_endian (take 4 t)) (drop-append_in 8 b.mate more (omega arith))
      ∙ ap from_little_endian
          (take-append_in 4 (drop 8 b.mate) more (omega (arith, length-drop 8 b.mate)))

  sequence-longer : sequence (longer b more) ≡ sequence b
  unfolding sequence decode_fixed64
  sequence-longer = ap from_little_endian (take-append_in 8 b.mate more (omega arith))

-- An entry that is counted and added.
added-IsBatch :
    (b : WriteBatch) (seq : ℕ) (us : List Update) (u : Update)
    → IsBatch b seq us
    → suc (length us) < 2 ^ 32
    → Fits u
    → IsBatch (longer (set_count b (count b + 1)) (entry u)) seq (us ++ u ∷ [])
added-IsBatch b seq us u v few fit =
    let n = count b + 1 in
    let c = set_count b n in
    let room = room-set_count b v.room n in
    record {
      body =
          body-longer c room (entry u)
          ∙ ap (λ t. t ++ entry u) (body-set_count b v.room n ∙ v.body)
          ∙ ap (λ t. entries us ++ t) (sym (append-nil (entry u)))
          ∙ sym (entries-append us (u ∷ []));
      room = omega (arith, room, length-append c.mate (entry u));
      counted =
          count-longer c room (entry u)
          ∙ count-set_count b v.room n
          ∙ omega (arith, v.counted, length-append us (u ∷ []));
      few = omega (arith, length-append us (u ∷ []));
      numbered = sequence-longer c room (entry u) ∙ sequence-set_count b v.room n ∙ v.numbered;
      fits = All-append Fits us (u ∷ []) v.fits (fit, tt);
    }

-- Put adds one entry to the batch and counts it.
pub put-IsBatch :
    (b : WriteBatch) (seq : ℕ) (us : List Update) (key v : List ℕ)
    → IsBatch b seq us
    → suc (length us) < 2 ^ 32
    → length key < 2 ^ 32
    → length v < 2 ^ 32
    → IsBatch (put b key v) seq (us ++ putting key v ∷ [])
unfolding put
put-IsBatch b seq us key v batch few hk hv =
    let c = set_count b (count b + 1) in
    let same : put_length_prefixed (put_length_prefixed (c.mate ++ 1 ∷ []) key) v
        ≡ c.mate ++ entry (putting key v) =
      put_length_prefixed-dst _ v
      ∙ ap (λ t. t ++ put_length_prefixed [] v) (put_length_prefixed-dst (c.mate ++ 1 ∷ []) key)
      ∙ rw (append_assoc (c.mate ++ 1 ∷ []) (put_length_prefixed [] key) (put_length_prefixed [] v))
          (append_assoc c.mate (1 ∷ []) (put_length_prefixed [] key ++ put_length_prefixed [] v)) in
    subst (λ t. IsBatch (record c { mate = t }) seq (us ++ putting key v ∷ [])) (sym same)
      (added-IsBatch b seq us (putting key v) batch few (hk, hv))

pub delete-IsBatch :
    (b : WriteBatch) (seq : ℕ) (us : List Update) (key : List ℕ)
    → IsBatch b seq us
    → suc (length us) < 2 ^ 32
    → length key < 2 ^ 32
    → IsBatch (delete b key) seq (us ++ deleting key ∷ [])
unfolding delete
delete-IsBatch b seq us key batch few hk =
    let c = set_count b (count b + 1) in
    let same : put_length_prefixed (c.mate ++ 0 ∷ []) key ≡ c.mate ++ entry (deleting key) =
      put_length_prefixed-dst (c.mate ++ 0 ∷ []) key
      ∙ append_assoc c.mate (0 ∷ []) (put_length_prefixed [] key) in
    subst (λ t. IsBatch (record c { mate = t }) seq (us ++ deleting key ∷ [])) (sym same)
      (added-IsBatch b seq us (deleting key) batch few hk)
