-- ===== src/Filter/Match.antt =====
-- What the reader of a filter block finds.
use yubindb.Prelude.{
  ℕ, suc, ◌+◌, ◌-◌, ◌*◌, ◌/◌, ◌%◌, ◌^◌, ◌≤◌, ◌<◌, ◌≡◌, refl, sym, ap, ap₂, ◌∙◌, true, false, List,
  [], ◌∷◌, ◌++◌, ltb, leb, length, get_or, take, drop, length-append, append_assoc, append-nil,
  take-append, drop-append, arith, lt→ltb, le→leb, le→not-ltb,
}
use native.Mathlib.Nat.{mod-eq_of_lt}
use yubindb.Coding.{
  put_fixed32, encode_fixed32, decode_fixed32, decode_fixed64, little_endian, from_little_endian,
}
use yubindb.Coding.Fixed.{
  decode_fixed32-encode_fixed32, length-encode_fixed32, from_little_endian-little_endian,
}
use yubindb.Bloom.{BloomFilter, key_may_match}
use yubindb.Filter.{
  put_offsets, finish_filters, FilterReader, new_filter_reader, offset_at, filter_may_match,
}
use yubindb.Filter.Layout.{filter_of, filters, offsets, builder_of, filters-append}

-- The bytes of some words.
abbrev words : List ℕ → List ℕ
words [] = []
words (o ∷ os) = encode_fixed32 o ++ words os

put_offsets-words : (dst os : List ℕ) → put_offsets dst os ≡ dst ++ words os
unfolding put_offsets put_fixed32
put_offsets-words dst [] = sym (append-nil dst)
put_offsets-words dst (o ∷ os) =
    put_offsets-words (dst ++ encode_fixed32 o) os ∙ append_assoc dst (encode_fixed32 o) (words os)

length-words : (os : List ℕ) → length (words os) ≡ 4 * length os
length-words [] = omega arith
length-words (o ∷ os) =
    omega
      (arith, length-append (encode_fixed32 o) (words os), length-encode_fixed32 o, length-words os)

words-append : (os ps : List ℕ) → words (os ++ ps) ≡ words os ++ words ps
words-append [] ps = refl
words-append (o ∷ os) ps =
    ap (λ t. encode_fixed32 o ++ t) (words-append os ps)
    ∙ sym (append_assoc (encode_fixed32 o) (words os) (words ps))

-- A word is read back by a read of eight bytes that is cut to 32 bits.
low_word :
    (v : ℕ) (rest : List ℕ) → v < 2 ^ 32 → decode_fixed64 (encode_fixed32 v ++ rest) % 2 ^ 32 ≡ v
unfolding decode_fixed64 encode_fixed32 little_endian from_little_endian
low_word v rest h = omega (arith, from_little_endian-little_endian 4 v h)

get_or-end : (xs : List ℕ) (x : ℕ) → get_or (xs ++ x ∷ []) (length xs) 0 ≡ x
get_or-end [] x = refl
get_or-end (y ∷ xs) x = get_or-end xs x

new_filter_reader_lem :
    (c : List ℕ) (place count : ℕ)
    → length c ≡ place + (4 * (count + 1) + 1)
    → decode_fixed32 (drop (place + 4 * count) c) ≡ place
    → get_or c (place + 4 * (count + 1)) 0 ≡ 11
    → new_filter_reader c ≡ record { contents = c; offset = place; num = count; base_lg = 11 }
unfolding new_filter_reader
new_filter_reader_lem c place count size offset base =
    let n5 : length c - 5 ≡ place + 4 * count = omega arith in
    let n1 : length c - 1 ≡ place + 4 * (count + 1) = omega arith in
    let long : ltb (length c) 5 ≡ false = le→not-ltb (length c) 5 (omega arith) in
    let inside : ltb (place + 4 * count) place ≡ false =
      le→not-ltb (place + 4 * count) place (omega arith) in
    let quarter : (place + 4 * count - place) / 4 ≡ count = omega arith in
    rw (long, n5, n1, offset, base, inside, quarter)

module _ (hash : List ℕ → ℕ) (bloom : BloomFilter) where
  abbrev places : ℕ → List (List (List ℕ)) → List ℕ
  places from gs =
      offsets hash bloom from gs ++ ((from + length (filters hash bloom gs)) % 2 ^ 32) ∷ []

  pub length-offsets :
      (from : ℕ) (gs : List (List (List ℕ))) → length (offsets hash bloom from gs) ≡ length gs
  length-offsets from [] = refl
  length-offsets from (g ∷ gs) = ap suc (length-offsets (from + length (filter_of hash bloom g)) gs)

  abbrev places_behind : ℕ → List (List (List ℕ)) → List ℕ
  places_behind from [] = []
  places_behind from (g ∷ gs) = places (from + length (filter_of hash bloom g)) gs

  places-head :
      (from : ℕ) (gs : List (List (List ℕ)))
      → places from gs ≡ from % 2 ^ 32 ∷ places_behind from gs
  places-head from [] = ap (λ n. n % 2 ^ 32 ∷ []) (omega arith)
  places-head from (g ∷ gs) =
      ap
        (λ n.
          from % 2 ^ 32
          ∷ (offsets hash bloom (from + length (filter_of hash bloom g)) gs ++ n % 2 ^ 32 ∷ []))
        (omega (arith, length-append (filter_of hash bloom g) (filters hash bloom gs)))

  places-append :
      (from : ℕ) (pre gs : List (List (List ℕ)))
      → places from (pre ++ gs)
        ≡ offsets hash bloom from pre ++ places (from + length (filters hash bloom pre)) gs
  places-append from [] gs = ap (λ n. places n gs) (omega arith)
  places-append from (p ∷ pre) gs =
      ap
        (λ n.
          from % 2 ^ 32
          ∷ (offsets hash bloom (from + length (filter_of hash bloom p)) (pre ++ gs)
              ++ n % 2 ^ 32 ∷ []))
        (omega (arith, length-append (filter_of hash bloom p) (filters hash bloom (pre ++ gs))))
      ∙ ap (λ t. from % 2 ^ 32 ∷ t)
          (places-append (from + length (filter_of hash bloom p)) pre gs
            ∙ ap
                (λ n.
                  offsets hash bloom (from + length (filter_of hash bloom p)) pre ++ places n gs)
                (omega (arith, length-append (filter_of hash bloom p) (filters hash bloom pre))))

  -- The filter block of some groups: their filters, the places where they begin and end, and 11.
  abbrev pub block_bytes : List (List (List ℕ)) → List ℕ
  block_bytes gs = filters hash bloom gs ++ (words (places 0 gs) ++ 11 ∷ [])

  pub finish_filters-bytes :
      (done : List (List (List ℕ)))
      → (finish_filters hash bloom (builder_of hash bloom done [])).0 ≡ block_bytes done
  unfolding finish_filters put_fixed32
  finish_filters-bytes done =
      let os = offsets hash bloom 0 done in
      let fs = filters hash bloom done in
      let n = encode_fixed32 (length fs % 2 ^ 32) in
      let last : words (places 0 done) ≡ words os ++ n =
        words-append os (((0 + length fs) % 2 ^ 32) ∷ [])
        ∙ ap (λ t. words os ++ t) (append-nil (encode_fixed32 ((0 + length fs) % 2 ^ 32)))
        ∙ ap (λ k. words os ++ encode_fixed32 (k % 2 ^ 32)) (omega arith) in
      ap (λ t. (t ++ n) ++ 11 ∷ []) (put_offsets-words fs os)
      ∙ ap (λ t. t ++ 11 ∷ []) (append_assoc fs (words os) n)
      ∙ append_assoc fs (words os ++ n) (11 ∷ [])
      ∙ ap (λ t. fs ++ (t ++ 11 ∷ [])) (sym last)

  -- What the reader makes of the block.
  abbrev pub reader_of : List (List (List ℕ)) → FilterReader
  reader_of gs = record {
    contents = block_bytes gs;
    offset = length (filters hash bloom gs);
    num = length gs;
    base_lg = 11;
  }

  length-block_bytes :
      (gs : List (List (List ℕ)))
      → length (block_bytes gs) ≡ length (filters hash bloom gs) + (4 * (length gs + 1) + 1)
  length-block_bytes gs = omega (
    arith,
    length-append (filters hash bloom gs) (words (places 0 gs) ++ 11 ∷ []),
    length-append (words (places 0 gs)) (11 ∷ []),
    length-words (places 0 gs),
    length-append (offsets hash bloom 0 gs) (((0 + length (filters hash bloom gs)) % 2 ^ 32) ∷ []),
    length-offsets 0 gs,
  )

  pub new_filter_reader-block_bytes :
      (gs : List (List (List ℕ)))
      → length (filters hash bloom gs) < 2 ^ 32
      → new_filter_reader (block_bytes gs) ≡ reader_of gs
  new_filter_reader-block_bytes gs small =
      let fs = filters hash bloom gs in
      let os = offsets hash bloom 0 gs in
      let n = encode_fixed32 ((0 + length fs) % 2 ^ 32) in
      let last : words (places 0 gs) ≡ words os ++ n =
        words-append os (((0 + length fs) % 2 ^ 32) ∷ [])
        ∙ ap (λ t. words os ++ t) (append-nil n) in
      let split : block_bytes gs ≡ (fs ++ words os) ++ (n ++ 11 ∷ []) =
        ap (λ t. fs ++ (t ++ 11 ∷ [])) last
        ∙ ap (λ t. fs ++ t) (append_assoc (words os) n (11 ∷ []))
        ∙ sym (append_assoc fs (words os) (n ++ 11 ∷ [])) in
      let front : length fs + 4 * length gs ≡ length (fs ++ words os) =
        omega (arith, length-append fs (words os), length-words os, length-offsets 0 gs) in
      let whole : block_bytes gs ≡ (fs ++ words (places 0 gs)) ++ 11 ∷ [] =
        sym (append_assoc fs (words (places 0 gs)) (11 ∷ [])) in
      let before : length fs + 4 * (length gs + 1) ≡ length (fs ++ words (places 0 gs)) = omega (
        arith,
        length-append fs (words (places 0 gs)),
        length-words (places 0 gs),
        length-append os (((0 + length fs) % 2 ^ 32) ∷ []),
        length-offsets 0 gs,
      ) in
      let word : (0 + length fs) % 2 ^ 32 ≡ length fs = mod-eq_of_lt (omega arith) ∙ omega arith in
      new_filter_reader_lem (block_bytes gs) (length fs) (length gs) (length-block_bytes gs)
        (ap decode_fixed32 (
            ap (drop (length fs + 4 * length gs)) split
            ∙ drop-append (length fs + 4 * length gs) (fs ++ words os) (n ++ 11 ∷ []) front)
          ∙ decode_fixed32-encode_fixed32 ((0 + length fs) % 2 ^ 32) (11 ∷ []) (omega arith)
          ∙ word)
        (ap₂ (λ t i. get_or t i 0) whole before ∙ get_or-end (fs ++ words (places 0 gs)) 11)

  -- The place that stands at some index.
  place_at :
      (r : FilterReader) (front os ws : List ℕ) (v i : ℕ)
      → r.contents ≡ front ++ (words (os ++ v ∷ ws) ++ 11 ∷ [])
      → r.offset ≡ length front
      → i ≡ length os
      → v < 2 ^ 32
      → offset_at r i ≡ v
  unfolding offset_at
  place_at r front os ws v i c o at small =
      let tail = encode_fixed32 v ++ (words ws ++ 11 ∷ []) in
      let split : r.contents ≡ (front ++ words os) ++ tail =
        c
        ∙ ap (λ t. front ++ (t ++ 11 ∷ [])) (words-append os (v ∷ ws))
        ∙ ap (λ t. front ++ t)
            (append_assoc (words os) (words (v ∷ ws)) (11 ∷ [])
              ∙ ap (λ t. words os ++ t) (append_assoc (encode_fixed32 v) (words ws) (11 ∷ [])))
        ∙ sym (append_assoc front (words os) tail) in
      let here : r.offset + i * 4 ≡ length (front ++ words os) =
        omega (arith, o, at, length-append front (words os), length-words os) in
      ap (λ t. decode_fixed64 t % 2 ^ 32)
        (ap₂ drop here split
          ∙ drop-append (length (front ++ words os)) (front ++ words os) tail refl)
      ∙ low_word v (words ws ++ 11 ∷ []) small

  filter_may_match_lem :
      (r : FilterReader) (block_offset i n : ℕ) (key front filt back : List ℕ)
      → block_offset / 2 ^ r.base_lg ≡ i
      → i < r.num
      → offset_at r i ≡ length front
      → offset_at r (i + 1) ≡ length front + n
      → length front + n ≤ r.offset
      → r.contents ≡ front ++ (filt ++ back)
      → n ≡ length filt
      → filter_may_match hash block_offset key r ≡ key_may_match hash key filt
  unfolding filter_may_match
  filter_may_match_lem r block_offset i n key front filt back index inside first second fits c
        size =
      let order : leb (length front) (length front + n) ≡ true =
        le→leb (length front) (length front + n) (omega arith) in
      let limit : leb (length front + n) r.offset ≡ true =
        le→leb (length front + n) r.offset fits in
      let room : ltb i r.num ≡ true = lt→ltb i r.num inside in
      let width : length front + n - length front ≡ n = omega arith in
      let cut : take n (drop (length front) r.contents) ≡ filt =
        ap (λ t. take n (drop (length front) t)) c
        ∙ ap (take n) (drop-append (length front) front (filt ++ back) refl)
        ∙ take-append n filt back size in
      rw (index, room, first, second, order, limit, width, cut) refl

  -- A filter block whose filters fit 32 bits finds at a block's offset the filter of its group.
  pub filter_may_match-group :
      (pre post : List (List (List ℕ))) (g : List (List ℕ)) (block_offset : ℕ) (key : List ℕ)
      → block_offset / 2 ^ 11 ≡ length pre
      → length (filters hash bloom (pre ++ g ∷ post)) < 2 ^ 32
      → filter_may_match hash block_offset key (reader_of (pre ++ g ∷ post))
        ≡ key_may_match hash key (filter_of hash bloom g)
  unfolding filter_may_match
  filter_may_match-group pre post g block_offset key index small =
      let gs = pre ++ g ∷ post in
      let r = reader_of gs in
      let x = length (filters hash bloom pre) in
      let y = x + length (filter_of hash bloom g) in
      let rest = filters hash bloom post in
      let bytes : filters hash bloom gs
          ≡ filters hash bloom pre ++ (filter_of hash bloom g ++ rest) =
        filters-append hash bloom pre (g ∷ post) in
      let total : length (filters hash bloom gs) ≡ y + length rest =
        ap length bytes
        ∙ length-append (filters hash bloom pre) (filter_of hash bloom g ++ rest)
        ∙ omega (arith, length-append (filter_of hash bloom g) rest) in
      let os = offsets hash bloom 0 pre in
      let places_gs : places 0 gs ≡ os ++ (x % 2 ^ 32 ∷ y % 2 ^ 32 ∷ places_behind y post) =
        places-append 0 pre (g ∷ post)
        ∙ ap (λ n. os ++ places n (g ∷ post)) (omega arith)
        ∙ ap (λ t. os ++ t)
            (places-head x (g ∷ post) ∙ ap (λ t. x % 2 ^ 32 ∷ t) (places-head y post)) in
      let contents : r.contents
          ≡ filters hash bloom gs
            ++ (words (os ++ (x % 2 ^ 32 ∷ y % 2 ^ 32 ∷ places_behind y post)) ++ 11 ∷ []) =
        ap (λ t. filters hash bloom gs ++ (words t ++ 11 ∷ [])) places_gs in
      let first : offset_at r (length pre) ≡ x % 2 ^ 32 =
        place_at r (filters hash bloom gs) os (y % 2 ^ 32 ∷ places_behind y post) (x % 2 ^ 32)
          (length pre) contents refl (sym (length-offsets 0 pre)) (omega arith) in
      let second : offset_at r (length pre + 1) ≡ y % 2 ^ 32 =
        place_at r (filters hash bloom gs) (os ++ x % 2 ^ 32 ∷ []) (places_behind y post)
          (y % 2 ^ 32) (length pre + 1)
          (contents
            ∙ ap (λ t. filters hash bloom gs ++ (words t ++ 11 ∷ []))
                (sym (append_assoc os (x % 2 ^ 32 ∷ []) (y % 2 ^ 32 ∷ places_behind y post))))
          refl (omega (arith, length-append os (x % 2 ^ 32 ∷ []), length-offsets 0 pre))
          (omega arith) in
      let x_word : x % 2 ^ 32 ≡ x = mod-eq_of_lt (omega (arith, total, small)) in
      let y_word : y % 2 ^ 32 ≡ y = mod-eq_of_lt (omega (arith, total, small)) in
      let back = rest ++ (words (places 0 gs) ++ 11 ∷ []) in
      let whole : r.contents ≡ filters hash bloom pre ++ (filter_of hash bloom g ++ back) =
        ap (λ t. t ++ (words (places 0 gs) ++ 11 ∷ [])) bytes
        ∙ append_assoc (filters hash bloom pre) (filter_of hash bloom g ++ rest)
            (words (places 0 gs) ++ 11 ∷ [])
        ∙ ap (λ t. filters hash bloom pre ++ t)
            (append_assoc (filter_of hash bloom g) rest (words (places 0 gs) ++ 11 ∷ [])) in
      filter_may_match_lem r block_offset (length pre) (length (filter_of hash bloom g)) key
        (filters hash bloom pre) (filter_of hash bloom g) back index
        (omega (arith, length-append pre (g ∷ post))) (first ∙ x_word) (second ∙ y_word)
        (omega (arith, total)) whole refl
