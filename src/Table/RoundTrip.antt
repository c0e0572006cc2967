-- ===== src/Table/RoundTrip.antt =====
-- A footer is read back; no block is.
use yubindb.Prelude.{
  ℕ, ◌+◌, ◌-◌, ◌*◌, ◌/◌, ◌%◌, ◌^◌, ◌≤◌, ◌≡◌, ◌≢◌, refl, sym, ap, ◌∙◌, ◌⊎◌, inl, inr, true, false,
  some, List, [], ◌++◌, ◌==◌, if◌then◌else◌, length, take, drop, replicate, length-append,
  append_assoc, take_all, length-replicate, drop-append, arith, Bool-cases, Option-cases, get_or,
}
use yubindb.State.{State, corruption, is_ok}
use yubindb.Coding.{
  put_varint64, get_varint64, encode_varint64, put_fixed32, encode_fixed32, decode_fixed32, IsU64,
}
use yubindb.Coding.Varint.{get_varint64-put_varint64, length-encode_varint64}
use yubindb.Coding.Fixed.{decode_fixed32-encode_fixed32, length-encode_fixed32}
use yubindb.Crc.{Crc}
use yubindb.Table.{
  BlockHandle, put_handle, take_size, take_offset, take_handle, Footer, magic_number, resize,
  put_footer, take_end, take_index, take_footer, returned, Snappy, read_compressed, read_block,
}

-- A handle of two words.
abbrev pub IsHandle : BlockHandle → Type 0
IsHandle h = IsU64 h.offset × IsU64 h.size

-- The bytes of a handle.
abbrev handle_bytes : BlockHandle → List ℕ
handle_bytes h = encode_varint64 h.offset ++ encode_varint64 h.size

put_handle-bytes : (dst : List ℕ) (h : BlockHandle) → put_handle dst h ≡ dst ++ handle_bytes h
unfolding put_handle put_varint64
put_handle-bytes dst h = append_assoc dst (encode_varint64 h.offset) (encode_varint64 h.size)

length-handle_bytes : (h : BlockHandle) → length (handle_bytes h) ≤ 20
length-handle_bytes h = omega (
  arith,
  length-append (encode_varint64 h.offset) (encode_varint64 h.size),
  (length-encode_varint64 h.offset).1,
  (length-encode_varint64 h.size).1,
)

take_handle_lem :
    (input p q : List ℕ) (o n : ℕ) (old : BlockHandle)
    → get_varint64 input ≡ (some o, p)
    → get_varint64 p ≡ (some n, q)
    → take_handle input old ≡ (State.ok, record { offset = o; size = n }, q)
unfolding take_handle take_offset take_size
take_handle_lem input p q o n old first second =
    ap (take_offset old) first ∙ ap (take_size o old) second

take_handle-bytes :
    (h old : BlockHandle) (rest : List ℕ)
    → IsHandle h
    → take_handle (handle_bytes h ++ rest) old ≡ (State.ok, h, rest)
unfolding put_varint64
take_handle-bytes h old rest words =
    ap (λ t. take_handle t old)
      (append_assoc (encode_varint64 h.offset) (encode_varint64 h.size) rest)
    ∙ take_handle_lem _ (encode_varint64 h.size ++ rest) rest h.offset h.size old
        (get_varint64-put_varint64 h.offset (encode_varint64 h.size ++ rest) words.0)
        (get_varint64-put_varint64 h.size rest words.1)

-- The bytes of a footer: the handles, filled up with zeros, and the magic number.
abbrev zeros_of : Footer → List ℕ
zeros_of f =
    replicate (40 - length (handle_bytes f.metaindex_handle ++ handle_bytes f.index_handle)) 0

abbrev magic_bytes : List ℕ
magic_bytes = encode_fixed32 (magic_number % 2 ^ 32) ++ encode_fixed32 (magic_number / 2 ^ 32)

put_footer-bytes :
    (f : Footer)
    → put_footer [] f
      ≡ ((handle_bytes f.metaindex_handle ++ handle_bytes f.index_handle) ++ zeros_of f)
        ++ magic_bytes
unfolding put_footer resize put_fixed32
put_footer-bytes f =
    let both = handle_bytes f.metaindex_handle ++ handle_bytes f.index_handle in
    let put : put_handle (put_handle [] f.metaindex_handle) f.index_handle ≡ both =
      put_handle-bytes (put_handle [] f.metaindex_handle) f.index_handle
      ∙ ap (λ t. t ++ handle_bytes f.index_handle) (put_handle-bytes [] f.metaindex_handle) in
    let small : length both ≤ 40 = omega (
      arith,
      length-append (handle_bytes f.metaindex_handle) (handle_bytes f.index_handle),
      length-handle_bytes f.metaindex_handle,
      length-handle_bytes f.index_handle,
    ) in
    rw (put, take_all 40 both small)
      (append_assoc (both ++ zeros_of f) (encode_fixed32 (magic_number % 2 ^ 32))
        (encode_fixed32 (magic_number / 2 ^ 32)))

-- The length of the handles with their zeros.
length-filled :
    (f : Footer)
    → length ((handle_bytes f.metaindex_handle ++ handle_bytes f.index_handle) ++ zeros_of f) ≡ 40
length-filled f =
    let both = handle_bytes f.metaindex_handle ++ handle_bytes f.index_handle in
    omega (
      arith,
      length-append both (zeros_of f),
      length-replicate {A = ℕ} (40 - length both) 0,
      length-append (handle_bytes f.metaindex_handle) (handle_bytes f.index_handle),
      length-handle_bytes f.metaindex_handle,
      length-handle_bytes f.index_handle,
    )

-- The magic number is read back in its halves.
magic_lem :
    (input rest : List ℕ)
    → drop 40 input
      ≡ encode_fixed32 (magic_number % 2 ^ 32) ++ (encode_fixed32 (magic_number / 2 ^ 32) ++ rest)
    → drop 44 input ≡ encode_fixed32 (magic_number / 2 ^ 32) ++ rest
    → (decode_fixed32 (drop 44 input) * 2 ^ 32 + decode_fixed32 (drop 40 input) == magic_number)
      ≡ true
magic_lem input rest low high =
    let l : decode_fixed32 (drop 40 input) ≡ magic_number % 2 ^ 32 =
      ap decode_fixed32 low
      ∙ decode_fixed32-encode_fixed32 (magic_number % 2 ^ 32)
          (encode_fixed32 (magic_number / 2 ^ 32) ++ rest) (omega arith) in
    let h : decode_fixed32 (drop 44 input) ≡ magic_number / 2 ^ 32 =
      ap decode_fixed32 high
      ∙ decode_fixed32-encode_fixed32 (magic_number / 2 ^ 32) rest (omega arith) in
    rw (l, h) refl

drop-filled :
    (front low high rest : List ℕ)
    → length front ≡ 40
    → length low ≡ 4
    → length high ≡ 4
    → (drop 40 (front ++ (low ++ (high ++ rest))) ≡ low ++ (high ++ rest))
      × (drop 44 (front ++ (low ++ (high ++ rest))) ≡ high ++ rest)
      × (drop 48 (front ++ (low ++ (high ++ rest))) ≡ rest)
drop-filled front low high rest f l h = (
  drop-append 40 front (low ++ (high ++ rest)) (sym f),
  ap (drop 44) (sym (append_assoc front low (high ++ rest)))
      ∙ drop-append 44 (front ++ low) (high ++ rest) (omega (arith, f, l, length-append front low)),
  ap (drop 48)
        (sym (append_assoc front low (high ++ rest)) ∙ sym (append_assoc (front ++ low) high rest))
      ∙ drop-append 48 ((front ++ low) ++ high) rest
          (omega (arith, f, l, h, length-append front low, length-append (front ++ low) high)),
)

-- DecodeFrom of a footer that EncodeTo wrote gives the footer back and takes its 48 bytes.
pub take_footer-put_footer :
    (f old : Footer) (rest : List ℕ)
    → IsHandle f.metaindex_handle
    → IsHandle f.index_handle
    → take_footer (put_footer [] f ++ rest) old ≡ (State.ok, f, rest)
unfolding take_footer take_index take_end is_ok
take_footer-put_footer f old rest meta index =
    let a = handle_bytes f.metaindex_handle in
    let b = handle_bytes f.index_handle in
    let low = encode_fixed32 (magic_number % 2 ^ 32) in
    let high = encode_fixed32 (magic_number / 2 ^ 32) in
    let front = (a ++ b) ++ zeros_of f in
    let input = front ++ (low ++ (high ++ rest)) in
    let bytes : put_footer [] f ++ rest ≡ input =
      ap (λ t. t ++ rest) (put_footer-bytes f)
      ∙ append_assoc front (low ++ high) rest
      ∙ ap (λ t. front ++ t) (append_assoc low high rest) in
    let (d40, d44, d48) =
      drop-filled front low high rest (length-filled f)
        (length-encode_fixed32 (magic_number % 2 ^ 32))
        (length-encode_fixed32 (magic_number / 2 ^ 32)) in
    let tail = b ++ (zeros_of f ++ (low ++ (high ++ rest))) in
    let grouped : input ≡ a ++ tail =
      append_assoc (a ++ b) (zeros_of f) (low ++ (high ++ rest))
      ∙ append_assoc a b (zeros_of f ++ (low ++ (high ++ rest))) in
    let first : take_handle input old.metaindex_handle ≡ (State.ok, f.metaindex_handle, tail) =
      ap (λ t. take_handle t old.metaindex_handle) grouped
      ∙ take_handle-bytes f.metaindex_handle old.metaindex_handle tail meta in
    let second : take_handle tail old.index_handle
        ≡ (State.ok, f.index_handle, zeros_of f ++ (low ++ (high ++ rest))) =
      take_handle-bytes f.index_handle old.index_handle (zeros_of f ++ (low ++ (high ++ rest)))
        index in
    ap (λ t. take_footer t old) bytes
    ∙ ap
        (λ m.
          if m
          then take_index input old (take_handle input old.metaindex_handle)
          else (corruption, old, input))
        (magic_lem input rest d40 d44)
    ∙ ap (take_index input old) first
    ∙ ap (take_end input f.metaindex_handle) second
    ∙ ap (λ t. (State.ok, f, t)) d48

read_compressed-empty :
    (snappy : Snappy) (bytes result : List ℕ) (s : State)
    → read_compressed snappy bytes ≡ returned s result
    → result ≡ []
unfolding read_compressed
read_compressed-empty snappy bytes result s e =
    elim (Option-cases (snappy.get_uncompressed_length bytes)) [
      | inl none_known ↦ elim (Option-cases (snappy.uncompress bytes)) [
        | inl bad ↦ ground (arith, e, none_known, bad)
        | inr (text, good) ↦ absurd (ground (arith, e, none_known, good))
      ]
      | inr (len, known) ↦ ground (arith, e, known)
    ]

read_compressed-fails :
    (snappy : Snappy) (bytes result : List ℕ) (s : State)
    → read_compressed snappy bytes ≡ returned s result
    → is_ok s ≡ false
unfolding read_compressed is_ok
read_compressed-fails snappy bytes result s e =
    elim (Option-cases (snappy.get_uncompressed_length bytes)) [
      | inl none_known ↦ elim (Option-cases (snappy.uncompress bytes)) [
        | inl bad ↦ ground (arith, e, none_known, bad)
        | inr (text, good) ↦ absurd (ground (arith, e, none_known, good))
      ]
      | inr (len, known) ↦ ground (arith, e, known)
    ]

-- Where ReadBlock returns, its result is empty, and it returns success only for a read that was cut
-- short. For a block that is whole and not damaged it returns no success: it runs off its end, or
-- calls the block corrupt.
pub read_block-returned :
    (crc : Crc) (snappy : Snappy) (read_file : ℕ → ℕ → State × List ℕ) (handle : BlockHandle)
    (s : State) (result : List ℕ)
    → read_block crc snappy read_file handle ≡ returned s result
    → (result ≡ [])
      × ((is_ok s ≡ false)
          ⊎ (length (read_file handle.offset (handle.size + 5)).1 ≢ handle.size + 5))
unfolding read_block is_ok
read_block-returned crc snappy read_file handle s result e =
    let content = (read_file handle.offset (handle.size + 5)).1 in
    let code = (read_file handle.offset (handle.size + 5)).0 in
    elim (Bool-cases (is_ok code)) [
      | inr bad ↦ ground (arith, e, bad)
      | inl good ↦ elim (Bool-cases (length content == handle.size + 5)) [
        | inr short ↦ ground (arith, e, good, short)
        | inl whole ↦
            elim (Bool-cases (
              decode_fixed32 (drop (handle.size + 1) content)
              == crc.crc32c (take (handle.size + 1) content))) [
                | inr damaged ↦ ground (arith, e, good, whole, damaged)
                | inl sound ↦ elim (Bool-cases (get_or content handle.size 0 == 0)) [
                  | inl plain ↦ absurd (ground (arith, e, good, whole, sound, plain))
                  | inr packed ↦ elim (Bool-cases (get_or content handle.size 0 == 1)) [
                    | inr other ↦ ground (arith, e, good, whole, sound, packed, other)
                    | inl one ↦
                        let inner : read_compressed snappy (take handle.size content)
                            ≡ returned s result =
                          ground (arith, e, good, whole, sound, packed, one) in
                        (
                          read_compressed-empty snappy (take handle.size content) result s inner,
                          inl (
                              read_compressed-fails snappy (take handle.size content) result s
                                inner),
                        )
                  ]
                ]
              ]
      ]
    ]
