-- ===== src/Block/Entry.antt =====
-- The sizes in front of an entry: DecodeEntry reads back what Add wrote, on both of its paths.
use yubindb.Prelude.{
  ℕ, ◌+◌, ◌/◌, ◌%◌, ◌^◌, ◌≤◌, ◌<◌, ◌≡◌, ap, sym, ◌∙◌, bit_or, Bool-cases, ◌⊎◌, inl, inr, some, List,
  [], ◌∷◌, ◌++◌, leb, if◌then◌else◌, length, length-append, arith, bit_or_top, le-bit_or,
  bit_or-lt-pow2, lt→ltb, le→not-ltb,
}
use yubindb.Coding.{IsU32, encode_varint64, encode_varint64_loop, encode_varint32}
use yubindb.Coding.Varint.{
  encode_varint32-eq-encode_varint64, get_varint32_ptr-encode, length-encode_varint32,
}
use yubindb.Block.{Sizes, check_sizes, decode_sizes, decode_entry}

-- A varint is one byte below 128, or starts with a byte from 128 on.
encode_varint32_head :
    (v : ℕ)
    → IsU32 v
    → ((v < 128) × (encode_varint32 v ≡ v ∷ []))
      ⊎ ((b : ℕ) × (bs : List ℕ) × (128 ≤ b) × (encode_varint32 v ≡ b ∷ bs))
unfolding encode_varint64 encode_varint64_loop
encode_varint32_head v h = elim (Bool-cases (leb 128 v)) [
  | inl big ↦ inr (
    bit_or v 128 % 256,
    encode_varint64_loop 9 (v / 128),
    omega (arith, bit_or_top v),
    same ∙ rw big,
  )
  | inr small ↦ inl (ground arith, same ∙ rw small (ap (λ k. k ∷ []) (ground arith)))
]
  where
    same : encode_varint32 v ≡ (
        if leb 128 v
        then (bit_or v 128 % 256) ∷ encode_varint64_loop 9 (v / 2 ^ 7)
        else (v % 256) ∷ [])
    same = encode_varint32-eq-encode_varint64 v h

-- A byte from 128 on among the first three takes the slow path.
module _ (b : ℕ) (big : 128 ≤ b) where
  big_first : (xs : List ℕ) → 2 ≤ length xs → decode_entry (b ∷ xs) ≡ decode_sizes (b ∷ xs)
  unfolding decode_entry
  big_first [] h = absurd (omega arith)
  big_first (x ∷ []) h = absurd (omega arith)
  big_first (x ∷ y ∷ xs) h = rw (
      le→not-ltb (bit_or (bit_or b x) y) 128
        (omega (arith, le-bit_or b x, le-bit_or (bit_or b x) y)))

  big_second :
      (a : ℕ) (xs : List ℕ) → 1 ≤ length xs → decode_entry (a ∷ b ∷ xs) ≡ decode_sizes (a ∷ b ∷ xs)
  unfolding decode_entry
  big_second a [] h = absurd (omega arith)
  big_second a (y ∷ xs) h = rw (
      le→not-ltb (bit_or (bit_or a b) y) 128
        (omega (arith, le-bit_or a b, le-bit_or (bit_or a b) y)))

  big_third :
      (a c : ℕ) (xs : List ℕ) → decode_entry (a ∷ c ∷ b ∷ xs) ≡ decode_sizes (a ∷ c ∷ b ∷ xs)
  unfolding decode_entry
  big_third a c xs =
      rw (le→not-ltb (bit_or (bit_or a c) b) 128 (omega (arith, le-bit_or (bit_or a c) b)))

abbrev pub size_bytes : ℕ → ℕ → ℕ → List ℕ → List ℕ
size_bytes s n v rest = encode_varint32 s ++ (encode_varint32 n ++ (encode_varint32 v ++ rest))

module _ (s n v : ℕ) (hs : IsU32 s) (hn : IsU32 n) (hv : IsU32 v) (rest : List ℕ) where
  abbrev sized : Sizes
  sized = record { shared = s; non_shared = n; value_length = v; behind = rest }

  decode_sizes-bytes : decode_sizes (size_bytes s n v rest) ≡ check_sizes sized
  unfolding decode_sizes
  decode_sizes-bytes = rw (
    get_varint32_ptr-encode s (encode_varint32 n ++ (encode_varint32 v ++ rest)) hs,
    decode_sizes,
    get_varint32_ptr-encode n (encode_varint32 v ++ rest) hn,
    decode_sizes,
    get_varint32_ptr-encode v rest hv,
    decode_sizes,
  )

  abbrev Long : ℕ → Type 0
  Long k = k ≤ length (encode_varint32 v ++ rest)

  value-Long : Long 1
  value-Long = omega (arith, length-append (encode_varint32 v) rest, length-encode_varint32 v hv)

  size_long : 2 ≤ length (encode_varint32 n ++ (encode_varint32 v ++ rest))
  size_long = omega (
    arith,
    value-Long,
    length-append (encode_varint32 n) (encode_varint32 v ++ rest),
    length-encode_varint32 n hn,
  )

  -- DecodeEntry on the three sizes, one byte each or not.
  decode_entry-check : decode_entry (size_bytes s n v rest) ≡ check_sizes sized
  decode_entry-check = elim (encode_varint32_head s hs) [
    | inr (b, bs, big, es) ↦
        slow (b ∷ (bs ++ tail)) (ap (λ t. t ++ tail) es)
          (big_first b big (bs ++ tail) (omega (arith, length-append bs tail, size_long)))
    | inl (small_s, es) ↦
        let first = ap (λ t. t ++ tail) es in
        elim (encode_varint32_head n hn) [
          | inr (b, bs, big, en) ↦
              slow (s ∷ b ∷ (bs ++ tail')) (first ∙ ap (λ t. s ∷ (t ++ tail')) en) (
                big_second b big s (bs ++ tail')
                  (omega (arith, length-append bs tail', value-Long)))
          | inl (small_n, en) ↦
              let second = first ∙ ap (λ t. s ∷ (t ++ tail')) en in
              elim (encode_varint32_head v hv) [
                | inr (b, bs, big, ev) ↦
                    slow (s ∷ n ∷ b ∷ (bs ++ rest)) (second ∙ ap (λ t. s ∷ n ∷ (t ++ rest)) ev)
                      (big_third b big s n (bs ++ rest))
                | inl (small_v, ev) ↦
                    ap decode_entry (second ∙ ap (λ t. s ∷ n ∷ (t ++ rest)) ev)
                    ∙ fast (omega (arith, bit_or-lt-pow2 7 s n, bit_or-lt-pow2 7 (bit_or s n) v))
              ]
        ]
  ]
    where
      tail : List ℕ
      tail = encode_varint32 n ++ (encode_varint32 v ++ rest)

      tail' : List ℕ
      tail' = encode_varint32 v ++ rest

      slow :
          (xs : List ℕ)
          → size_bytes s n v rest ≡ xs
          → decode_entry xs ≡ decode_sizes xs
          → decode_entry (size_bytes s n v rest) ≡ check_sizes sized
      slow xs e h = ap decode_entry e ∙ h ∙ ap decode_sizes (sym e) ∙ decode_sizes-bytes

      fast : bit_or (bit_or s n) v < 128 → decode_entry (s ∷ n ∷ v ∷ rest) ≡ check_sizes sized
      fast h = unfold decode_entry in rw (lt→ltb (bit_or (bit_or s n) v) 128 h)

  -- DecodeEntry reads the sizes of an entry that lies whole before the limit.
  pub decode_entry-size_bytes :
      n + v ≤ length rest → length rest < 2 ^ 32 → decode_entry (size_bytes s n v rest) ≡ some sized
  unfolding check_sizes
  decode_entry-size_bytes fits word =
      decode_entry-check ∙ rw (le→not-ltb (length rest % 2 ^ 32) ((n + v) % 2 ^ 32) (omega arith))
