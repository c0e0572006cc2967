-- ===== src/Coding/Varint.antt =====
-- Variable-length integers: the two encoders agree, the length is known, and decoding reads back.
use yubindb.Prelude.{
  ℕ, zero, suc, ◌+◌, ◌*◌, ◌/◌, ◌%◌, ◌^◌, ◌≤◌, ◌<◌, ◌≡◌, refl, ap, ◌∙◌, bit_and, bit_or, none, some,
  List, [], ◌∷◌, ◌++◌, length, arith, All, bit_or_top, bit_and_top, bit_and_low7, bit_or-shifted,
  bit_or-lt-pow2,
}
use yubindb.Coding.{
  IsByte, IsU32, IsU64, encode_varint32, encode_varint64_loop, encode_varint64, put_varint32,
  put_varint64, varint_length_loop, varint_length, get_varint_loop, get_varint32_ptr_fallback,
  get_varint32_ptr, get_varint32, get_varint64, moved,
}
use native.Mathlib.Nat.{pow-suc, mod-eq_of_lt, div-add-mod, mod-lt}
use native.Mathlib.Numerals.{towards_suc}

-- Fuel beyond what the number needs changes nothing.
encode_varint64_loop-fuel :
    (f v : ℕ)
    → v < 128 ^ suc f
    → encode_varint64_loop (suc f) v ≡ encode_varint64_loop (suc (suc f)) v
unfolding encode_varint64_loop
encode_varint64_loop-fuel zero v h = ground arith
encode_varint64_loop-fuel (suc f) v h =
    let small : v < 128 ^ suc f * 128 = rw pow-suc at h in
    ground (arith, encode_varint64_loop-fuel f (v / 128))

five_groups : (v : ℕ) → IsU32 v → encode_varint32 v ≡ encode_varint64_loop 5 v
unfolding encode_varint32 encode_varint64_loop
five_groups v h = ground arith

-- EncodeVarint32, written out by cases, writes the bytes that the loop of EncodeVarint64 writes.
pub encode_varint32-eq-encode_varint64 : (v : ℕ) → IsU32 v → encode_varint32 v ≡ encode_varint64 v
unfolding encode_varint64
encode_varint32-eq-encode_varint64 v h =
    five_groups v h
    ∙ encode_varint64_loop-fuel 4 v (omega arith)
    ∙ encode_varint64_loop-fuel 5 v (omega arith)
    ∙ encode_varint64_loop-fuel 6 v (omega arith)
    ∙ encode_varint64_loop-fuel 7 v (omega arith)
    ∙ encode_varint64_loop-fuel 8 v (omega arith)

encode_varint64_loop-IsByte : (f v : ℕ) → All IsByte (encode_varint64_loop f v)
unfolding encode_varint64_loop
encode_varint64_loop-IsByte zero v = tt
encode_varint64_loop-IsByte (suc f) v =
    ground (arith, encode_varint64_loop-IsByte f (v / 128), bit_or_top v)

varint_length_loop-eq :
    (f v len : ℕ)
    → v < 128 ^ suc f
    → varint_length_loop (suc f) v len + 1 ≡ len + length (encode_varint64_loop (suc f) v)
unfolding varint_length_loop encode_varint64_loop
varint_length_loop-eq zero v len h = ground arith
varint_length_loop-eq (suc f) v len h =
    let small : v < 128 ^ suc f * 128 = rw pow-suc at h in
    ground (arith, varint_length_loop-eq f (v / 128) (len + 1))

-- One round of the decoder on a last byte, and on a byte with the top bit set over the group `g`.
module _ (last w : ℕ) where
  last_byte :
      (v shift result : ℕ) (rest : List ℕ)
      → shift ≤ last
      → v < 128
      → result < 2 ^ shift
      → result + v * 2 ^ shift < 2 ^ w
      → get_varint_loop last w (v ∷ rest) shift result ≡ some (result + v * 2 ^ shift, rest)
  unfolding get_varint_loop
  last_byte v shift result rest hs hv hr fits = ground (
    arith,
    bit_and_top v,
    bit_or-shifted shift result v,
    mod-eq_of_lt {n = v * 2 ^ shift} {m = 2 ^ w},
  )

  inner_byte :
      (g shift result : ℕ) (rest : List ℕ)
      → shift ≤ last
      → g < 128
      → result < 2 ^ shift
      → result + g * 2 ^ shift < 2 ^ w
      → get_varint_loop last w ((g + 128) ∷ rest) shift result
        ≡ get_varint_loop last w rest (shift + 7) (result + g * 2 ^ shift)
  unfolding get_varint_loop
  inner_byte g shift result rest hs hg hr fits = ground (
    arith,
    bit_and_top (g + 128),
    bit_and_low7 (g + 128),
    bit_or-shifted shift result g,
    mod-eq_of_lt {n = g * 2 ^ shift} {m = 2 ^ w},
  )

shift_seven : (s : ℕ) → 2 ^ (s + 7) ≡ 128 * 2 ^ s
shift_seven s = simp towards_suc (omega arith)

-- The lowest group of `v` and what is above it, each moved up by `s` bits.
split_group : (v s : ℕ) → v * 2 ^ s ≡ v % 128 * 2 ^ s + v / 128 * 2 ^ (s + 7)
split_group v s = omega (
  arith,
  ap (λ (t : ℕ). t * 2 ^ s) (div-add-mod v 128),
  ap (λ (t : ℕ). v / 128 * t) (shift_seven s),
)

group_fits : (g s result : ℕ) → g < 128 → result < 2 ^ s → result + g * 2 ^ s < 2 ^ (s + 7)
group_fits g s result hg hr = rw (shift_seven s) (grind arith)

-- What the loop encoder wrote, the loop decoder adds to its result, from bit `shift` on.
module _ (last w : ℕ) where
  get_varint_loop-encode :
      (f v shift result : ℕ) (rest : List ℕ)
      → v < 128 ^ suc f
      → shift + 7 * f ≤ last
      → result < 2 ^ shift
      → result + v * 2 ^ shift < 2 ^ w
      → get_varint_loop last w (encode_varint64_loop (suc f) v ++ rest) shift result
        ≡ some (result + v * 2 ^ shift, rest)
  unfolding encode_varint64_loop
  get_varint_loop-encode zero v shift result rest hv hs hr fits =
      ground (arith, last_byte last w v shift result rest)
  get_varint_loop-encode (suc f) v shift result rest hv hs hr fits =
      let small : v < 128 ^ suc f * 128 = rw pow-suc at hv in
      ground (
        arith,
        bit_or_top v,
        last_byte last w v shift result rest,
        split_group v shift,
        group_fits (v % 128) shift result,
        inner_byte last w (v % 128) shift result (encode_varint64_loop (suc f) (v / 128) ++ rest),
        get_varint_loop-encode f (v / 128) (shift + 7) (result + v % 128 * 2 ^ shift) rest,
      )

-- The inlined fast path of GetVarint32Ptr gives what the loop gives, on every byte string.
pub get_varint32_ptr-eq-fallback :
    (p : List ℕ) → All IsByte p → get_varint32_ptr p ≡ get_varint32_ptr_fallback p
unfolding get_varint32_ptr
get_varint32_ptr-eq-fallback [] h = refl
get_varint32_ptr-eq-fallback (b ∷ p) h = ground (arith, h.0, bit_and_top b, last_byte 28 32 b 0 0 p)

pub encode_varint64-IsByte : (v : ℕ) → All IsByte (encode_varint64 v)
unfolding encode_varint64
encode_varint64-IsByte v = encode_varint64_loop-IsByte 10 v

-- GetVarint64 reads back the number that PutVarint64 wrote, and leaves what follows it.
pub get_varint64-put_varint64 :
    (v : ℕ) (rest : List ℕ) → IsU64 v → get_varint64 (put_varint64 [] v ++ rest) ≡ (some v, rest)
unfolding get_varint64 put_varint64 encode_varint64
get_varint64-put_varint64 v rest h = ground (arith, get_varint_loop-encode 63 64 9 v 0 0 rest)

fallback-encode :
    (v : ℕ) (rest : List ℕ)
    → IsU32 v
    → get_varint32_ptr_fallback (encode_varint32 v ++ rest) ≡ some (v, rest)
unfolding get_varint32_ptr_fallback
fallback-encode v rest h =
    rw (five_groups v h) (ground (arith, get_varint_loop-encode 28 32 4 v 0 0 rest))

length-encode_varint64_loop :
    (f v : ℕ)
    → (1 ≤ length (encode_varint64_loop (suc f) v))
      × (length (encode_varint64_loop (suc f) v) ≤ suc f)
unfolding encode_varint64_loop
length-encode_varint64_loop zero v = ground arith
length-encode_varint64_loop (suc f) v = ground (arith, length-encode_varint64_loop f (v / 128))

pub length-encode_varint32 :
    (v : ℕ) → IsU32 v → (1 ≤ length (encode_varint32 v)) × (length (encode_varint32 v) ≤ 5)
length-encode_varint32 v h = rw (five_groups v h) (length-encode_varint64_loop 4 v)

pub encode_varint32-IsByte : (v : ℕ) → IsU32 v → All IsByte (encode_varint32 v)
encode_varint32-IsByte v h = rw (five_groups v h) (encode_varint64_loop-IsByte 5 v)

-- The fast path looks at the first byte only.
eq_fallback-append :
    (xs rest : List ℕ)
    → 0 < length xs
    → All IsByte xs
    → get_varint32_ptr (xs ++ rest) ≡ get_varint32_ptr_fallback (xs ++ rest)
unfolding get_varint32_ptr
eq_fallback-append [] rest pos h = absurd (omega arith)
eq_fallback-append (b ∷ p) rest pos h =
    ground (arith, h.0, bit_and_top b, last_byte 28 32 b 0 0 (p ++ rest))

pub get_varint32_ptr-encode :
    (v : ℕ) (rest : List ℕ)
    → IsU32 v
    → get_varint32_ptr (encode_varint32 v ++ rest) ≡ some (v, rest)
get_varint32_ptr-encode v rest h =
    eq_fallback-append (encode_varint32 v) rest (length-encode_varint32 v h).0
      (encode_varint32-IsByte v h)
    ∙ fallback-encode v rest h

-- GetVarint32 reads back the number that PutVarint32 wrote, and leaves what follows it.
pub get_varint32-put_varint32 :
    (v : ℕ) (rest : List ℕ) → IsU32 v → get_varint32 (put_varint32 [] v ++ rest) ≡ (some v, rest)
unfolding get_varint32 put_varint32
get_varint32-put_varint32 v rest h = ap (moved _) (get_varint32_ptr-encode v rest h)

pub length-encode_varint64 :
    (v : ℕ) → (1 ≤ length (encode_varint64 v)) × (length (encode_varint64 v) ≤ 10)
unfolding encode_varint64
length-encode_varint64 v = length-encode_varint64_loop 9 v

-- VarintLength is the number of bytes that PutVarint64 appends.
pub varint_length-eq-length : (v : ℕ) → IsU64 v → varint_length v ≡ length (put_varint64 [] v)
unfolding varint_length put_varint64 encode_varint64
varint_length-eq-length v h = omega (arith, varint_length_loop-eq 9 v 1 (omega arith))

get_varint_loop_takes :
    (last w : ℕ) (p : List ℕ) (shift result v : ℕ) (q : List ℕ)
    → result < 2 ^ w
    → get_varint_loop last w p shift result ≡ some (v, q)
    → (v < 2 ^ w) × (length q < length p) × (7 * length p + shift ≤ 7 * length q + last + 7)
unfolding get_varint_loop
get_varint_loop_takes last w [] shift result v q hr e = cc
get_varint_loop_takes last w (b ∷ p) shift result v q hr e = ground (
  arith,
  mod-lt (b * 2 ^ shift) {m = 2 ^ w},
  mod-lt (bit_and b 127 * 2 ^ shift) {m = 2 ^ w},
  bit_or-lt-pow2 w result (b * 2 ^ shift % 2 ^ w),
  bit_or-lt-pow2 w result (bit_and b 127 * 2 ^ shift % 2 ^ w),
  get_varint_loop_takes last w p (shift + 7) (bit_or result (bit_and b 127 * 2 ^ shift % 2 ^ w)) v
      q,
)

-- A successful GetVarint64 returns a uint64 and takes 1 to 10 bytes.
pub get_varint64_takes :
    (input : List ℕ) (v : ℕ) (q : List ℕ)
    → get_varint64 input ≡ (some v, q)
    → IsU64 v × (length q < length input) × (length input ≤ length q + 10)
unfolding get_varint64
get_varint64_takes input v q e = ground (arith, get_varint_loop_takes 63 64 input 0 0 v q)

pub get_varint32_takes :
    (input : List ℕ) (v : ℕ) (q : List ℕ)
    → All IsByte input
    → get_varint32 input ≡ (some v, q)
    → IsU32 v × (length q < length input) × (length input ≤ length q + 5)
unfolding get_varint32 get_varint32_ptr_fallback
get_varint32_takes [] v q h e = cc
get_varint32_takes (b ∷ p) v q h e =
    ground (arith, h.0, get_varint_loop_takes 28 32 (b ∷ p) 0 0 v q)

-- A failed read leaves the view where it was.
pub get_varint64_fails : (input q : List ℕ) → get_varint64 input ≡ (none, q) → q ≡ input
unfolding get_varint64
get_varint64_fails input q e = ground arith
