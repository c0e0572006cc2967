-- ===== src/Coding.antt =====
-- src/util/common.h and src/util/common.cpp: fixed-width and variable-length integers, and byte
-- strings behind their length. A byte buffer is the list of its bytes; a pair of pointers `p`,
-- `limit` is the list of the bytes between them. The machine is little-endian.
pub mod Fixed
pub mod Varint
pub mod Prefixed
mod Runs
use yubindb.Prelude.{
  ℕ, zero, suc, ◌+◌, ◌*◌, ◌/◌, ◌%◌, ◌^◌, ◌≤◌, ◌<◌, bit_and, bit_or, Bool, Option, none, some, List,
  [], ◌∷◌, ◌++◌, ltb, leb, ◌==◌, if◌then◌else◌, length, take, drop,
}

abbrev pub IsByte : ℕ → Type 0
IsByte b = b < 256

abbrev pub IsU32 : ℕ → Type 0
IsU32 v = v < 2 ^ 32

abbrev pub IsU64 : ℕ → Type 0
IsU64 v = v < 2 ^ 64

-- A function that moves `std::string_view* input` forward and fills an out parameter. `none` is
-- the result `false`: the out parameter is not written, and the view is where the code left it.
abbrev pub Parser {ℓ} : Type ℓ → Type ℓ
Parser A = List ℕ → Option A × List ℕ

-- What memcpy of an n-byte integer writes, and what it reads back.
unfoldable pub little_endian : ℕ → ℕ → List ℕ
little_endian zero v = []
little_endian (suc n) v = (v % 256) ∷ little_endian n (v / 256)

unfoldable pub from_little_endian : List ℕ → ℕ
from_little_endian [] = 0
from_little_endian (b ∷ bs) = b + 256 * from_little_endian bs

unfoldable pub encode_fixed32 : ℕ → List ℕ
unfolding little_endian
encode_fixed32 v = little_endian 4 v

unfoldable pub encode_fixed64 : ℕ → List ℕ
unfolding little_endian
encode_fixed64 v = little_endian 8 v

-- The callers have four or eight bytes behind the pointer; past the end of the list is undefined.
unfoldable pub decode_fixed32 : List ℕ → ℕ
unfolding from_little_endian
decode_fixed32 p = from_little_endian (take 4 p)

unfoldable pub decode_fixed64 : List ℕ → ℕ
unfolding from_little_endian
decode_fixed64 p = from_little_endian (take 8 p)

unfoldable pub put_fixed32 : List ℕ → ℕ → List ℕ
put_fixed32 dst v = dst ++ encode_fixed32 v

unfoldable pub put_fixed64 : List ℕ → ℕ → List ℕ
put_fixed64 dst v = dst ++ encode_fixed64 v

-- Each byte is stored through a `uint8_t*`, which keeps the low eight bits.
unfoldable pub encode_varint32 : ℕ → List ℕ
encode_varint32 v =
    if ltb v (2 ^ 7)
    then (v % 256) ∷ []
    else if ltb v (2 ^ 14)
    then (bit_or v 128 % 256) ∷ (v / 2 ^ 7 % 256) ∷ []
    else if ltb v (2 ^ 21)
    then (bit_or v 128 % 256) ∷ (bit_or (v / 2 ^ 7) 128 % 256) ∷ (v / 2 ^ 14 % 256) ∷ []
    else if ltb v (2 ^ 28)
    then (bit_or v 128 % 256)
      ∷ (bit_or (v / 2 ^ 7) 128 % 256)
      ∷ (bit_or (v / 2 ^ 14) 128 % 256)
      ∷ (v / 2 ^ 21 % 256)
      ∷ []
    else (bit_or v 128 % 256)
      ∷ (bit_or (v / 2 ^ 7) 128 % 256)
      ∷ (bit_or (v / 2 ^ 14) 128 % 256)
      ∷ (bit_or (v / 2 ^ 21) 128 % 256)
      ∷ (v / 2 ^ 28 % 256)
      ∷ []

unfoldable pub put_varint32 : List ℕ → ℕ → List ℕ
put_varint32 dst v = dst ++ encode_varint32 v

-- `while (v >= 128)`, on fuel: a 64-bit number has ten groups of seven bits at most.
unfoldable pub encode_varint64_loop : ℕ → ℕ → List ℕ
encode_varint64_loop zero v = []
encode_varint64_loop (suc fuel) v =
    let rest = encode_varint64_loop fuel (v / 2 ^ 7) in
    if leb 128 v then (bit_or v 128 % 256) ∷ rest else (v % 256) ∷ []

unfoldable pub encode_varint64 : ℕ → List ℕ
unfolding encode_varint64_loop
encode_varint64 v = encode_varint64_loop 10 v

unfoldable pub put_varint64 : List ℕ → ℕ → List ℕ
put_varint64 dst v = dst ++ encode_varint64 v

unfoldable pub varint_length_loop : ℕ → ℕ → ℕ → ℕ
varint_length_loop zero v len = len
varint_length_loop (suc fuel) v len =
    let more = varint_length_loop fuel (v / 2 ^ 7) (len + 1) in if leb 128 v then more else len

unfoldable pub varint_length : ℕ → ℕ
unfolding varint_length_loop
varint_length v = varint_length_loop 10 v 1

-- The loop of GetVarint32PtrFallback and of GetVarint64Ptr, which differ in the last shift and in
-- the width `w` of the result. `byte << shift` and the result are words of `w` bits.
unfoldable pub get_varint_loop : ℕ → ℕ → List ℕ → ℕ → ℕ → Option (ℕ × List ℕ)
get_varint_loop last w [] shift result = none
get_varint_loop last w (byte ∷ p) shift result =
    let more =
      get_varint_loop last w p (shift + 7) (bit_or result (bit_and byte 127 * 2 ^ shift % 2 ^ w)) in
    if leb shift last
    then (if bit_and byte 128 == 0
        then some (bit_or result (byte * 2 ^ shift % 2 ^ w), p)
        else more)
    else none

unfoldable pub get_varint32_ptr_fallback : List ℕ → Option (ℕ × List ℕ)
unfolding get_varint_loop
get_varint32_ptr_fallback p = get_varint_loop 28 32 p 0 0

unfoldable pub get_varint32_ptr : List ℕ → Option (ℕ × List ℕ)
unfolding get_varint32_ptr_fallback
get_varint32_ptr [] = get_varint32_ptr_fallback []
get_varint32_ptr (b ∷ p) =
    if bit_and b 128 == 0 then some (b, p) else get_varint32_ptr_fallback (b ∷ p)

unfoldable pub get_varint64_ptr : List ℕ → Option (ℕ × List ℕ)
unfolding get_varint_loop
get_varint64_ptr p = get_varint_loop 63 64 p 0 0

-- A view moves only if a number was read.
unfoldable pub moved {ℓ} : {A : Type ℓ} → List ℕ → Option (A × List ℕ) → Option A × List ℕ
moved input none = (none, input)
moved input (some (v, q)) = (some v, q)

unfoldable pub get_varint32 : Parser ℕ
unfolding moved get_varint32_ptr
get_varint32 input = moved input (get_varint32_ptr input)

unfoldable pub get_varint64 : Parser ℕ
unfolding moved get_varint64_ptr
get_varint64 input = moved input (get_varint64_ptr input)

-- `value.size()` is passed as a uint32_t.
unfoldable pub put_length_prefixed : List ℕ → List ℕ → List ℕ
put_length_prefixed dst value = put_varint32 dst (length value % 2 ^ 32) ++ value

-- GetLengthPrefixedview on a pair of pointers.
unfoldable pub get_length_prefixed_ptr : List ℕ → Option (List ℕ × List ℕ)
unfolding get_varint32_ptr
get_length_prefixed_ptr p = elim (get_varint32_ptr p) [
  | none ↦ none
  | some (len, q) ↦ if ltb (length q) len then none else some (take len q, drop len q)
]

unfoldable pub take_prefixed : Option ℕ × List ℕ → Option (List ℕ) × List ℕ
take_prefixed (none, input) = (none, input)
take_prefixed (some len, input) =
    if leb len (length input) then (some (take len input), drop len input) else (none, input)

-- GetLengthPrefixedview on a view: when the bytes run out, the length has been read all the same.
unfoldable pub get_length_prefixed : Parser (List ℕ)
unfolding take_prefixed get_varint32
get_length_prefixed input = take_prefixed (get_varint32 input)
