-- ===== src/Coding/Runs.antt =====
-- Concrete runs of the encoders and decoders, and the theorems at concrete inputs.
use yubindb.Prelude.{◌^◌, ◌≡◌, refl, none, some, [], ◌∷◌, ◌++◌, arith}
use yubindb.Coding.{
  encode_varint32, encode_varint64, put_varint32, put_varint64, get_varint64, get_varint32_ptr,
  get_varint32_ptr_fallback, put_length_prefixed, get_length_prefixed,
}
use yubindb.Coding.Varint.{
  encode_varint32-eq-encode_varint64, get_varint64-put_varint64, get_varint32_ptr-eq-fallback,
}
use yubindb.Coding.Prefixed.{get_length_prefixed-put_length_prefixed}

varint_300 : put_varint32 [] 300 ≡ 0xac ∷ 0x02 ∷ []
unfolding put_varint32 encode_varint32
varint_300 = refl

varint_max :
    encode_varint64 0xffff_ffff_ffff_ffff
    ≡ 0xff ∷ 0xff ∷ 0xff ∷ 0xff ∷ 0xff ∷ 0xff ∷ 0xff ∷ 0xff ∷ 0xff ∷ 1 ∷ []
unfolding encode_varint64
varint_max = refl

-- A length that the bytes do not cover is consumed, though the answer is false.
short_prefix : get_length_prefixed (5 ∷ 1 ∷ 2 ∷ []) ≡ (none, 1 ∷ 2 ∷ [])
unfolding get_length_prefixed
short_prefix = refl

prefix_two : get_length_prefixed (2 ∷ 7 ∷ 8 ∷ 9 ∷ []) ≡ (some (7 ∷ 8 ∷ []), 9 ∷ [])
unfolding get_length_prefixed
prefix_two = refl

padded : get_varint64 (0x80 ∷ 0x00 ∷ 7 ∷ []) ≡ (some 0, 7 ∷ [])
unfolding get_varint64
padded = refl

encode_varint32-eq-encode_varint64_example : encode_varint32 70000 ≡ encode_varint64 70000
encode_varint32-eq-encode_varint64_example = encode_varint32-eq-encode_varint64 70000 (omega arith)

get_varint64-put_varint64_example :
    get_varint64 (put_varint64 [] (2 ^ 63) ++ 9 ∷ []) ≡ (some (2 ^ 63), 9 ∷ [])
get_varint64-put_varint64_example = get_varint64-put_varint64 (2 ^ 63) (9 ∷ []) (omega arith)

get_varint32_ptr-eq-fallback_example :
    get_varint32_ptr (0xac ∷ 0x02 ∷ []) ≡ get_varint32_ptr_fallback (0xac ∷ 0x02 ∷ [])
get_varint32_ptr-eq-fallback_example = get_varint32_ptr-eq-fallback (0xac ∷ 0x02 ∷ []) (omega arith)

get_length_prefixed-put_length_prefixed_example :
    get_length_prefixed (put_length_prefixed [] (7 ∷ 8 ∷ []) ++ 9 ∷ [])
    ≡ (some (7 ∷ 8 ∷ []), 9 ∷ [])
get_length_prefixed-put_length_prefixed_example =
    get_length_prefixed-put_length_prefixed (7 ∷ 8 ∷ []) (9 ∷ []) (omega arith)
