-- ===== src/Coding/Fixed.antt =====
-- Fixed-width integers: what memcpy wrote, it reads back.
use yubindb.Prelude.{
  ℕ, zero, suc, ◌*◌, ◌/◌, ◌^◌, ◌<◌, ◌≡◌, refl, ap, List, [], ◌∷◌, ◌++◌, arith, length, All,
}
use yubindb.Coding.{
  IsByte, IsU32, IsU64, little_endian, from_little_endian, encode_fixed32, encode_fixed64,
  decode_fixed32, decode_fixed64,
}
use native.Mathlib.Nat.{pow-suc}

pub length-little_endian : (n v : ℕ) → length (little_endian n v) ≡ n
unfolding little_endian
length-little_endian zero v = refl
length-little_endian (suc n) v = ap suc (length-little_endian n (v / 256))

pub little_endian-IsByte : (n v : ℕ) → All IsByte (little_endian n v)
unfolding little_endian
little_endian-IsByte zero v = tt
little_endian-IsByte (suc n) v = (omega arith, little_endian-IsByte n (v / 256))

pub from_little_endian-little_endian :
    (n v : ℕ) → v < 256 ^ n → from_little_endian (little_endian n v) ≡ v
unfolding little_endian from_little_endian
from_little_endian-little_endian zero v h = omega arith
from_little_endian-little_endian (suc n) v h =
    let small : v < 256 ^ n * 256 = rw pow-suc at h in
    omega (arith, from_little_endian-little_endian n (v / 256) (omega arith))

-- A little-endian number of `n` bytes lies below `256 ^ n`.
pub from_little_endian-lt : (bs : List ℕ) → All IsByte bs → from_little_endian bs < 256 ^ length bs
unfolding from_little_endian
from_little_endian-lt [] h = omega arith
from_little_endian-lt (b ∷ bs) h = rw pow-suc (omega (arith, h.0, from_little_endian-lt bs h.1))

pub decode_fixed32-encode_fixed32 :
    (v : ℕ) (rest : List ℕ) → IsU32 v → decode_fixed32 (encode_fixed32 v ++ rest) ≡ v
unfolding decode_fixed32 encode_fixed32
decode_fixed32-encode_fixed32 v rest h = (from_little_endian-little_endian 4 v h)

pub decode_fixed64-encode_fixed64 :
    (v : ℕ) (rest : List ℕ) → IsU64 v → decode_fixed64 (encode_fixed64 v ++ rest) ≡ v
unfolding decode_fixed64 encode_fixed64
decode_fixed64-encode_fixed64 v rest h = (from_little_endian-little_endian 8 v h)

pub length-encode_fixed32 : (v : ℕ) → length (encode_fixed32 v) ≡ 4
unfolding encode_fixed32
length-encode_fixed32 v = length-little_endian 4 v

pub length-encode_fixed64 : (v : ℕ) → length (encode_fixed64 v) ≡ 8
unfolding encode_fixed64
length-encode_fixed64 v = length-little_endian 8 v
