-- ===== src/Coding/Prefixed.antt =====
-- Byte strings behind their length: what PutLengthPrefixedview wrote is read back by both readers.
use yubindb.Prelude.{
  ℕ, ◌+◌, ◌^◌, ◌<◌, ◌≡◌, ap, ◌∙◌, Option, none, some, List, [], ◌++◌, append_assoc, length,
  length-append, length-take, length-drop, take-append, drop-append, arith, All,
}
use yubindb.Coding.{
  IsByte, put_varint32, get_varint32, take_prefixed, put_length_prefixed, get_length_prefixed,
}
use yubindb.Coding.Varint.{get_varint32-put_varint32, get_varint32_takes}
use native.Mathlib.Nat.{mod-eq_of_lt}

take_prefixed-append :
    (value rest : List ℕ) → take_prefixed (some (length value), value ++ rest) ≡ (some value, rest)
unfolding take_prefixed
take_prefixed-append value rest = ground (
  arith,
  length-append value rest,
  take-append (length value) value rest,
  drop-append (length value) value rest,
)

put_length_prefixed-append :
    (value rest : List ℕ)
    → length value < 2 ^ 32
    → put_length_prefixed [] value ++ rest ≡ put_varint32 [] (length value) ++ (value ++ rest)
unfolding put_length_prefixed put_varint32
put_length_prefixed-append value rest h =
    rw (mod-eq_of_lt {n = length value} {m = 2 ^ 32} h) (append_assoc _ value rest)

-- GetLengthPrefixedview reads back the byte string that PutLengthPrefixedview wrote, and leaves
-- what follows it.
pub get_length_prefixed-put_length_prefixed :
    (value rest : List ℕ)
    → length value < 2 ^ 32
    → get_length_prefixed (put_length_prefixed [] value ++ rest) ≡ (some value, rest)
get_length_prefixed-put_length_prefixed value rest h =
    rw (put_length_prefixed-append value rest h)
      (unfold get_length_prefixed in ap take_prefixed (read) ∙ take_prefixed-append value rest)
  where
    read :
        get_varint32 (put_varint32 [] (length value) ++ (value ++ rest))
        ≡ (some (length value), value ++ rest)
    read = get_varint32-put_varint32 (length value) (value ++ rest) h

take_prefixed_takes :
    (o : Option ℕ) (r value q : List ℕ)
    → take_prefixed (o, r) ≡ (some value, q)
    → (o ≡ some (length value)) × (length value + length q ≡ length r)
unfolding take_prefixed
take_prefixed_takes none r value q e = absurd (ground arith)
take_prefixed_takes (some len) r value q e = ground (arith, length-take len r, length-drop len r)

-- A byte string that was read came out of the view, behind one byte of length at least.
pub get_length_prefixed_takes :
    (input value q : List ℕ)
    → All IsByte input
    → get_length_prefixed input ≡ (some value, q)
    → (length value + length q < length input) × (length value < 2 ^ 32)
unfolding get_length_prefixed
get_length_prefixed_takes input value q h e =
    let (o, r) = get_varint32 input in
    let (found, cut) = take_prefixed_takes o r value q e in
    let read : get_varint32 input ≡ (some (length value), r) = ap (λ t. (t, r)) found in
    let (small, shorter, bound) = get_varint32_takes input (length value) r h read in
    (omega arith, small)
