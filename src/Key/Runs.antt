-- ===== src/Key/Runs.antt =====
-- Concrete keys, and the theorems on keys at concrete inputs.
use Prim.Native.Nat.{Ordering}
use yubindb.Prelude.{ℕ, ◌≤◌, ◌≡◌, ◌≢◌, refl, true, some, List, [], ◌∷◌, length, arith}
use yubindb.Coding.{put_fixed64, encode_fixed64}
use yubindb.Key.{
  pack_sequence_and_type, value, deletion, type_code, internal_key, compare_views, cmp,
  parse_internal_key, lookey, lookey_room, inter_key, lookey_user_key,
}
use yubindb.Key.Pack.{
  parse_internal_key-internal_key, cmp_newest_first, cmp_by_user_key, lookey_lem,
}

abbrev ab : List ℕ
ab = 97 ∷ 98 ∷ []

abbrev ac : List ℕ
ac = 97 ∷ 99 ∷ []

key_bytes : internal_key ab 3 value ≡ 97 ∷ 98 ∷ 1 ∷ 3 ∷ 0 ∷ 0 ∷ 0 ∷ 0 ∷ 0 ∷ 0 ∷ []
unfolding internal_key put_fixed64 encode_fixed64 pack_sequence_and_type type_code
key_bytes = refl

ab-ac : compare_views ab ac ≡ Ordering.lt
unfolding compare_views
ab-ac = refl

parse_internal_key-internal_key_example :
    parse_internal_key (internal_key ab 7 deletion)
    ≡ (true, some (record { user_key = ab; sequence = 7; type_byte = type_code deletion }))
parse_internal_key-internal_key_example =
    parse_internal_key-internal_key ab 7 deletion (omega arith)

cmp_newest_first_example : cmp (internal_key ab 9 deletion) (internal_key ab 8 value) ≡ Ordering.lt
cmp_newest_first_example = cmp_newest_first ab 9 8 deletion value (omega arith) (omega arith)

ab-ac-differ : compare_views ab ac ≢ Ordering.eq
unfolding compare_views
ab-ac-differ = λ h. ground arith

cmp_by_user_key_example :
    cmp (internal_key ab 3 value) (internal_key ac 9 value) ≡ compare_views ab ac
cmp_by_user_key_example = cmp_by_user_key ab ac 3 9 value value ab-ac-differ

lookey_lem_example :
    (inter_key (lookey ab 5) ≡ internal_key ab 5 value)
    × (lookey_user_key (lookey ab 5) ≡ ab)
    × (length (lookey ab 5).space ≤ lookey_room ab)
lookey_lem_example = lookey_lem ab 5
