-- ===== src/FileName/Parse.antt =====
-- ParsefileName of src/util/filename.cpp on the names that the other functions make.
use yubindb.Prelude.{
  ℕ, ◌-◌, ◌≤◌, List, [], ◌∷◌, false, none, length, length-append, length-replicate, replicate, drop,
  ◌≡◌, refl, arith,
}
use yubindb.FileName.{
  digits, padded_number, descriptor_file_name, same, starts_with, is_empty, parse_descriptor,
  parse_file_name,
}

is_empty-long : (xs : List ℕ) → 1 ≤ length xs → is_empty xs ≡ false
unfolding is_empty
is_empty-long [] h = ground arith
is_empty-long (x ∷ xs) h = refl

length-padded_number : (n : ℕ) → 6 ≤ length (padded_number n)
unfolding padded_number
length-padded_number n =
    let ds = digits 20 n [] in
    omega (
      arith,
      length-append (replicate (6 - length ds) 48) ds,
      length-replicate {A = ℕ} (6 - length ds) 48,
    )

-- The name of a manifest, in the directory that holds it, is no name of a file to ParsefileName,
-- whatever its number: its digits are read, but they are not taken off before the rest is required
-- to be empty.
pub parse_file_name-descriptor_file_name :
    (n : ℕ) → parse_file_name (drop 1 (descriptor_file_name [] n)) ≡ none
unfolding parse_file_name parse_descriptor descriptor_file_name same starts_with
parse_file_name-descriptor_file_name n =
    rw (is_empty-long (padded_number n) (omega (arith, length-padded_number n))) refl
