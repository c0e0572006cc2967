-- ===== src/FileName/Runs.antt =====
-- Names that are made and parsed. The numbers of the files are padded with zeros, so that strtoull
-- reads them in base 8.
use yubindb.Prelude.{[], none, some, drop, ◌≡◌, refl}
use yubindb.FileName.{
  log_file, table_file, log_file_name, table_file_name, descriptor_file_name, parse_file_name, same,
  starts_with, make_file_name, padded_number, digits, with_number, type_of, suffix_of, strtoull,
  is_space, signed, in_base, is_hex, value_of, digit,
}
use yubindb.FileName.Parse.{parse_file_name-descriptor_file_name}

parse_file_name-descriptor_file_name_example :
    parse_file_name (drop 1 (descriptor_file_name [] 5)) ≡ none
parse_file_name-descriptor_file_name_example = parse_file_name-descriptor_file_name 5

parse_log_8 : parse_file_name (drop 1 (log_file_name [] 8)) ≡ some (0, log_file)
unfolding parse_file_name log_file_name same starts_with make_file_name padded_number digits
    with_number type_of suffix_of strtoull is_space signed in_base is_hex value_of digit
parse_log_8 = refl

parse_table_123456 :
    parse_file_name (drop 1 (table_file_name [] 123456)) ≡ some (123456, table_file)
unfolding parse_file_name table_file_name same starts_with make_file_name padded_number digits
    with_number type_of suffix_of strtoull is_space signed in_base is_hex value_of digit
parse_table_123456 = refl
