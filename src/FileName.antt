-- ===== src/FileName.antt =====
-- src/util/filename.h and src/util/filename.cpp: the names of the database's files, and their
-- parsing. A name is its list of bytes; a name that is parsed has no byte 0.
pub mod Parse
mod Runs
use yubindb.Prelude.{
  ℕ, zero, suc, ◌+◌, ◌-◌, ◌*◌, ◌/◌, ◌%◌, ◌^◌, Bool, true, false, ◌&&◌, ◌||◌, Option, none, some,
  List, [], ◌∷◌, ◌++◌, ◌==◌, ltb, leb, if◌then◌else◌, length, drop, replicate, min,
}

-- FileType
pub data FileType : Type 0 where
  log_file lock_file table_file descriptor_file current_file temp_file info_log_file : FileType

-- The decimal digits of a number, with fuel for the digits that remain: the number of a file has 64
-- bits, so at most twenty digits.
unfoldable pub digits : ℕ → ℕ → List ℕ → List ℕ
digits zero _ rest = rest
digits (suc fuel) n rest =
    let more = digits fuel (n / 10) ((48 + n % 10) ∷ rest) in
    if ltb n 10 then (48 + n) ∷ rest else more

-- "%06llu"
unfoldable pub padded_number : ℕ → List ℕ
padded_number n = let ds = digits 20 n [] in replicate (6 - length ds) 48 ++ ds

-- MakeFileName
unfoldable pub make_file_name : List ℕ → ℕ → List ℕ → List ℕ
make_file_name dbname number suffix = dbname ++ 47 ∷ padded_number number ++ 46 ∷ suffix

-- LogFileName, TableFileName, SSTTableFileName, VSSTTableFileName and TempFileName; each asserts
-- that the number is not 0.
unfoldable pub log_file_name : List ℕ → ℕ → List ℕ
log_file_name dbname number = make_file_name dbname number (108 ∷ 111 ∷ 103 ∷ [])

unfoldable pub table_file_name : List ℕ → ℕ → List ℕ
table_file_name dbname number = make_file_name dbname number (108 ∷ 100 ∷ 98 ∷ [])

unfoldable pub sst_table_file_name : List ℕ → ℕ → List ℕ
sst_table_file_name dbname number = make_file_name dbname number (115 ∷ 115 ∷ 116 ∷ [])

unfoldable pub vsst_table_file_name : List ℕ → ℕ → List ℕ
vsst_table_file_name dbname number = make_file_name dbname number (118 ∷ 95 ∷ 115 ∷ 115 ∷ 116 ∷ [])

unfoldable pub temp_file_name : List ℕ → ℕ → List ℕ
temp_file_name dbname number = make_file_name dbname number (100 ∷ 98 ∷ 116 ∷ 109 ∷ 112 ∷ [])

-- "CURRENT", "LOCK", "LOG", "LOG.old" and "MANIFEST-"
abbrev pub current_name : List ℕ
current_name = 67 ∷ 85 ∷ 82 ∷ 82 ∷ 69 ∷ 78 ∷ 84 ∷ []

abbrev pub lock : List ℕ
lock = 76 ∷ 79 ∷ 67 ∷ 75 ∷ []

abbrev pub info_log : List ℕ
info_log = 76 ∷ 79 ∷ 71 ∷ []

abbrev pub old_info_log : List ℕ
old_info_log = 76 ∷ 79 ∷ 71 ∷ 46 ∷ 111 ∷ 108 ∷ 100 ∷ []

abbrev pub manifest : List ℕ
manifest = 77 ∷ 65 ∷ 78 ∷ 73 ∷ 70 ∷ 69 ∷ 83 ∷ 84 ∷ 45 ∷ []

-- DescriptorFileName; it asserts that the number is not 0.
unfoldable pub descriptor_file_name : List ℕ → ℕ → List ℕ
descriptor_file_name dbname number = dbname ++ 47 ∷ manifest ++ padded_number number

-- CurrentFileName, LockFileName, InfoLogFileName and OldInfoLogFileName
unfoldable pub current_file_name : List ℕ → List ℕ
current_file_name dbname = dbname ++ 47 ∷ current_name

unfoldable pub lock_file_name : List ℕ → List ℕ
lock_file_name dbname = dbname ++ 47 ∷ lock

unfoldable pub info_log_file_name : List ℕ → List ℕ
info_log_file_name dbname = dbname ++ 47 ∷ info_log

unfoldable pub old_info_log_file_name : List ℕ → List ℕ
old_info_log_file_name dbname = dbname ++ 47 ∷ old_info_log

-- Equality of string views, and starts_with.
unfoldable pub same : List ℕ → List ℕ → Bool
same [] [] = true
same [] (_ ∷ _) = false
same (_ ∷ _) [] = false
same (x ∷ xs) (y ∷ ys) = (x == y) && same xs ys

unfoldable pub starts_with : List ℕ → List ℕ → Bool
starts_with _ [] = true
starts_with [] (_ ∷ _) = false
starts_with (x ∷ xs) (y ∷ ys) = (x == y) && starts_with xs ys

unfoldable pub is_empty : List ℕ → Bool
is_empty [] = true
is_empty (_ ∷ _) = false

-- The value of a digit, 36 for a byte that is none.
unfoldable pub digit : ℕ → ℕ
digit c =
    if leb 48 c && leb c 57
    then c - 48
    else if leb 65 c && leb c 90
    then c - 55
    else if leb 97 c && leb c 122
    then c - 87
    else 36

-- The digits of a base up to the first byte that is none.
unfoldable pub value_of : ℕ → ℕ → List ℕ → ℕ
value_of _ n [] = n
value_of base n (c ∷ cs) =
    let more = value_of base (n * base + digit c) cs in if ltb (digit c) base then more else n

-- strtoull in base 0, behind spaces and a sign: "0x" with a digit behind it is base 16, another 0 is
-- base 8.
unfoldable pub is_hex : List ℕ → Bool
is_hex (x ∷ d ∷ _) = (x == 120 || x == 88) && ltb (digit d) 16
is_hex _ = false

unfoldable pub in_base : List ℕ → ℕ
in_base [] = 0
in_base (c ∷ cs) =
    if c == 48
    then (if is_hex cs then value_of 16 0 (drop 1 cs) else value_of 8 0 cs)
    else value_of 10 0 (c ∷ cs)

-- A number of more than 64 bits is the largest one; a minus sign counts down from 2 ^ 64.
unfoldable pub negated : ℕ → ℕ
negated n = if ltb n (2 ^ 64) then (2 ^ 64 - n) % 2 ^ 64 else 2 ^ 64 - 1

unfoldable pub signed : List ℕ → ℕ
signed [] = 0
signed (c ∷ cs) =
    if c == 45
    then negated (in_base cs)
    else min (2 ^ 64 - 1) (if c == 43 then in_base cs else in_base (c ∷ cs))

unfoldable pub is_space : ℕ → Bool
is_space c = c == 32 || leb 9 c && leb c 13

unfoldable pub strtoull : List ℕ → ℕ
strtoull [] = 0
strtoull (c ∷ cs) = let behind = strtoull cs in if is_space c then behind else signed (c ∷ cs)

-- The name from its first '.' on. A name without one is cut at npos, which is undefined; it is read
-- here as a name with no suffix.
unfoldable pub suffix_of : List ℕ → List ℕ
suffix_of [] = []
suffix_of (c ∷ cs) = let rest = suffix_of cs in if c == 46 then c ∷ cs else rest

-- ParsefileName: the number and the type, none for false, where neither is assigned. By the
-- suffix, behind "MANIFEST-", and the whole.
unfoldable pub type_of : List ℕ → Option FileType
type_of suffix =
    if same suffix (46 ∷ 108 ∷ 111 ∷ 103 ∷ [])
    then some log_file
    else if same suffix (46 ∷ 115 ∷ 115 ∷ 116 ∷ []) || same suffix (46 ∷ 108 ∷ 100 ∷ 98 ∷ [])
    then some table_file
    else if same suffix (46 ∷ 100 ∷ 98 ∷ 116 ∷ 109 ∷ 112 ∷ [])
    then some temp_file
    else none

unfoldable pub with_number : ℕ → Option FileType → Option (ℕ × FileType)
with_number n none = none
with_number n (some t) = some (n, t)

unfoldable pub parse_descriptor : List ℕ → Option (ℕ × FileType)
parse_descriptor rest = if is_empty rest then some (strtoull rest, descriptor_file) else none

unfoldable pub parse_file_name : List ℕ → Option (ℕ × FileType)
parse_file_name name =
    if same name current_name
    then some (0, current_file)
    else if same name lock
    then some (0, lock_file)
    else if same name info_log || same name old_info_log
    then some (0, info_log_file)
    else if starts_with name manifest
    then parse_descriptor (drop 9 name)
    else with_number (strtoull name) (type_of (suffix_of name))
