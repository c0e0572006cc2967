-- ===== src/Reader/Parse.antt =====
-- The reader takes a physical record off its store as the writer laid it out.
use yubindb.Prelude.{
  ℕ, ◌+◌, ◌*◌, ◌/◌, ◌%◌, ◌^◌, ◌≤◌, ◌<◌, ◌≡◌, refl, ap, sym, ◌∙◌, true, false, List, [], ◌∷◌, ◌++◌,
  length, length-append, take, drop, take-append, drop-append, arith, get_or, bit_or, bit_and,
  bit_or-shifted, bit_and_low8, ltb, ◌==◌,
}
use yubindb.Coding.{encode_fixed32, decode_fixed32}
use yubindb.Coding.Fixed.{decode_fixed32-encode_fixed32}
use yubindb.Crc.{Crc, IsCrc}
use yubindb.Wal.{RecordType, header_size, record_code, header, type_crc}
use yubindb.Wal.Fragments.{physical}
use yubindb.Reader.{LogReader, returned, parse_physical, type_of_byte}

-- The two length bytes hold the length.
size_bytes :
    (n : ℕ)
    → n < 2 ^ 16
    → bit_or (bit_and (bit_and n 255 % 256) 255) (bit_and (n / 256 % 256) 255 * 2 ^ 8) ≡ n
size_bytes n h =
    rw (bit_and_low8 n, bit_and_low8 (n % 256 % 256), bit_and_low8 (n / 256 % 256))
      (omega (arith, bit_or-shifted 8 (n % 256 % 256 % 256) (n / 256 % 256 % 256) (omega arith)))

abbrev pub size_of : List ℕ → ℕ
size_of s = bit_or (bit_and (get_or s 4 0) 255) (bit_and (get_or s 5 0) 255 * 2 ^ 8)

-- What is read off a store that passes the three tests.
parse_passes :
    (crc : Crc) {F : Type 0} (r : LogReader F) (s : List ℕ) (n : ℕ)
    → size_of s ≡ n
    → 0 < n
    → header_size + n ≤ length s
    → crc.crc32c (take (1 + n) (drop 6 s)) ≡ decode_fixed32 s
    → parse_physical crc (record r { backing_store = s })
      ≡ returned
          (type_of_byte (get_or s 6 0))
          (take n (drop header_size s))
          (record r { backing_store = drop (header_size + n) s })
unfolding parse_physical
parse_passes crc r s n size pos long same =
    let enough : ltb (length s) (header_size + n) ≡ false = ground arith in
    let nonzero : (n == 0) ≡ false = ground arith in
    let sum : (crc.crc32c (take (1 + n) (drop 6 s)) == decode_fixed32 s) ≡ true = ground arith in
    rw (size, enough, nonzero, sum) (ground arith)

type_of_byte-record_code : (t : RecordType) → type_of_byte (record_code t) ≡ record_code t
unfolding type_of_byte
type_of_byte-record_code RecordType.zero_type = refl
type_of_byte-record_code RecordType.full_type = refl
type_of_byte-record_code RecordType.first_type = refl
type_of_byte-record_code RecordType.middle_type = refl
type_of_byte-record_code RecordType.last_type = refl

module _ (crc : Crc) (ok : IsCrc crc) (t : RecordType) (chunk rest : List ℕ)
    (h : length chunk < 2 ^ 16) where
  abbrev store : List ℕ
  store = physical crc t chunk ++ rest

  store_size : size_of store ≡ length chunk
  unfolding header encode_fixed32
  store_size = size_bytes (length chunk) h

  store_type : get_or store 6 0 ≡ record_code t
  unfolding header encode_fixed32
  store_type = refl

  store_payload : drop header_size store ≡ chunk ++ rest
  unfolding header encode_fixed32
  store_payload = refl

  store_summed : drop 6 store ≡ (record_code t ∷ chunk) ++ rest
  unfolding header encode_fixed32
  store_summed = refl

  store-length : length store ≡ header_size + length chunk + length rest
  unfolding header encode_fixed32
  store-length = omega (arith, length-append chunk rest)

  store_crc : decode_fixed32 store ≡ crc.crc32c (record_code t ∷ chunk)
  unfolding header encode_fixed32 type_crc decode_fixed32
  store_crc = rw (ok.extends (record_code t ∷ []) chunk) (
      decode_fixed32-encode_fixed32 (crc.crc32c (record_code t ∷ chunk)) []
        (ok.word (record_code t ∷ chunk)))

  -- A non-empty record is taken off the front of the store, and its payload and type are what the
  -- writer was given.
  pub parse_physical-physical :
      {F : Type 0} (r : LogReader F)
      → 0 < length chunk
      → parse_physical crc (record r { backing_store = physical crc t chunk ++ rest })
        ≡ returned (record_code t) chunk (record r { backing_store = rest })
  parse_physical-physical r pos =
      let sum : take (1 + length chunk) (drop 6 store) ≡ record_code t ∷ chunk =
        ap (take (1 + length chunk)) store_summed
        ∙ take-append (1 + length chunk) (record_code t ∷ chunk) rest (omega arith) in
      let front : take (length chunk) (drop header_size store) ≡ chunk =
        ap (take (length chunk)) store_payload ∙ take-append (length chunk) chunk rest refl in
      let back : drop (header_size + length chunk) store ≡ rest =
        drop-append (header_size + length chunk) (physical crc t chunk) rest
          (omega (arith, length-append (physical crc t chunk) rest, store-length)) in
      parse_passes crc r store (length chunk) store_size pos (omega (arith, store-length))
        (ap crc.crc32c sum ∙ sym store_crc)
      ∙ rw (store_type, type_of_byte-record_code t, front, back)
