-- ===== src/Bloom/Match.antt =====
-- A filter matches every key that it was made of.
use yubindb.Prelude.{
  ℕ, zero, suc, ◌+◌, ◌-◌, ◌*◌, ◌/◌, ◌%◌, ◌^◌, ◌≤◌, ◌<◌, ◌≡◌, ◌⊎◌, refl, ap, ◌∙◌, Bool-cases, inl,
  inr, true, false, List, [], ◌∷◌, ◌++◌, ltb, length, length-append, length-replicate, replicate,
  get_or, arith, le→not-ltb, zero-bit_and,
}
use native.Mathlib.Nat.{mod-lt}
use yubindb.Bloom.{
  BloomFilter, rotate, set_bit, has_bit, set_probes, test_probes, filter_bytes, bloom_hash,
  set_keys, create_filter, key_may_match,
}
use yubindb.Bloom.Bits.{length-set_bit, has_bit-set_bit, has_bit_kept}

length-set_probes : (k bits d h : ℕ) (a : List ℕ) → length (set_probes k bits d h a) ≡ length a
unfolding set_probes
length-set_probes zero bits d h a = refl
length-set_probes (suc k) bits d h a =
    length-set_probes k bits d ((h + d) % 2 ^ 32) (set_bit (h % bits % 2 ^ 32) a)
    ∙ length-set_bit (h % bits % 2 ^ 32) a

set_probes_keep :
    (k bits d h p : ℕ) (a : List ℕ)
    → has_bit p a ≡ true
    → has_bit p (set_probes k bits d h a) ≡ true
unfolding set_probes
set_probes_keep zero bits d h p a e = e
set_probes_keep (suc k) bits d h p a e =
    set_probes_keep k bits d ((h + d) % 2 ^ 32) p (set_bit (h % bits % 2 ^ 32) a)
      (has_bit_kept p (h % bits % 2 ^ 32) a e)

test_probes_keep :
    (k bits d h : ℕ) (a b : List ℕ)
    → ((p : ℕ) → has_bit p a ≡ true → has_bit p b ≡ true)
    → test_probes k bits d h a ≡ true
    → test_probes k bits d h b ≡ true
unfolding test_probes
test_probes_keep zero bits d h a b more e = refl
test_probes_keep (suc k) bits d h a b more e = elim (Bool-cases (has_bit (h % bits % 2 ^ 32) a)) [
  | inl set ↦
      rw (more (h % bits % 2 ^ 32) set)
        (test_probes_keep k bits d ((h + d) % 2 ^ 32) a b more (rw set at e))
  | inr clear ↦ absurd (ground (arith, rw clear at e))
]

module _ (bytes : ℕ) (some_byte : 0 < bytes) where
  probe_inside : (h : ℕ) → h % (bytes * 8) % 2 ^ 32 / 8 < bytes
  probe_inside h =
      let inside : h % (bytes * 8) < bytes * 8 = mod-lt h (omega arith) in
      let word : h % (bytes * 8) % 2 ^ 32 ≤ h % (bytes * 8) = omega arith in omega arith

  -- The probes of a key are found where they were set.
  test_probes-set_probes :
      (k d h : ℕ) (a : List ℕ)
      → length a ≡ bytes
      → test_probes k (bytes * 8) d h (set_probes k (bytes * 8) d h a) ≡ true
  unfolding test_probes set_probes
  test_probes-set_probes zero d h a e = refl
  test_probes-set_probes (suc k) d h a e =
      let p = h % (bytes * 8) % 2 ^ 32 in
      let h' = (h + d) % 2 ^ 32 in
      let set : has_bit p (set_bit p a) ≡ true = has_bit-set_bit p a (rw e (probe_inside h)) in
      rw (set_probes_keep k (bytes * 8) d h' p (set_bit p a) set)
        (test_probes-set_probes k d h' (set_bit p a) (length-set_bit p a ∙ e))

  module _ (hash : List ℕ → ℕ) (k : ℕ) where
    length-set_keys :
        (keys : List (List ℕ)) (a : List ℕ) → length (set_keys hash k (bytes * 8) keys a) ≡ length a
    unfolding set_keys
    length-set_keys [] a = refl
    length-set_keys (key ∷ keys) a =
        let h = bloom_hash hash key in
        length-set_keys keys (set_probes k (bytes * 8) (rotate h) h a)
        ∙ length-set_probes k (bytes * 8) (rotate h) h a

    set_keys_keep :
        (keys : List (List ℕ)) (p : ℕ) (a : List ℕ)
        → has_bit p a ≡ true
        → has_bit p (set_keys hash k (bytes * 8) keys a) ≡ true
    unfolding set_keys
    set_keys_keep [] p a e = e
    set_keys_keep (key ∷ keys) p a e =
        let h = bloom_hash hash key in
        set_keys_keep keys p (set_probes k (bytes * 8) (rotate h) h a)
          (set_probes_keep k (bytes * 8) (rotate h) h p a e)

    test_probes-set_keys :
        (before after : List (List ℕ)) (key : List ℕ) (a : List ℕ)
        → length a ≡ bytes
        → let h = bloom_hash hash key in
          test_probes k
            (bytes * 8)
            (rotate h)
            h
            (set_keys hash k (bytes * 8) (before ++ key ∷ after) a)
          ≡ true
    unfolding set_keys
    test_probes-set_keys [] after key a e =
        let h = bloom_hash hash key in
        let b = set_probes k (bytes * 8) (rotate h) h a in
        test_probes_keep k (bytes * 8) (rotate h) h b (set_keys hash k (bytes * 8) after b)
          (λ p set. set_keys_keep after p b set) (test_probes-set_probes k (rotate h) h a e)
    test_probes-set_keys (other ∷ before) after key a e =
        let h = bloom_hash hash other in
        test_probes-set_keys before after key (set_probes k (bytes * 8) (rotate h) h a)
          (length-set_probes k (bytes * 8) (rotate h) h a ∙ e)

get_or-append :
    (i : ℕ) (xs ys : List ℕ) → (get_or (xs ++ ys) i 0 ≡ get_or xs i 0) ⊎ (get_or xs i 0 ≡ 0)
get_or-append i [] ys = inr refl
get_or-append zero (x ∷ xs) ys = inl refl
get_or-append (suc i) (x ∷ xs) ys = get_or-append i xs ys

get_or_last : (xs : List ℕ) (y : ℕ) → get_or (xs ++ y ∷ []) (length xs) 0 ≡ y
get_or_last [] y = refl
get_or_last (x ∷ xs) y = get_or_last xs y

has_bit-append : (xs ys : List ℕ) (p : ℕ) → has_bit p xs ≡ true → has_bit p (xs ++ ys) ≡ true
unfolding has_bit
has_bit-append xs ys p set = elim (get_or-append (p / 8) xs ys) [
  | inl same ↦ rw same set
  | inr nothing ↦ absurd (ground (arith, nothing, set, zero-bit_and (2 ^ (p % 8))))
]

filter_bytes-pos : (f : BloomFilter) (n : ℕ) → f.bits_key * n + 7 < 2 ^ 64 → 8 ≤ filter_bytes f n
unfolding filter_bytes
filter_bytes-pos f n h = ground arith

-- No false negatives: every key that a filter was made of matches it, whatever the hash is.
pub key_may_match-create_filter :
    (hash : List ℕ → ℕ) (f : BloomFilter) (before after : List (List ℕ)) (key : List ℕ)
    → f.hash_size ≤ 30
    → f.bits_key * length (before ++ key ∷ after) + 7 < 2 ^ 64
    → key_may_match hash key (create_filter hash f (before ++ key ∷ after) []) ≡ true
unfolding key_may_match create_filter
key_may_match-create_filter hash f before after key few small =
    let keys = before ++ key ∷ after in
    let bytes = filter_bytes f (length keys) in
    let array = set_keys hash f.hash_size (bytes * 8) keys (replicate bytes 0) in
    let h = bloom_hash hash key in
    let some_byte : 8 ≤ bytes = filter_bytes-pos f (length keys) small in
    let size : length (array ++ (f.hash_size % 256) ∷ []) ≡ bytes + 1 = omega (
      arith,
      length-append array ((f.hash_size % 256) ∷ []),
      length-set_keys bytes (omega arith) hash f.hash_size keys (replicate bytes 0),
      length-replicate {A = ℕ} bytes 0,
    ) in
    let last : get_or (array ++ (f.hash_size % 256) ∷ []) (bytes + 1 - 1) 0 ≡ f.hash_size =
      ap (λ i. get_or (array ++ (f.hash_size % 256) ∷ []) i 0)
        (omega (arith, size, length-append array ((f.hash_size % 256) ∷ [])))
      ∙ get_or_last array (f.hash_size % 256)
      ∙ omega arith in
    let long : ltb (bytes + 1) 2 ≡ false = le→not-ltb (bytes + 1) 2 (omega (arith, some_byte)) in
    let probes : ltb 30 f.hash_size ≡ false = le→not-ltb 30 f.hash_size few in
    let all_bits : (bytes + 1 - 1) * 8 ≡ bytes * 8 = omega arith in
    let found =
      test_probes_keep f.hash_size (bytes * 8) (rotate h) h array
        (array ++ (f.hash_size % 256) ∷ []) (has_bit-append array ((f.hash_size % 256) ∷ []))
        (test_probes-set_keys bytes (omega (arith, some_byte)) hash f.hash_size before after key
          (replicate bytes 0) (length-replicate {A = ℕ} bytes 0)) in
    rw (size, long, last, probes, all_bits, found)
