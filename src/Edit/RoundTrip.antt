-- ===== src/Edit/RoundTrip.antt =====
-- EncodeTo and DecodeFrom: an edit without compact pointers comes back, one with some does not.
use yubindb.Prelude.{
  ℕ, suc, ◌+◌, ◌-◌, ◌≡◌, refl, ap, ap₂, sym, ◌∙◌, Bool, true, false, some, List, [], ◌∷◌, ◌++◌,
  length, length-append, append_assoc, append-nil, All, All-append, All-map, arith,
}
use yubindb.State.{State, corruption}
use yubindb.Coding.{IsU64, get_varint32}
use yubindb.Key.{InternalKey, FileMate}
use yubindb.Edit.{
  VersionEdit, clear, set_log_number, set_next_file, set_last_sequence, add_file, pair_lt,
  set_insert, delete_file, encode_to, decode_loop, decode_from,
}
use yubindb.Edit.Fields.{
  Field, log, next_file, last_sequence, pointer, field_bytes, fields_bytes, apply_all, Reads,
  decode_loop-pointer, decode_loop-fields, length-fields_bytes,
}
use yubindb.Edit.Encode.{
  pointer_fields, deleted_fields, new_fields, optional, numbers, fields_bytes-append,
  apply_all-append, encode_to-fields,
}

-- Pairs in the order of the set.
abbrev Above : ℕ × ℕ → List (ℕ × ℕ) → Type 0
Above p = All (λ x. pair_lt p x ≡ true)

abbrev pub IsOrdered : List (ℕ × ℕ) → Type 0
IsOrdered [] = Unit {0}
IsOrdered (x ∷ xs) = Above x xs × IsOrdered xs

set_insert_last :
    (p : ℕ × ℕ) (xs : List (ℕ × ℕ))
    → All (λ x. pair_lt x p ≡ true) xs
    → set_insert p xs ≡ xs ++ p ∷ []
unfolding set_insert pair_lt
set_insert_last p [] h = refl
set_insert_last (a, b) ((c, d) ∷ xs) h = ground (arith, h.0, set_insert_last (a, b) xs h.1)

-- Deleting in order appends.
apply_all-deleted :
    (ps acc : List (ℕ × ℕ)) (e : VersionEdit)
    → All (λ a. Above a ps) acc
    → IsOrdered ps
    → apply_all (record e { deleted_files = acc }) (deleted_fields ps)
      ≡ record e { deleted_files = acc ++ ps }
unfolding delete_file
apply_all-deleted [] acc e h o = ap (λ t. record e { deleted_files = t }) (sym (append-nil acc))
apply_all-deleted ((l, n) ∷ ps) acc e h o =
    let last : set_insert (l, n) acc ≡ acc ++ (l, n) ∷ [] =
      set_insert_last (l, n) acc (All-map (λ x above. above.0) acc h) in
    let before =
      All-append (λ a. Above a ps) acc ((l, n) ∷ []) (All-map (λ x above. above.1) acc h)
        (o.0, tt) in
    ap (λ t. apply_all (record e { deleted_files = t }) (deleted_fields ps)) last
    ∙ apply_all-deleted ps (acc ++ (l, n) ∷ []) e before o.1
    ∙ ap (λ t. record e { deleted_files = t }) (append_assoc acc ((l, n) ∷ []) ps)

apply_all-new :
    (fs acc : List (ℕ × FileMate)) (e : VersionEdit)
    → apply_all (record e { new_files = acc }) (new_fields fs) ≡ record e { new_files = acc ++ fs }
unfolding add_file
apply_all-new [] acc e = ap (λ t. record e { new_files = t }) (sym (append-nil acc))
apply_all-new ((l, f) ∷ fs) acc e =
    apply_all-new fs (acc ++ (l, f) ∷ []) e
    ∙ ap (λ t. record e { new_files = t }) (append_assoc acc ((l, f) ∷ []) fs)

-- An edit whose fields are in range: words, existing levels, keys that are not empty, and a set in
-- order. A number that was not set is 0, as Clear leaves it.
pub record IsEdit (e : VersionEdit) : Type 0 where
  pub words : IsU64 e.log_number × IsU64 e.next_file_number × IsU64 e.last_sequence
  pub log_unset : e.has_log_number ≡ false → e.log_number ≡ 0
  pub next_unset : e.has_next_file_number ≡ false → e.next_file_number ≡ 0
  pub last_unset : e.has_last_sequence ≡ false → e.last_sequence ≡ 0
  pub ordered : IsOrdered e.deleted_files
  pub deleted_reads : All Reads (deleted_fields e.deleted_files)
  pub new_reads : All Reads (new_fields e.new_files)

optional-Reads : (b : Bool) (x : Field) → Reads x → All Reads (optional b x)
optional-Reads true x h = (h, tt)
optional-Reads false x h = tt

numbers-Reads : (e : VersionEdit) → IsEdit e → All Reads (numbers e)
numbers-Reads e v =
    let o1 = optional e.has_log_number (log e.log_number) in
    let o2 = optional e.has_next_file_number (next_file e.next_file_number) in
    let o3 = optional e.has_last_sequence (last_sequence e.last_sequence) in
    All-append Reads (o1 ++ o2) o3
      (All-append Reads o1 o2 (optional-Reads e.has_log_number (log e.log_number) v.words.0)
        (optional-Reads e.has_next_file_number (next_file e.next_file_number) v.words.1))
      (optional-Reads e.has_last_sequence (last_sequence e.last_sequence) v.words.2)

log_applied :
    (b : Bool) (n : ℕ) (e : VersionEdit)
    → (b ≡ false → n ≡ 0)
    → apply_all (record e { has_log_number = false; log_number = 0 }) (optional b (log n))
      ≡ record e { has_log_number = b; log_number = n }
unfolding set_log_number
log_applied true n e h = refl
log_applied false n e h =
    ap (λ k. record e { has_log_number = false; log_number = k }) (sym (h refl))

next_applied :
    (b : Bool) (n : ℕ) (e : VersionEdit)
    → (b ≡ false → n ≡ 0)
    → apply_all
        (record e { has_next_file_number = false; next_file_number = 0 })
        (optional b (next_file n))
      ≡ record e { has_next_file_number = b; next_file_number = n }
unfolding set_next_file
next_applied true n e h = refl
next_applied false n e h =
    ap (λ k. record e { has_next_file_number = false; next_file_number = k }) (sym (h refl))

last_applied :
    (b : Bool) (n : ℕ) (e : VersionEdit)
    → (b ≡ false → n ≡ 0)
    → apply_all
        (record e { has_last_sequence = false; last_sequence = 0 })
        (optional b (last_sequence n))
      ≡ record e { has_last_sequence = b; last_sequence = n }
unfolding set_last_sequence
last_applied true n e h = refl
last_applied false n e h =
    ap (λ k. record e { has_last_sequence = false; last_sequence = k }) (sym (h refl))

-- The numbers of `e`, and no file.
abbrev numbered : VersionEdit → VersionEdit → VersionEdit
numbered old e = record e {
  compact_pointers = old.compact_pointers;
  deleted_files = [];
  new_files = [];
}

apply_all-numbers :
    (old e : VersionEdit) → IsEdit e → apply_all (clear old) (numbers e) ≡ numbered old e
unfolding clear
apply_all-numbers old e v =
    let o1 = optional e.has_log_number (log e.log_number) in
    let o2 = optional e.has_next_file_number (next_file e.next_file_number) in
    let o3 = optional e.has_last_sequence (last_sequence e.last_sequence) in
    apply_all-append (clear old) (o1 ++ o2) o3
    ∙ ap (λ t. apply_all t o3)
        (apply_all-append (clear old) o1 o2
          ∙ ap (λ t. apply_all t o2)
              (log_applied e.has_log_number e.log_number (clear old) v.log_unset)
          ∙ next_applied e.has_next_file_number e.next_file_number
              (record (clear old) { has_log_number = e.has_log_number; log_number = e.log_number })
              v.next_unset)
    ∙ last_applied e.has_last_sequence e.last_sequence
        (record (numbered old e) { has_last_sequence = false; last_sequence = 0 }) v.last_unset

-- What the fields of an edit without compact pointers leave.
apply_all-fields :
    (old e : VersionEdit)
    → IsEdit e
    → apply_all
        (clear old)
        ((numbers e ++ deleted_fields e.deleted_files) ++ new_fields e.new_files)
      ≡ record e { compact_pointers = old.compact_pointers }
apply_all-fields old e v =
    let d = deleted_fields e.deleted_files in
    apply_all-append (clear old) (numbers e ++ d) (new_fields e.new_files)
    ∙ ap (λ t. apply_all t (new_fields e.new_files))
        (apply_all-append (clear old) (numbers e) d
          ∙ ap (λ t. apply_all t d) (apply_all-numbers old e v)
          ∙ apply_all-deleted e.deleted_files [] (numbered old e) tt v.ordered)
    ∙ apply_all-new e.new_files [] (record (numbered old e) { deleted_files = e.deleted_files })

decode_loop-end : (fuel : ℕ) (e : VersionEdit) → decode_loop (suc fuel) [] e ≡ some (State.ok, e)
unfolding decode_loop get_varint32
decode_loop-end fuel e = refl

-- DecodeFrom gives back the edit that EncodeTo wrote, if it has no compact pointers. Those of the
-- edit that is decoded into stay.
pub decode_from-encode_to :
    (old e : VersionEdit)
    → IsEdit e
    → e.compact_pointers ≡ []
    → decode_from (encode_to e []) old
      ≡ some (State.ok, record e { compact_pointers = old.compact_pointers })
unfolding decode_from
decode_from-encode_to old e v none_set =
    let d = deleted_fields e.deleted_files in
    let xs = (numbers e ++ d) ++ new_fields e.new_files in
    let bytes : encode_to e [] ≡ fields_bytes xs =
      encode_to-fields e
      ∙ ap (λ p. fields_bytes (((numbers e ++ pointer_fields p) ++ d) ++ new_fields e.new_files))
          none_set
      ∙ ap (λ t. fields_bytes ((t ++ d) ++ new_fields e.new_files)) (append-nil (numbers e)) in
    let reads : All Reads xs =
      All-append Reads (numbers e ++ d) (new_fields e.new_files)
        (All-append Reads (numbers e) d (numbers-Reads e v) v.deleted_reads) v.new_reads in
    let left = length (fields_bytes xs) - length xs in
    let fuel : length (fields_bytes xs) + 1 ≡ length xs + suc left =
      omega (arith, length-fields_bytes xs) in
    ap (λ t. decode_loop (length t + 1) t (clear old)) bytes
    ∙ ap₂ (λ f t. decode_loop f t (clear old)) fuel (sym (append-nil (fields_bytes xs)))
    ∙ decode_loop-fields xs [] (suc left) (clear old) reads
    ∙ decode_loop-end left (apply_all (clear old) xs)
    ∙ ap (λ t. some (State.ok, t)) (apply_all-fields old e v)

-- An edit with a compact pointer is written, and is refused as corrupt when it is read.
pub decode_from_pointers :
    (old e : VersionEdit) (l : ℕ) (k : InternalKey) (ps : List (ℕ × InternalKey))
    → IsEdit e
    → e.compact_pointers ≡ (l, k) ∷ ps
    → (e' : VersionEdit) × (decode_from (encode_to e []) old ≡ some (corruption, e'))
unfolding decode_from
decode_from_pointers old e l k ps v some_set =
    let d = deleted_fields e.deleted_files in
    let n = new_fields e.new_files in
    let q = pointer l k ∷ pointer_fields ps in
    let rest = fields_bytes (pointer_fields ps ++ (d ++ n)) in
    let at_pointer = field_bytes (pointer l k) ++ rest in
    let bytes : encode_to e [] ≡ fields_bytes (numbers e) ++ at_pointer =
      encode_to-fields e
      ∙ ap (λ p. fields_bytes (((numbers e ++ pointer_fields p) ++ d) ++ n)) some_set
      ∙ ap fields_bytes (append_assoc (numbers e ++ q) d n ∙ append_assoc (numbers e) q (d ++ n))
      ∙ fields_bytes-append (numbers e) (q ++ (d ++ n)) in
    let total = fields_bytes (numbers e) ++ at_pointer in
    let left = length total - length (numbers e) in
    let fuel : length total + 1 ≡ length (numbers e) + suc left = omega (
      arith,
      length-fields_bytes (numbers e),
      length-append (fields_bytes (numbers e)) at_pointer,
    ) in
    (
      apply_all (clear old) (numbers e),
      ap (λ t. decode_loop (length t + 1) t (clear old)) bytes
          ∙ ap (λ f. decode_loop f total (clear old)) fuel
          ∙ decode_loop-fields (numbers e) at_pointer (suc left) (clear old) (numbers-Reads e v)
          ∙ decode_loop-pointer l k rest left (apply_all (clear old) (numbers e)),
    )
