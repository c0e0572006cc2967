-- ===== src/Edit/Encode.antt =====
-- EncodeTo writes the fields of the edit in a row.
use yubindb.Prelude.{
  ℕ, ◌≡◌, refl, ap, sym, ◌∙◌, Bool, true, false, List, [], ◌∷◌, ◌++◌, if◌then◌else◌, append_assoc,
  append-nil,
}
use yubindb.Coding.{put_varint32, put_varint64, put_length_prefixed}
use yubindb.Key.{InternalKey, FileMate}
use yubindb.Edit.{VersionEdit, encode_pointers, encode_deleted, encode_new, encode_to}
use yubindb.Edit.Fields.{
  Field, log, next_file, last_sequence, pointer, deleted, new_file, field_bytes, fields_bytes,
  apply, apply_all,
}

abbrev pub pointer_fields : List (ℕ × InternalKey) → List Field
pointer_fields [] = []
pointer_fields ((l, k) ∷ ps) = pointer l k ∷ pointer_fields ps

abbrev pub deleted_fields : List (ℕ × ℕ) → List Field
deleted_fields [] = []
deleted_fields ((l, n) ∷ ps) = deleted l n ∷ deleted_fields ps

abbrev pub new_fields : List (ℕ × FileMate) → List Field
new_fields [] = []
new_fields ((l, f) ∷ fs) = new_file l f ∷ new_fields fs

abbrev pub optional : Bool → Field → List Field
optional true x = x ∷ []
optional false x = []

pub fields_bytes-append :
    (xs ys : List Field) → fields_bytes (xs ++ ys) ≡ fields_bytes xs ++ fields_bytes ys
fields_bytes-append [] ys = refl
fields_bytes-append (x ∷ xs) ys =
    ap (λ t. field_bytes x ++ t) (fields_bytes-append xs ys)
    ∙ sym (append_assoc (field_bytes x) (fields_bytes xs) (fields_bytes ys))

pub apply_all-append :
    (e : VersionEdit) (xs ys : List Field) → apply_all e (xs ++ ys) ≡ apply_all (apply_all e xs) ys
apply_all-append e [] ys = refl
apply_all-append e (x ∷ xs) ys = apply_all-append (apply e x) xs ys

-- Each function of EncodeTo appends the bytes of its fields.
encode_pointers-fields :
    (ps : List (ℕ × InternalKey)) (dst : List ℕ)
    → encode_pointers dst ps ≡ dst ++ fields_bytes (pointer_fields ps)
unfolding encode_pointers put_varint32 put_length_prefixed
encode_pointers-fields [] dst = sym (append-nil dst)
encode_pointers-fields ((l, k) ∷ ps) dst = encode_pointers-fields ps _ ∙ simp append_assoc refl

encode_deleted-fields :
    (ps : List (ℕ × ℕ)) (dst : List ℕ)
    → encode_deleted dst ps ≡ dst ++ fields_bytes (deleted_fields ps)
unfolding encode_deleted put_varint32 put_varint64
encode_deleted-fields [] dst = sym (append-nil dst)
encode_deleted-fields ((l, n) ∷ ps) dst = encode_deleted-fields ps _ ∙ simp append_assoc refl

encode_new-fields :
    (fs : List (ℕ × FileMate)) (dst : List ℕ)
    → encode_new dst fs ≡ dst ++ fields_bytes (new_fields fs)
unfolding encode_new put_varint32 put_varint64 put_length_prefixed
encode_new-fields [] dst = sym (append-nil dst)
encode_new-fields ((l, f) ∷ fs) dst = encode_new-fields fs _ ∙ simp append_assoc refl

number_fields :
    (b : Bool) (x : Field) (tag n : ℕ) (dst : List ℕ)
    → field_bytes x ≡ put_varint32 [] tag ++ put_varint64 [] n
    → (if b then put_varint64 (put_varint32 dst tag) n else dst)
      ≡ dst ++ fields_bytes (optional b x)
unfolding put_varint32 put_varint64
number_fields true x tag n dst e =
    append_assoc dst _ _ ∙ ap (λ t. dst ++ t) (sym e ∙ sym (append-nil (field_bytes x)))
number_fields false x tag n dst e = sym (append-nil dst)

abbrev pub numbers : VersionEdit → List Field
numbers e =
    (optional e.has_log_number (log e.log_number)
      ++ optional e.has_next_file_number (next_file e.next_file_number))
    ++ optional e.has_last_sequence (last_sequence e.last_sequence)

abbrev pub fields : VersionEdit → List Field
fields e =
    ((numbers e ++ pointer_fields e.compact_pointers) ++ deleted_fields e.deleted_files)
    ++ new_fields e.new_files

pub encode_to-fields : (e : VersionEdit) → encode_to e [] ≡ fields_bytes (fields e)
unfolding encode_to
encode_to-fields e =
    let o1 = optional e.has_log_number (log e.log_number) in
    let o2 = optional e.has_next_file_number (next_file e.next_file_number) in
    let o3 = optional e.has_last_sequence (last_sequence e.last_sequence) in
    let p = pointer_fields e.compact_pointers in
    let d = deleted_fields e.deleted_files in
    encode_new-fields e.new_files _
    ∙ ap (λ t. t ++ fields_bytes (new_fields e.new_files))
        (encode_deleted-fields e.deleted_files _
          ∙ ap (λ t. t ++ fields_bytes d)
              (encode_pointers-fields e.compact_pointers _
                ∙ ap (λ t. t ++ fields_bytes p)
                    (number_fields e.has_last_sequence (last_sequence e.last_sequence) 2
                        e.last_sequence _ refl
                      ∙ ap (λ t. t ++ fields_bytes o3)
                          (number_fields e.has_next_file_number (next_file e.next_file_number) 1
                              e.next_file_number _ refl
                            ∙ ap (λ t. t ++ fields_bytes o2)
                                (number_fields e.has_log_number (log e.log_number) 0 e.log_number []
                                  refl)))))
    ∙ rw (
      fields_bytes-append ((numbers e ++ p) ++ d) (new_fields e.new_files),
      fields_bytes-append (numbers e ++ p) d,
      fields_bytes-append (numbers e) p,
      fields_bytes-append (o1 ++ o2) o3,
      fields_bytes-append o1 o2,
    )
