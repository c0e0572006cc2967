-- ===== src/VersionSet/Manifest.antt =====
-- Recover reads the edits of a manifest back.
use yubindb.Prelude.{
  ℕ, ◌+◌, ◌-◌, if◌then◌else◌, leb, true, ◌≡◌, refl, sym, ap, ◌∙◌, inl, inr, Bool, false, Option,
  none, some, List, [], ◌∷◌, ◌++◌, All, arith, Option-cases, length, get_or, take, length-append,
  take-append, append-nil,
}
use yubindb.State.{State, corruption, is_ok}
use yubindb.Key.{InternalKey, FileMate}
use yubindb.Edit.{VersionEdit, encode_to, decode_from}
use yubindb.Edit.RoundTrip.{IsEdit, decode_from-encode_to, decode_from_pointers}
use yubindb.Version.{Version}
use yubindb.Builder.{Builder, new_builder, apply, save_to}
use yubindb.VersionSet.{
  VersionSet, empty_edit, Recovery, or_keep, take_edit, recover_records, missing_entry, or_zero,
  score_entry, write_score, finalize, install, recover,
}

-- An edit that the manifest can hold: its fields are in range, and it has no compact pointer.
abbrev pub IsPlain : VersionEdit → Type 0
IsPlain e = IsEdit e × (e.compact_pointers ≡ [])

abbrev pub records_of : List VersionEdit → List (List ℕ)
records_of [] = []
records_of (e ∷ es) = encode_to e [] ∷ records_of es

-- The edits taken one by one.
abbrev pub take_edits : List VersionEdit → Recovery → Recovery
take_edits [] r = r
take_edits (e ∷ es) r = take_edits es (take_edit State.ok e r)

decode_from-IsPlain :
    (e : VersionEdit) → IsPlain e → decode_from (encode_to e []) empty_edit ≡ some (State.ok, e)
decode_from-IsPlain e h =
    decode_from-encode_to empty_edit e h.0 h.1
    ∙ ap (λ ps. some (State.ok, record e { compact_pointers = ps })) (sym h.1)

recover_records-records_of :
    (es : List VersionEdit) (more : List (List ℕ)) (r : Recovery)
    → All IsPlain es
    → r.state ≡ State.ok
    → recover_records (records_of es ++ more) r ≡ recover_records more (take_edits es r)
unfolding recover_records is_ok take_edit
recover_records-records_of [] more r h ok = refl
recover_records-records_of (e ∷ es) more r h ok =
    rw (ok, decode_from-IsPlain e h.0, recover_records)
      (recover_records-records_of es more (take_edit State.ok e r) h.1 refl)

take_edits-state :
    (es : List VersionEdit) (r : Recovery) → r.state ≡ State.ok → (take_edits es r).state ≡ State.ok
unfolding take_edit
take_edits-state [] r ok = ok
take_edits-state (e ∷ es) r ok = take_edits-state es (take_edit State.ok e r) refl

missing_entry-ok :
    (r : Recovery) (next log seq : ℕ)
    → r.next_file ≡ some next
    → r.log ≡ some log
    → r.sequence ≡ some seq
    → missing_entry r ≡ State.ok
unfolding missing_entry
missing_entry-ok r next log seq n l q = rw (n, l, q) refl

-- The first of two that is there.
abbrev pub or_else : Option ℕ → Option ℕ → Option ℕ
or_else none old = old
or_else (some n) old = some n

-- The last number that a row of edits sets, by its flag and its field.
abbrev pub last_set : (VersionEdit → Bool) → (VersionEdit → ℕ) → List VersionEdit → Option ℕ
last_set has number [] = none
last_set has number (e ∷ es) =
    or_else (last_set has number es) (if has e then some (number e) else none)

abbrev pub last_log : List VersionEdit → Option ℕ
last_log = last_set (λ e. e.has_log_number) (λ e. e.log_number)

abbrev pub last_next : List VersionEdit → Option ℕ
last_next = last_set (λ e. e.has_next_file_number) (λ e. e.next_file_number)

abbrev pub last_sequence_of : List VersionEdit → Option ℕ
last_sequence_of = last_set (λ e. e.has_last_sequence) (λ e. e.last_sequence)

-- A builder with a row of edits applied in order.
abbrev pub apply_all : List VersionEdit → Builder → Builder
apply_all [] b = b
apply_all (e ∷ es) b = apply_all es (apply e b)

or_else-or_keep :
    (o : Option ℕ) (has : Bool) (n : ℕ) (old : Option ℕ)
    → or_else o (or_keep has n old) ≡ or_else (or_else o (if has then some n else none)) old
unfolding or_keep
or_else-or_keep (some x) has n old = refl
or_else-or_keep none false n old = refl
or_else-or_keep none true n old = refl

take_edits-log :
    (es : List VersionEdit) (r : Recovery) → (take_edits es r).log ≡ or_else (last_log es) r.log
unfolding take_edit
take_edits-log [] r = refl
take_edits-log (e ∷ es) r =
    take_edits-log es (take_edit State.ok e r)
    ∙ or_else-or_keep (last_log es) e.has_log_number e.log_number r.log

take_edits-next :
    (es : List VersionEdit) (r : Recovery)
    → (take_edits es r).next_file ≡ or_else (last_next es) r.next_file
unfolding take_edit
take_edits-next [] r = refl
take_edits-next (e ∷ es) r =
    take_edits-next es (take_edit State.ok e r)
    ∙ or_else-or_keep (last_next es) e.has_next_file_number e.next_file_number r.next_file

take_edits-sequence :
    (es : List VersionEdit) (r : Recovery)
    → (take_edits es r).sequence ≡ or_else (last_sequence_of es) r.sequence
unfolding take_edit
take_edits-sequence [] r = refl
take_edits-sequence (e ∷ es) r =
    take_edits-sequence es (take_edit State.ok e r)
    ∙ or_else-or_keep (last_sequence_of es) e.has_last_sequence e.last_sequence r.sequence

take_edits-builder :
    (es : List VersionEdit) (r : Recovery) → (take_edits es r).builder ≡ apply_all es r.builder
unfolding take_edit is_ok
take_edits-builder [] r = refl
take_edits-builder (e ∷ es) r = take_edits-builder es (take_edit State.ok e r)

-- The variables of Recover when the manifest is open.
abbrev pub opened : VersionSet → Recovery
opened vs = record {
  state = State.ok;
  builder = new_builder vs.nowversion vs.compact_pointer;
  log = none;
  next_file = none;
  sequence = none;
}

recover_records-stops :
    (ptr : List ℕ) (more : List (List ℕ)) (edit : VersionEdit) (r : Recovery)
    → r.state ≡ State.ok
    → decode_from ptr empty_edit ≡ some (corruption, edit)
    → recover_records (ptr ∷ more) r ≡ some (take_edit corruption edit r)
unfolding recover_records is_ok take_edit
recover_records-stops ptr [] edit r ok read = rw (ok, read, recover_records)
recover_records-stops ptr (p ∷ more) edit r ok read = rw (ok, read, recover_records)

get_or-end : (xs : List ℕ) (x : ℕ) → get_or (xs ++ x ∷ []) (length xs) 0 ≡ x
get_or-end [] x = refl
get_or-end (y ∷ xs) x = get_or-end xs x

-- The tables of the current version of a result, or of the version set where there is none.
abbrev files_after : VersionSet → Option (State × Bool × VersionSet) → List (List FileMate)
files_after vs none = vs.nowversion.files
files_after vs (some (s, save, after)) = after.nowversion.files

module _ (score : Version → Bool × Option ℕ) where
  recover_lem :
      (name : List ℕ) (records : List (List ℕ)) (read_file : List ℕ → State × List (List ℕ))
      (vs : VersionSet)
      → read_file name ≡ (State.ok, records)
      → recover score (State.ok, name ++ 10 ∷ []) read_file vs
        ≡ elim (recover_records records (opened vs)) [ none ↦ none | some r ↦ install score r vs ]
  unfolding recover is_ok
  recover_lem name records read_file vs e =
      let here : length (name ++ 10 ∷ []) - 1 ≡ length name =
        omega (arith, length-append name (10 ∷ [])) in
      rw (here, get_or-end name 10, take-append (length name) name (10 ∷ []) refl, e, recover) refl

  recover-take_edits :
      (name : List ℕ) (es : List VersionEdit) (read_file : List ℕ → State × List (List ℕ))
      (vs : VersionSet)
      → All IsPlain es
      → read_file name ≡ (State.ok, records_of es)
      → recover score (State.ok, name ++ 10 ∷ []) read_file vs
        ≡ install score (take_edits es (opened vs)) vs
  unfolding recover_records
  recover-take_edits name es read_file vs h e =
      recover_lem name (records_of es) read_file vs e
      ∙ ap (λ r. elim r [ none ↦ none | some t ↦ install score t vs ])
          (ap (λ ptrs. recover_records ptrs (opened vs)) (sym (append-nil (records_of es)))
            ∙ recover_records-records_of es [] (opened vs) h refl)

  finalize-keeps :
      (b : Bool) (n : ℕ) (v : Version) (seen : VersionSet)
      → let vs : VersionSet = if b then record seen { next_file_number = n } else seen in
        ((finalize score v vs).versionlist
          ≡ score_entry seen.now_position (score v) seen.versionlist)
        × ((finalize score v vs).descriptor_log ≡ seen.descriptor_log)
        × ((finalize score v vs).nowversion ≡ write_score (score v) seen.nowversion)
  unfolding finalize
  finalize-keeps true n v seen = (refl, refl, refl)
  finalize-keeps false n v seen = (refl, refl, refl)

  -- Of a manifest of edits in range without compact pointers, Recover stores the last number of
  -- each kind that an edit sets, and the next file number one behind the manifest's own. If SaveTo
  -- makes a version of the tables of the current one and of all edits in order, it goes to the
  -- front of the list of versions. The current version stays, and gets the score of the new one, as
  -- does its entry of the list. The manifest has to set each number.
  pub recover-records_of :
      (name : List ℕ) (es : List VersionEdit) (read_file : List ℕ → State × List (List ℕ))
      (vs : VersionSet) (log next seq : ℕ) (v : Version)
      → All IsPlain es
      → read_file name ≡ (State.ok, records_of es)
      → last_log es ≡ some log
      → last_next es ≡ some next
      → last_sequence_of es ≡ some seq
      → save_to (apply_all es (new_builder vs.nowversion vs.compact_pointer)) ≡ some v
      → (after : VersionSet) × (recover score (State.ok, name ++ 10 ∷ []) read_file vs
          ≡ some (State.ok, true, after))
        × (after.versionlist ≡ v ∷ score_entry vs.now_position (score v) vs.versionlist)
        × (after.log_number ≡ log)
        × (after.manifest_file_number ≡ next)
        × (after.next_file_number ≡ next + 1)
        × (after.last_sequence ≡ seq)
        × (after.descriptor_log ≡ vs.descriptor_log)
        × (after.nowversion ≡ write_score (score v) vs.nowversion)
  unfolding install is_ok or_zero
  recover-records_of name es read_file vs log next seq v h e hl hn hs built =
      let r = take_edits es (opened vs) in
      let state = take_edits-state es (opened vs) refl in
      let l : r.log ≡ some log = take_edits-log es (opened vs) ∙ ap (λ o. or_else o none) hl in
      let n : r.next_file ≡ some next =
        take_edits-next es (opened vs) ∙ ap (λ o. or_else o none) hn in
      let q : r.sequence ≡ some seq =
        take_edits-sequence es (opened vs) ∙ ap (λ o. or_else o none) hs in
      let b : save_to r.builder ≡ some v = ap save_to (take_edits-builder es (opened vs)) ∙ built in
      let found : missing_entry r ≡ State.ok = missing_entry-ok r next log seq n l q in
      let l0 : or_zero r.log ≡ log = ap or_zero l in
      let n0 : or_zero r.next_file ≡ next = ap or_zero n in
      let q0 : or_zero r.sequence ≡ seq = ap or_zero q in
      let seen : VersionSet = record vs { compact_pointer = r.builder.compact_pointer } in
      let checked : VersionSet =
        if leb vs.next_file_number vs.log_number
        then record seen { next_file_number = vs.log_number + 1 }
        else seen in
      let kept =
        finalize-keeps (leb vs.next_file_number vs.log_number) (vs.log_number + 1) v seen in
      (
        record (finalize score v checked) {
          versionlist = v ∷ (finalize score v checked).versionlist;
          manifest_file_number = next;
          next_file_number = next + 1;
          last_sequence = seq;
          log_number = log;
        },
        recover-take_edits name es read_file vs h e ∙ rw (state, found, b, l0, n0, q0) refl,
        ap (λ l. v ∷ l) kept.0,
        refl,
        refl,
        refl,
        refl,
        kept.1,
        kept.2,
      )

  -- A manifest in which an edit in range has a compact pointer is corrupt for Recover, whatever
  -- edits come before it and whatever records behind it: no version is installed.
  pub recover_pointer :
      (name : List ℕ) (es : List VersionEdit) (bad : VersionEdit) (l : ℕ) (k : InternalKey)
      (ps : List (ℕ × InternalKey)) (more : List (List ℕ))
      (read_file : List ℕ → State × List (List ℕ)) (vs : VersionSet)
      → All IsPlain es
      → IsEdit bad
      → bad.compact_pointers ≡ (l, k) ∷ ps
      → read_file name ≡ (State.ok, records_of es ++ encode_to bad [] ∷ more)
      → (after : VersionSet) × (recover score (State.ok, name ++ 10 ∷ []) read_file vs
          ≡ some (corruption, false, after))
        × (after.nowversion ≡ vs.nowversion)
        × (after.versionlist ≡ vs.versionlist)
  unfolding recover_records install is_ok take_edit
  recover_pointer name es bad l k ps more read_file vs h range some_set e =
      let (edit, read) = decode_from_pointers empty_edit bad l k ps range some_set in
      let before = take_edits es (opened vs) in
      let failed = take_edit corruption edit before in
      let loop : recover_records (records_of es ++ encode_to bad [] ∷ more) (opened vs)
          ≡ some failed =
        recover_records-records_of es (encode_to bad [] ∷ more) (opened vs) h refl
        ∙ recover_records-stops (encode_to bad []) more edit before
            (take_edits-state es (opened vs) refl) read in
      (
        record vs { compact_pointer = failed.builder.compact_pointer },
        recover_lem name (records_of es ++ encode_to bad [] ∷ more) read_file vs e
            ∙ ap (λ r. elim r [ none ↦ none | some t ↦ install score t vs ]) loop,
        refl,
        refl,
      )

  install-nowversion :
      (r : Recovery) (vs : VersionSet) → files_after vs (install score r vs) ≡ vs.nowversion.files
  unfolding install finalize write_score
  install-nowversion r vs = elim (Option-cases (save_to r.builder)) [
    | inl e ↦ ground (arith, e)
    | inr (v, e) ↦ ground (arith, e)
  ]

  recover-files_after :
      (current : State × List ℕ) (read_file : List ℕ → State × List (List ℕ)) (vs : VersionSet)
      → files_after vs (recover score current read_file vs) ≡ vs.nowversion.files
  unfolding recover
  recover-files_after (s, current) read_file vs =
      let (state, records) = read_file (take (length current - 1) current) in
      elim (Option-cases (recover_records records (record (opened vs) { state = state }))) [
        | inl e ↦ ground (arith, e)
        | inr (r, e) ↦ ground (arith, e, install-nowversion r vs)
      ]

  -- Recover leaves the current version with the files it had, whatever it recovers: the version
  -- that it builds is put on the list of versions only.
  pub recover-nowversion :
      (current : State × List ℕ) (read_file : List ℕ → State × List (List ℕ))
      (vs after : VersionSet) (s : State) (save : Bool)
      → recover score current read_file vs ≡ some (s, save, after)
      → after.nowversion.files ≡ vs.nowversion.files
  recover-nowversion current read_file vs after s save h =
      sym (ap (files_after vs) h) ∙ recover-files_after current read_file vs
