-- ===== src/Builder/Saved.antt =====
-- The tables that SaveTo leaves at a level.
use Prim.Native.Nat.{Ordering}
use yubindb.Prelude.{
  ℕ, ◌≡◌, ◌≢◌, refl, ap, ◌⊎◌, inl, inr, Bool, true, false, ◌&&◌, ◌||◌, not, some, List, [], ◌∷◌,
  ◌++◌, ◌==◌, ltb, All, All-map, arith, Bool-cases, Option-cases, not-ltb→le,
}
use yubindb.Key.{InternalKey, FileMate, cmp}
use yubindb.Key.Order.{cmp_trans, cmp-flip}
use yubindb.Version.{is_below}
use yubindb.Version.Find.{IsSorted, is_below→lt, not-is_below}
use yubindb.Compaction.Range.{not_above_trans}
use yubindb.Builder.{
  LevelState, is_deleted, maybe_add_file, add_files, split_at_upper, merge_files, no_overlap,
  save_level,
}

-- A table of the list has the number.
abbrev pub has_number : ℕ → List FileMate → Bool
has_number n [] = false
has_number n (f ∷ fs) = n == f.num || has_number n fs

has_number-append :
    (n : ℕ) (fs gs : List FileMate) → has_number n (fs ++ gs) ≡ (has_number n fs || has_number n gs)
has_number-append n [] gs = refl
has_number-append n (f ∷ fs) gs = ground (arith, has_number-append n fs gs)

same_deleted :
    (deleted : List ℕ) (n m : ℕ) → (n == m) ≡ true → is_deleted deleted n ≡ is_deleted deleted m
same_deleted deleted n m h = ap (is_deleted deleted) (ground arith)

maybe_add_file_lem :
    (level : ℕ) (deleted : List ℕ) (f : FileMate) (files r : List FileMate) (n : ℕ)
    → maybe_add_file level deleted f files ≡ some r
    → has_number n r ≡ (has_number n files || (n == f.num && not (is_deleted deleted n)))
unfolding maybe_add_file
maybe_add_file_lem level deleted f files r n h =
    ground (arith, h, has_number-append n files (f ∷ []), same_deleted deleted n f.num)

add_files_lem :
    (level : ℕ) (deleted : List ℕ) (fs files r : List FileMate) (n : ℕ)
    → add_files level deleted fs files ≡ some r
    → has_number n r ≡ (has_number n files || (has_number n fs && not (is_deleted deleted n)))
unfolding add_files
add_files_lem level deleted [] files r n h = ground (arith, h)
add_files_lem level deleted (f ∷ fs) files r n h =
    elim (Option-cases (maybe_add_file level deleted f files)) [
      | inl e ↦ absurd (ground (arith, h, e))
      | inr (more, e) ↦
          let one = maybe_add_file_lem level deleted f files more n e in
          let rest = add_files_lem level deleted fs more r n (rw (e, add_files) at h) in
          ground (arith, one, rest)
    ]

split_at_upper_lem :
    (f : FileMate) (base : List FileMate) (n : ℕ)
    → has_number n base
      ≡ (has_number n (split_at_upper f base).0 || has_number n (split_at_upper f base).1)
unfolding split_at_upper
split_at_upper_lem f [] n = refl
split_at_upper_lem f (g ∷ gs) n = ground (arith, split_at_upper_lem f gs n)

merge_files_lem :
    (level : ℕ) (deleted : List ℕ) (added base files r : List FileMate) (n : ℕ)
    → merge_files level deleted added base files ≡ some r
    → has_number n r ≡ (
        has_number n files
        || ((has_number n base || has_number n added) && not (is_deleted deleted n)))
unfolding merge_files
merge_files_lem level deleted [] base files r n h =
    ground (arith, add_files_lem level deleted base files r n h)
merge_files_lem level deleted (f ∷ added) base files r n h =
    let before = (split_at_upper f base).0 in
    let behind = (split_at_upper f base).1 in
    elim (Option-cases (add_files level deleted before files)) [
      | inl e ↦ absurd (ground (arith, h, e))
      | inr (files1, e) ↦ elim (Option-cases (maybe_add_file level deleted f files1)) [
        | inl k ↦ absurd (ground (arith, h, e, k))
        | inr (files2, k) ↦
            let first = add_files_lem level deleted before files files1 n e in
            let second = maybe_add_file_lem level deleted f files1 files2 n k in
            let rest =
              merge_files_lem level deleted added behind files2 r n
                (rw (e, merge_files, k, merge_files) at h) in
            ground (arith, first, second, rest, split_at_upper_lem f base n)
      ]
    ]

-- A range is not upside down.
abbrev pub IsRange : FileMate → Type 0
IsRange f = cmp f.smallest f.largest ≢ Ordering.gt

at_most : (a b : InternalKey) → cmp a b ≢ Ordering.lt → cmp b a ≢ Ordering.gt
at_most a b h = ground (arith, h, cmp-flip a b)

-- A key that is before the start of a range is before its end.
before_range :
    (k : InternalKey) (g : FileMate)
    → cmp k g.smallest ≡ Ordering.lt
    → IsRange g
    → cmp k g.largest ≡ Ordering.lt
before_range k g h range = elim (Bool-cases (is_below (cmp k g.largest))) [
  | inl e ↦ is_below→lt _ e
  | inr e ↦ absurd (
      ground (
        arith,
        h,
        cmp-flip g.smallest k,
        not_above_trans g.smallest g.largest k range (at_most k g.largest (not-is_below _ e)),
      ))
]

no_overlap-IsSorted : (fs : List FileMate) → All IsRange fs → no_overlap fs ≡ true → IsSorted fs
unfolding no_overlap is_below
no_overlap-IsSorted [] h e = tt
no_overlap-IsSorted (f ∷ []) h e = (tt, tt)
no_overlap-IsSorted (f ∷ g ∷ gs) h e =
    let rest = no_overlap-IsSorted (g ∷ gs) h.1 (ground (arith, e)) in
    let next : cmp f.largest g.largest ≡ Ordering.lt =
      before_range f.largest g (ground (arith, e)) h.1.0 in
    (
      (next, All-map (λ x later. cmp_trans f.largest g.largest x.largest next later) gs rest.0),
      rest,
    )

-- What SaveTo leaves at a level where no range is upside down: it has the tables of the version
-- and those that were added, by their numbers, less those that are deleted; and at any level but 0
-- the largest keys increase, as FindFile needs.
pub save_level-Saved :
    (level : ℕ) (state : LevelState) (base files : List FileMate)
    → save_level level state base ≡ some files
    → All IsRange files
    → (n : ℕ)
    → (has_number n files ≡ (
        (has_number n base || has_number n state.added_files)
        && not (is_deleted state.deleted_files n)))
      × ((level ≡ 0) ⊎ IsSorted files)
unfolding save_level
save_level-Saved level state base files h ranges n =
    elim (Option-cases (merge_files level state.deleted_files state.added_files base [])) [
      | inl e ↦ absurd (ground (arith, h, e))
      | inr (merged, e) ↦ (
        ground (
          arith,
          h,
          e,
          merge_files_lem level state.deleted_files state.added_files base [] merged n e,
        ),
        elim (Bool-cases (ltb 0 level)) [
          | inl above ↦ inr (no_overlap-IsSorted files ranges (ground (arith, h, e, above)))
          | inr ground_level ↦ inl (omega (arith, not-ltb→le 0 level ground_level))
        ],
      )
    ]
