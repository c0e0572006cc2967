-- ===== src/Merging/Least.antt =====
-- The merging iterator stands at the least key of its children.
use Prim.Native.Nat.{Ordering}
use yubindb.Prelude.{
  ℕ, suc, ◌+◌, ◌≡◌, ◌≢◌, refl, sym, ap, ◌∙◌, subst, ◌⊎◌, inl, inr, true, false, none, some, List,
  [], ◌∷◌, All, arith, Bool-cases, if◌then◌else◌, get_elem?,
}
use yubindb.Key.{cmp}
use yubindb.Key.Order.{cmp_refl, cmp-flip}
use yubindb.Compaction.Range.{not_below_trans}
use yubindb.Version.{is_below}
use yubindb.Version.Find.{is_below→lt, not-is_below}
use yubindb.Iterator.{Wrapper}
use yubindb.Merging.{MergingIter, smallest_from, child_number, find_smallest}

module _ {I : Type 0} where
  -- The keys of the children that are valid.
  abbrev pub valid_keys : List (Wrapper I) → List (List ℕ)
  valid_keys [] = []
  valid_keys (w ∷ ws) = if w.is_valid then w.saved_key ∷ valid_keys ws else valid_keys ws

  -- No valid child is before the key.
  abbrev pub IsLeast : List ℕ → List (Wrapper I) → Type 0
  IsLeast k ws = All (λ x. cmp x k ≢ Ordering.lt) (valid_keys ws)

  IsLeast-cons :
      (k : List ℕ) (w : Wrapper I) (ws : List (Wrapper I))
      → cmp w.saved_key k ≢ Ordering.lt
      → IsLeast k ws
      → IsLeast k (w ∷ ws)
  IsLeast-cons k w ws h rest = elim (Bool-cases w.is_valid) [
    | inl e ↦ rw e (h, rest)
    | inr e ↦ rw e rest
  ]

  IsLeast-skip :
      (k : List ℕ) (w : Wrapper I) (ws : List (Wrapper I))
      → w.is_valid ≡ false
      → IsLeast k ws
      → IsLeast k (w ∷ ws)
  IsLeast-skip k w ws e rest = rw e rest

  -- A child that is found: its number from `i` on, and its key.
  abbrev pub FoundAt : ℕ → List (Wrapper I) → ℕ → List ℕ → Type 0
  FoundAt i ws n k =
      (j : ℕ) × (w : Wrapper I) × (n ≡ i + j)
      × (get_elem? ws j ≡ some w)
      × (w.is_valid ≡ true)
      × (w.saved_key ≡ k)

  FoundAt-later :
      (i : ℕ) (w : Wrapper I) (ws : List (Wrapper I)) (n : ℕ) (k : List ℕ)
      → FoundAt (i + 1) ws n k
      → FoundAt i (w ∷ ws) n k
  FoundAt-later i w ws n k (j, v, e, at, valid, key) = (suc j, v, omega (arith, e), at, valid, key)

  found_later :
      (i b n : ℕ) (k r : List ℕ) (w : Wrapper I) (ws : List (Wrapper I))
      → ((n ≡ b) × (r ≡ k)) ⊎ FoundAt (i + 1) ws n r
      → ((n ≡ b) × (r ≡ k)) ⊎ FoundAt i (w ∷ ws) n r
  found_later i b n k r w ws (inl same) = inl same
  found_later i b n k r w ws (inr found) = inr (FoundAt-later i w ws n r found)

  found_here :
      (i n : ℕ) (r : List ℕ) (w : Wrapper I) (ws : List (Wrapper I))
      → w.is_valid ≡ true
      → ((n ≡ i) × (r ≡ w.saved_key)) ⊎ FoundAt (i + 1) ws n r
      → FoundAt i (w ∷ ws) n r
  found_here i n r w ws e (inl same) = (0, w, omega (arith, same.0), refl, e, sym same.1)
  found_here i n r w ws e (inr found) = FoundAt-later i w ws n r found

  -- The loop when it has a best child: it keeps it, or finds a child with a smaller key.
  smallest_from-some :
      (i b : ℕ) (k : List ℕ) (ws : List (Wrapper I))
      → (n : ℕ) × (r : List ℕ) × (smallest_from i (some (b, k)) ws ≡ some (n, r))
        × (((n ≡ b) × (r ≡ k)) ⊎ FoundAt i ws n r)
        × (cmp k r ≢ Ordering.lt)
        × IsLeast r ws
  unfolding smallest_from
  smallest_from-some i b k [] = (b, k, refl, inl (refl, refl), ground (arith, cmp_refl k), tt)
  smallest_from-some i b k (w ∷ ws) = elim (Bool-cases w.is_valid) [
    | inr e ↦
        let (n, r, eq, found, le, least) = smallest_from-some (i + 1) b k ws in
        (
          n,
          r,
          ground (arith, e, eq),
          found_later i b n k r w ws found,
          le,
          IsLeast-skip r w ws e least,
        )
    | inl e ↦ elim (Bool-cases (is_below (cmp w.saved_key k))) [
      | inl below ↦
          let (n, r, eq, found, le, least) = smallest_from-some (i + 1) i w.saved_key ws in
          (
            n,
            r,
            ground (arith, e, below, eq),
            inr (found_here i n r w ws e found),
            not_below_trans k w.saved_key r
                (ground (arith, cmp-flip w.saved_key k, is_below→lt _ below)) le,
            IsLeast-cons r w ws le least,
          )
      | inr above ↦
          let (n, r, eq, found, le, least) = smallest_from-some (i + 1) b k ws in
          (
            n,
            r,
            ground (arith, e, above, eq),
            found_later i b n k r w ws found,
            le,
            IsLeast-cons r w ws (not_below_trans w.saved_key k r (not-is_below _ above) le) least,
          )
    ]
  ]

  smallest_from-none :
      (i : ℕ) (ws : List (Wrapper I))
      → ((smallest_from i none ws ≡ none) × (valid_keys ws ≡ []))
        ⊎ ((n : ℕ) × (r : List ℕ) × (smallest_from i none ws ≡ some (n, r))
            × FoundAt i ws n r
            × IsLeast r ws)
  unfolding smallest_from
  smallest_from-none i [] = inl (refl, refl)
  smallest_from-none i (w ∷ ws) = elim (Bool-cases w.is_valid) [
    | inl e ↦
        let (n, r, eq, found, le, least) = smallest_from-some (i + 1) i w.saved_key ws in
        inr
          (n, r, ground (arith, e, eq), found_here i n r w ws e found, IsLeast-cons r w ws le least)
    | inr e ↦ elim (smallest_from-none (i + 1) ws) [
      | inl (eq, nothing) ↦ inl (ground (arith, e, eq), rw e nothing)
      | inr (n, r, eq, found, least) ↦
          inr (
            n,
            r,
            ground (arith, e, eq),
            FoundAt-later i w ws n r found,
            IsLeast-skip r w ws e least,
          )
    ]
  ]

  -- FindSmallest: no child is valid and there is no current child, or the current child is valid
  -- and no valid child has a smaller key.
  pub find_smallest-IsLeast :
      (m : MergingIter I)
      → (((find_smallest m).current ≡ none) × (valid_keys m.children ≡ []))
        ⊎ ((n : ℕ) × (w : Wrapper I) × ((find_smallest m).current ≡ some n)
            × (get_elem? m.children n ≡ some w)
            × (w.is_valid ≡ true)
            × IsLeast w.saved_key m.children)
  unfolding find_smallest child_number
  find_smallest-IsLeast m = elim (smallest_from-none 0 m.children) [
    | inl (e, nothing) ↦ inl (ap child_number e, nothing)
    | inr (n, r, e, (j, w, place, at, valid, key), least) ↦ inr (
      n,
      w,
      ap child_number e,
      ap (get_elem? m.children) (omega (arith, place)) ∙ at,
      valid,
      subst (λ k. IsLeast k m.children) (sym key) least,
    )
  ]
