-- ===== src/Version/Find.antt =====
-- FindFile returns, and what it returns is a lower bound.
use Prim.Native.Nat.{Ordering}
use yubindb.Prelude.{
  ℕ, zero, suc, ◌+◌, ◌-◌, ◌/◌, ◌%◌, ◌^◌, ◌≤◌, ◌<◌, ◌≡◌, ◌≢◌, refl, sym, ap, ap₂, ◌∙◌, subst, ◌⊎◌,
  inl, inr, true, false, some, List, [], ◌∷◌, ltb, length, get_elem?, take, drop, All, arith,
  Bool-cases, lt→ltb, ltb→lt, not-ltb→le, le→not-ltb, if◌then◌else◌,
}
use native.Mathlib.Nat.{mod-eq_of_lt}
use yubindb.Key.{InternalKey, FileMate, cmp}
use yubindb.Key.Order.{cmp_trans}
use yubindb.Version.{is_below, search_file, find_file}

-- The largest keys of a level increase.
abbrev pub IsSorted : List FileMate → Type 0
IsSorted [] = Unit
IsSorted (f ∷ fs) = All (λ g. cmp f.largest g.largest ≡ Ordering.lt) fs × IsSorted fs

pub some-injective : {A : Type 0} {x y : A} → some x ≡ some y → x ≡ y
some-injective {x} {y} e = ground (arith, e)

get_elem?-All :
    (P : FileMate → Type 0) (fs : List FileMate) (i : ℕ) (f : FileMate)
    → All P fs
    → get_elem? fs i ≡ some f
    → P f
get_elem?-All P [] i f h e = absurd (ground arith)
get_elem?-All P (g ∷ gs) zero f h e = subst P (some-injective e) h.0
get_elem?-All P (g ∷ gs) (suc i) f h e = get_elem?-All P gs i f h.1 e

get_elem?-IsSorted :
    (fs : List FileMate) (i j : ℕ) (f g : FileMate)
    → IsSorted fs
    → i < j
    → get_elem? fs i ≡ some f
    → get_elem? fs j ≡ some g
    → cmp f.largest g.largest ≡ Ordering.lt
get_elem?-IsSorted [] i j f g h lt e k = absurd (ground arith)
get_elem?-IsSorted (x ∷ xs) i zero f g h lt e k = absurd (ground arith)
get_elem?-IsSorted (x ∷ xs) zero (suc j) f g h lt e k =
    get_elem?-All (λ g. cmp f.largest g.largest ≡ Ordering.lt) xs j g
      (subst (λ y. All (λ z. cmp y.largest z.largest ≡ Ordering.lt) xs) (some-injective e) h.0) k
get_elem?-IsSorted (x ∷ xs) (suc i) (suc j) f g h lt e k =
    get_elem?-IsSorted xs i j f g h.1 (omega arith) e k

get_elem?-inside :
    {A : Type 0} (xs : List A) (i : ℕ) → i < length xs → (x : A) × (get_elem? xs i ≡ some x)
get_elem?-inside [] i h = absurd (omega arith)
get_elem?-inside (x ∷ xs) zero h = (x, refl)
get_elem?-inside (x ∷ xs) (suc i) h = get_elem?-inside xs i (omega arith)

get_elem?-outside :
    {A : Type 0} (xs : List A) (i : ℕ) (x : A) → length xs ≤ i → get_elem? xs i ≢ some x
get_elem?-outside [] i x h e = ground arith
get_elem?-outside (y ∷ xs) zero x h e = omega arith
get_elem?-outside (y ∷ xs) (suc i) x h e = get_elem?-outside xs i x (omega arith) e

-- The tables before `r` end before the key, those from `r` on do not.
abbrev pub Splits : List FileMate → InternalKey → ℕ → ℕ → Type 0
Splits files key left right =
    (i : ℕ) (f : FileMate)
    → get_elem? files i ≡ some f
    → (i < left → cmp f.largest key ≡ Ordering.lt) × (right ≤ i → cmp f.largest key ≢ Ordering.lt)

pub is_below→lt : (o : Ordering) → is_below o ≡ true → o ≡ Ordering.lt
unfolding is_below
is_below→lt o h = ground arith

pub not-is_below : (o : Ordering) → is_below o ≡ false → o ≢ Ordering.lt
unfolding is_below
not-is_below o h = ground arith

nat_cases : (i n : ℕ) → i < n + 1 → (i < n) ⊎ (i ≡ n)
nat_cases i n h = elim (Bool-cases (ltb i n)) [
  | inl before ↦ inl (ltb→lt i n before)
  | inr not_before ↦ inr (omega (arith, h, not-ltb→le i n not_before))
]

same_element :
    (files : List FileMate) (i j : ℕ) (f g : FileMate)
    → i ≡ j
    → get_elem? files i ≡ some f
    → get_elem? files j ≡ some g
    → f ≡ g
same_element files i j f g same e k = some-injective (sym e ∙ ap (get_elem? files) same ∙ k)

-- A table that ends before the key moves the left bound, another one the right bound.
module _ (files : List FileMate) (key : InternalKey) (sorted : IsSorted files) where
  Splits-raise :
      (left right mid : ℕ) (f : FileMate)
      → Splits files key left right
      → get_elem? files mid ≡ some f
      → cmp f.largest key ≡ Ordering.lt
      → Splits files key (mid + 1) right
  Splits-raise left right mid f h at below i g e = (
    λ lt. elim (nat_cases i mid lt) [
      | inl before ↦
          cmp_trans g.largest f.largest key (get_elem?-IsSorted files i mid g f sorted before e at)
            below
      | inr same ↦
          subst (λ x. cmp x.largest key ≡ Ordering.lt)
            (same_element files mid i f g (sym same) at e) below
    ],
    (h i g e).1,
  )

  Splits-lower :
      (left right mid : ℕ) (f : FileMate)
      → Splits files key left right
      → get_elem? files mid ≡ some f
      → cmp f.largest key ≢ Ordering.lt
      → Splits files key left mid
  Splits-lower left right mid f h at above i g e = (
    (h i g e).0,
    λ ge below. elim (nat_cases mid i (omega arith)) [
      | inl after ↦ above (
          cmp_trans f.largest g.largest key (get_elem?-IsSorted files mid i f g sorted after at e)
            below)
      | inr same ↦ above (
          subst (λ x. cmp x.largest key ≡ Ordering.lt)
            (same_element files i mid g f (sym same) e at) below)
    ],
  )

  search_file-step :
      (left right fuel mid : ℕ) (f : FileMate)
      → left < right
      → (left + right) % 2 ^ 32 / 2 ≡ mid
      → (mid + 1) % 2 ^ 32 ≡ mid + 1
      → get_elem? files mid ≡ some f
      → search_file files key left right (suc fuel) ≡ (
          if is_below (cmp f.largest key)
          then search_file files key (mid + 1) right fuel
          else search_file files key left mid fuel)
  unfolding search_file
  search_file-step left right fuel mid f lt middle next at =
      let here : get_elem? files ((left + right) % 2 ^ 32 / 2) ≡ some f =
        ap (get_elem? files) middle ∙ at in
      rw (lt→ltb left right lt, here, search_file)
        (ap₂
          (λ n m.
            if is_below (cmp f.largest key)
            then search_file files key n right fuel
            else search_file files key left m fuel)
          (ap (λ m. (m + 1) % 2 ^ 32) middle ∙ next) middle)

  midpoint :
      (left right : ℕ)
      → left < right
      → right < 2 ^ 31
      → (mid : ℕ) × ((left + right) % 2 ^ 32 / 2 ≡ mid)
        × ((mid + 1) % 2 ^ 32 ≡ mid + 1)
        × (left ≤ mid)
        × (mid < right)
  midpoint left right lt small =
      let word : (left + right) % 2 ^ 32 ≡ left + right = mod-eq_of_lt (omega arith) in
      ((left + right) / 2, rw word refl, mod-eq_of_lt (omega arith), omega arith, omega arith)

  search_file-Splits :
      (left right fuel : ℕ)
      → left ≤ right
      → right ≤ length files
      → length files < 2 ^ 31
      → right - left ≤ fuel
      → Splits files key left right
      → (r : ℕ) × (search_file files key left right fuel ≡ some r)
        × (r ≤ right)
        × Splits files key r r
  unfolding search_file
  search_file-Splits left right zero le inside small enough h =
      let same : left ≡ right = omega arith in
      (
        right,
        rw (le→not-ltb left right (omega arith)),
        omega arith,
        subst (λ l. Splits files key l right) same h,
      )
  search_file-Splits left right (suc fuel) le inside small enough h =
      elim (Bool-cases (ltb left right)) [
        | inr end ↦
            let same : left ≡ right = omega (arith, le, not-ltb→le left right end) in
            (
              right,
              rw (end, search_file),
              omega arith,
              subst (λ l. Splits files key l right) same h,
            )
        | inl more ↦
            let (mid, middle, next, ge, below) =
              midpoint left right (ltb→lt left right more) (omega arith) in
            let (f, at) = get_elem?-inside files mid (omega (arith, below)) in
            let step =
              search_file-step left right fuel mid f (ltb→lt left right more) middle next at in
            elim (Bool-cases (is_below (cmp f.largest key))) [
              | inl up ↦
                  let (r, e, bound, split) =
                    search_file-Splits (mid + 1) right fuel (omega (arith, below)) inside small
                      (omega (arith, ge)) (Splits-raise left right mid f h at (is_below→lt _ up)) in
                  (r, step ∙ rw up e, bound, split)
              | inr down ↦
                  let (r, e, bound, split) =
                    search_file-Splits left mid fuel ge (omega (arith, below)) small
                      (omega (arith, below))
                      (Splits-lower left right mid f h at (not-is_below _ down)) in
                  (r, step ∙ rw down e, omega (arith, below, bound), split)
            ]
      ]

-- The same on the two parts of the list.
Splits-take :
    (files : List FileMate) (key : InternalKey) (r : ℕ)
    → Splits files key r r
    → All (λ f. cmp f.largest key ≡ Ordering.lt) (take r files)
Splits-take files key zero h = tt
Splits-take [] key (suc r) h = tt
Splits-take (f ∷ fs) key (suc r) h = (
  (h 0 f refl).0 (omega arith),
  Splits-take fs key r
      (λ i g e. (λ lt. (h (suc i) g e).0 (omega arith), λ ge. (h (suc i) g e).1 (omega arith))),
)

Splits-drop :
    (files : List FileMate) (key : InternalKey) (r : ℕ)
    → Splits files key r r
    → All (λ f. cmp f.largest key ≢ Ordering.lt) (drop r files)
Splits-drop [] key zero h = tt
Splits-drop (f ∷ fs) key zero h = (
  (h 0 f refl).1 (omega arith),
  Splits-drop fs key zero
      (λ i g e. (λ lt. absurd (omega arith), λ ge. (h (suc i) g e).1 (omega arith))),
)
Splits-drop [] key (suc r) h = tt
Splits-drop (f ∷ fs) key (suc r) h =
    Splits-drop fs key r
      (λ i g e. (λ lt. (h (suc i) g e).0 (omega arith), λ ge. (h (suc i) g e).1 (omega arith)))

-- FindFile returns on a level of fewer than 2^31 tables whose largest keys increase, and what it
-- returns is the number of tables that end before the key: those before the result do, the others
-- do not.
pub find_file-Splits :
    (files : List FileMate) (key : InternalKey)
    → IsSorted files
    → length files < 2 ^ 31
    → (r : ℕ) × (find_file files key ≡ some r)
      × (r ≤ length files)
      × All (λ f. cmp f.largest key ≡ Ordering.lt) (take r files)
      × All (λ f. cmp f.largest key ≢ Ordering.lt) (drop r files)
unfolding find_file
find_file-Splits files key sorted small =
    let word : length files % 2 ^ 32 ≡ length files = mod-eq_of_lt (omega arith) in
    let (r, e, bound, split) =
      search_file-Splits files key sorted 0 (length files) (length files) (omega arith)
        (omega arith) small (omega arith)
        (λ i f e. (λ lt. absurd (omega arith), λ ge below. get_elem?-outside files i f ge e)) in
    (
      r,
      ap (λ w. search_file files key 0 w (length files)) word ∙ e,
      bound,
      Splits-take files key r split,
      Splits-drop files key r split,
    )
