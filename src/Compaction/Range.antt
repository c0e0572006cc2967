-- ===== src/Compaction/Range.antt =====
-- What GetRange returns.
use Prim.Native.Nat.{Ordering}
use yubindb.Prelude.{
  ◌≡◌, ◌≢◌, refl, sym, ap, ap₂, ◌∙◌, ◌⊎◌, inl, inr, some, List, [], ◌∷◌, All, arith, Bool-cases,
  if◌then◌else◌,
}
use yubindb.Key.{InternalKey, FileMate, cmp}
use yubindb.Key.Order.{cmp_refl, cmp_trans_le, cmp-flip}
use yubindb.Version.{is_below, is_above}
use yubindb.Compaction.{range_loop, get_range}

-- A key that a member of the list has.
abbrev pub OneOf : (FileMate → InternalKey) → InternalKey → List FileMate → Type 0
OneOf part k [] = ⊥
OneOf part k (f ∷ fs) = (part f ≡ k) ⊎ OneOf part k fs

-- No table begins behind the first key or ends before the second.
abbrev pub Narrow : InternalKey → InternalKey → List FileMate → Type 0
Narrow smallest largest fs =
    All (λ f. (cmp smallest f.smallest ≢ Ordering.lt) × (cmp largest f.largest ≢ Ordering.gt)) fs

pub not_below_trans :
    (a b c : InternalKey) → cmp a b ≢ Ordering.lt → cmp b c ≢ Ordering.lt → cmp a c ≢ Ordering.lt
not_below_trans a b c h k e =
    k (cmp_trans_le b a c (λ g. h (ground (arith, cmp-flip a b, cmp-flip b a))) e)

pub not_above_trans :
    (a b c : InternalKey) → cmp a b ≢ Ordering.gt → cmp b c ≢ Ordering.gt → cmp a c ≢ Ordering.gt
not_above_trans a b c h k e =
    h (ground (arith, cmp-flip b a, cmp_trans_le b c a k (ground (arith, cmp-flip a c))))

-- One step of the loop: the new bounds are one of the two, and pass both.
raise_lem :
    (a b : InternalKey)
    → (c : InternalKey) × ((if is_below (cmp a b) then b else a) ≡ c)
      × ((c ≡ a) ⊎ (c ≡ b))
      × (cmp c a ≢ Ordering.lt)
      × (cmp c b ≢ Ordering.lt)
unfolding is_below
raise_lem a b = elim (Bool-cases (is_below (cmp a b))) [
  | inl e ↦ (b, rw e refl, inr refl, ground (arith, cmp-flip a b, e), ground (arith, cmp_refl b))
  | inr e ↦ (a, rw e refl, inl refl, ground (arith, cmp_refl a), ground (arith, e))
]

lower_lem :
    (a b : InternalKey)
    → (c : InternalKey) × ((if is_above (cmp a b) then b else a) ≡ c)
      × ((c ≡ a) ⊎ (c ≡ b))
      × (cmp c a ≢ Ordering.gt)
      × (cmp c b ≢ Ordering.gt)
unfolding is_above
lower_lem a b = elim (Bool-cases (is_above (cmp a b))) [
  | inl e ↦ (b, rw e refl, inr refl, ground (arith, cmp-flip a b, e), ground (arith, cmp_refl b))
  | inr e ↦ (a, rw e refl, inl refl, ground (arith, cmp_refl a), ground (arith, e))
]

from_step :
    (s c a b : InternalKey) (Rest : Type 0)
    → (s ≡ c) ⊎ Rest
    → (c ≡ a) ⊎ (c ≡ b)
    → (s ≡ a) ⊎ ((b ≡ s) ⊎ Rest)
from_step s c a b Rest (inl e) (inl k) = inl (e ∙ k)
from_step s c a b Rest (inl e) (inr k) = inr (inl (sym (e ∙ k)))
from_step s c a b Rest (inr r) k = inr (inr r)

or_sym : (s a : InternalKey) {Rest : Type 0} → (s ≡ a) ⊎ Rest → (a ≡ s) ⊎ Rest
or_sym s a (inl e) = inl (sym e)
or_sym s a (inr r) = inr r

range_loop-Narrow :
    (fs : List FileMate) (smallest largest : InternalKey)
    → (s : InternalKey) × (l : InternalKey) × (range_loop fs smallest largest ≡ (s, l))
      × ((s ≡ smallest) ⊎ OneOf (λ f. f.smallest) s fs)
      × ((l ≡ largest) ⊎ OneOf (λ f. f.largest) l fs)
      × (cmp s smallest ≢ Ordering.lt)
      × (cmp l largest ≢ Ordering.gt)
      × Narrow s l fs
unfolding range_loop
range_loop-Narrow [] smallest largest = (
  smallest,
  largest,
  refl,
  inl refl,
  inl refl,
  ground (arith, cmp_refl smallest),
  ground (arith, cmp_refl largest),
  tt,
)
range_loop-Narrow (p ∷ ps) smallest largest =
    let (c, ce, cc, ca, cb) = raise_lem smallest p.smallest in
    let (d, de, dd, da, db) = lower_lem largest p.largest in
    let (s, l, e, s_in, l_in, s_up, l_down, rest) = range_loop-Narrow ps c d in
    (
      s,
      l,
      ap₂ (range_loop ps) ce de ∙ e,
      from_step s c smallest p.smallest (OneOf (λ f. f.smallest) s ps) s_in cc,
      from_step l d largest p.largest (OneOf (λ f. f.largest) l ps) l_in dd,
      not_below_trans s c smallest s_up ca,
      not_above_trans l d largest l_down da,
      ((not_below_trans s c p.smallest s_up cb, not_above_trans l d p.largest l_down db), rest),
    )

-- GetRange returns two keys of its tables: the greatest key that a table begins with, and the least
-- key that a table ends with. No table begins behind the first or ends before the second.
pub get_range-Narrow :
    (f : FileMate) (fs : List FileMate)
    → (s : InternalKey) × (l : InternalKey) × (get_range (f ∷ fs) ≡ some (s, l))
      × OneOf (λ g. g.smallest) s (f ∷ fs)
      × OneOf (λ g. g.largest) l (f ∷ fs)
      × Narrow s l (f ∷ fs)
unfolding get_range
get_range-Narrow f fs =
    let (s, l, e, s_in, l_in, s_up, l_down, rest) = range_loop-Narrow fs f.smallest f.largest in
    (s, l, ap some e, or_sym s f.smallest s_in, or_sym l f.largest l_in, ((s_up, l_down), rest))
