-- ===== src/Key/Order.antt =====
-- `cmp` is a strict total order up to the value eq, with newer entries first.
use Prim.Native.Nat.{Ordering}
use yubindb.Prelude.{ℕ, ◌≡◌, ◌≢◌, refl, List, [], ◌∷◌, arith}
use yubindb.Key.{InternalKey, extract_user_key, compare_views, compare_tags, then_by, cmp}

-- The order seen from the other side.
abbrev pub flip : Ordering → Ordering
flip Ordering.lt = Ordering.gt
flip Ordering.eq = Ordering.eq
flip Ordering.gt = Ordering.lt

pub compare_views-flip : (a b : List ℕ) → compare_views b a ≡ flip (compare_views a b)
unfolding compare_views
compare_views-flip [] [] = refl
compare_views-flip [] (b ∷ bs) = refl
compare_views-flip (a ∷ xs) [] = refl
compare_views-flip (a ∷ xs) (b ∷ bs) = ground (arith, compare_views-flip xs bs)

pub compare_views_refl : (a : List ℕ) → compare_views a a ≡ Ordering.eq
unfolding compare_views
compare_views_refl [] = refl
compare_views_refl (a ∷ xs) = ground (arith, compare_views_refl xs)

pub compare_views-eq : (a b : List ℕ) → compare_views a b ≡ Ordering.eq → a ≡ b
unfolding compare_views
compare_views-eq [] [] h = refl
compare_views-eq [] (b ∷ bs) h = absurd (ground arith)
compare_views-eq (a ∷ xs) [] h = absurd (ground arith)
compare_views-eq (a ∷ xs) (b ∷ bs) h = ground (arith, compare_views-eq xs bs)

pub compare_views_trans :
    (a b c : List ℕ)
    → compare_views a b ≡ Ordering.lt
    → compare_views b c ≡ Ordering.lt
    → compare_views a c ≡ Ordering.lt
unfolding compare_views
compare_views_trans [] [] c h k = absurd (ground arith)
compare_views_trans [] (b ∷ bs) [] h k = absurd (ground arith)
compare_views_trans [] (b ∷ bs) (c ∷ cs) h k = refl
compare_views_trans (a ∷ xs) [] c h k = absurd (ground arith)
compare_views_trans (a ∷ xs) (b ∷ bs) [] h k = absurd (ground arith)
compare_views_trans (a ∷ xs) (b ∷ bs) (c ∷ cs) h k = ground (arith, compare_views_trans xs bs cs)

-- Swapping the arguments of `cmp` flips its sign.
pub cmp-flip : (a b : InternalKey) → cmp b a ≡ flip (cmp a b)
unfolding cmp then_by compare_tags
cmp-flip a b = ground (arith, compare_views-flip (extract_user_key a) (extract_user_key b))

pub cmp_refl : (a : InternalKey) → cmp a a ≡ Ordering.eq
unfolding cmp then_by compare_tags
cmp_refl a = ground (arith, compare_views_refl (extract_user_key a))

-- `cmp` is transitive.
pub cmp_trans :
    (a b c : InternalKey) → cmp a b ≡ Ordering.lt → cmp b c ≡ Ordering.lt → cmp a c ≡ Ordering.lt
unfolding cmp then_by compare_tags
cmp_trans a b c h k = ground (
  arith,
  compare_views_trans (extract_user_key a) (extract_user_key b) (extract_user_key c),
  compare_views-eq (extract_user_key a) (extract_user_key b),
  compare_views-eq (extract_user_key b) (extract_user_key c),
)

-- A key that is not after another stays so behind a step down.
pub cmp_trans_le :
    (a b c : InternalKey) → cmp a b ≢ Ordering.gt → cmp b c ≡ Ordering.lt → cmp a c ≡ Ordering.lt
unfolding cmp then_by compare_tags
cmp_trans_le a b c h k = ground (
  arith,
  compare_views_trans (extract_user_key a) (extract_user_key b) (extract_user_key c),
  compare_views-eq (extract_user_key a) (extract_user_key b),
  compare_views-eq (extract_user_key b) (extract_user_key c),
)
