-- ===== src/Bloom/Bits.antt =====
-- Setting a bit of the filter sets it, and clears none.
use yubindb.Prelude.{
  ℕ, zero, suc, ◌+◌, ◌*◌, ◌/◌, ◌%◌, ◌^◌, ◌≤◌, ◌<◌, ◌≡◌, refl, ap, ap₂, ◌∙◌, min, max, bit_and,
  bit_or, true, List, [], ◌∷◌, length, get_or, arith, bit_or-halves, bit_and-halves, pos→nonzero,
}
use yubindb.Bloom.{or_at, set_bit, has_bit}
use native.Mathlib.Nat.{le_refl, pow-suc}

-- A mask keeps of a bitwise or at least what it keeps of each part.
le-mask_bounded :
    (n x y z : ℕ)
    → x ≤ n
    → y ≤ n
    → z ≤ n
    → (bit_and x z ≤ bit_and (bit_or x y) z) × (bit_and y z ≤ bit_and (bit_or x y) z)
le-mask_bounded zero zero zero zero hx hy hz = (omega arith, omega arith)
le-mask_bounded zero (suc x) y z hx hy hz = absurd (omega arith)
le-mask_bounded zero zero (suc y) z hx hy hz = absurd (omega arith)
le-mask_bounded zero zero zero (suc z) hx hy hz = absurd (omega arith)
le-mask_bounded (suc n) x y z hx hy hz =
    let (a, b) =
      le-mask_bounded n (x / 2) (y / 2) (z / 2) (omega arith) (omega arith) (omega arith) in
    let half : bit_or x y / 2 ≡ bit_or (x / 2) (y / 2) = omega (arith, bit_or-halves x y) in
    let low : bit_or x y % 2 ≡ max (x % 2) (y % 2) = omega (arith, bit_or-halves x y) in
    let both : bit_and (bit_or x y) z
        ≡ bit_and (bit_or (x / 2) (y / 2)) (z / 2) * 2 + min (max (x % 2) (y % 2)) (z % 2) =
      bit_and-halves (bit_or x y) z ∙ ap₂ (λ h l. bit_and h (z / 2) * 2 + min l (z % 2)) half low in
    (omega (arith, a, both, bit_and-halves x z), omega (arith, b, both, bit_and-halves y z))

pub le-mask :
    (x y z : ℕ) → (bit_and x z ≤ bit_and (bit_or x y) z) × (bit_and y z ≤ bit_and (bit_or x y) z)
le-mask x y z = le-mask_bounded (x + y + z) x y z (omega arith) (omega arith) (omega arith)

bit_and_self : (k : ℕ) → 0 < bit_and (2 ^ k) (2 ^ k)
bit_and_self zero = omega arith
bit_and_self (suc k) =
    let e : 2 ^ suc k ≡ 2 ^ k * 2 = pow-suc 2 k in
    let h : 2 ^ suc k / 2 ≡ 2 ^ k = omega (arith, e) in
    omega (arith, bit_and_self k, bit_and-halves (2 ^ suc k) (2 ^ suc k), ap (λ t. bit_and t t) h)

module _ (mask : ℕ) where
  pub length-or_at : (at : ℕ) (a : List ℕ) → length (or_at at mask a) ≡ length a
  unfolding or_at
  length-or_at at [] = refl
  length-or_at zero (b ∷ bs) = refl
  length-or_at (suc at) (b ∷ bs) = ap suc (length-or_at at bs)

  or_at_here :
      (at : ℕ) (a : List ℕ)
      → at < length a
      → get_or (or_at at mask a) at 0 ≡ bit_or (get_or a at 0) mask
  unfolding or_at
  or_at_here at [] h = absurd (omega arith)
  or_at_here zero (b ∷ bs) h = refl
  or_at_here (suc at) (b ∷ bs) h = or_at_here at bs (omega arith)

  -- No byte loses what another mask keeps of it.
  or_at_keeps :
      (at i other : ℕ) (a : List ℕ)
      → bit_and (get_or a i 0) other ≤ bit_and (get_or (or_at at mask a) i 0) other
  unfolding or_at
  or_at_keeps at i other [] = le_refl _
  or_at_keeps zero zero other (b ∷ bs) = (le-mask b mask other).0
  or_at_keeps zero (suc i) other (b ∷ bs) = le_refl _
  or_at_keeps (suc at) zero other (b ∷ bs) = le_refl _
  or_at_keeps (suc at) (suc i) other (b ∷ bs) = or_at_keeps at i other bs

pub length-set_bit : (p : ℕ) (a : List ℕ) → length (set_bit p a) ≡ length a
unfolding set_bit
length-set_bit p a = length-or_at (2 ^ (p % 8)) (p / 8) a

pos→has_bit :
    (p : ℕ) (a : List ℕ) → 0 < bit_and (get_or a (p / 8) 0) (2 ^ (p % 8)) → has_bit p a ≡ true
unfolding has_bit
pos→has_bit p a h = rw (pos→nonzero _ h)

has_bit→pos :
    (p : ℕ) (a : List ℕ) → has_bit p a ≡ true → 0 < bit_and (get_or a (p / 8) 0) (2 ^ (p % 8))
unfolding has_bit
has_bit→pos p a h = ground arith

pub has_bit-set_bit : (p : ℕ) (a : List ℕ) → p / 8 < length a → has_bit p (set_bit p a) ≡ true
unfolding set_bit
has_bit-set_bit p a h =
    let here = or_at_here (2 ^ (p % 8)) (p / 8) a h in
    pos→has_bit p (or_at (p / 8) (2 ^ (p % 8)) a) (
      rw here (
        omega
          (arith, bit_and_self (p % 8), le-mask (get_or a (p / 8) 0) (2 ^ (p % 8)) (2 ^ (p % 8)))))

pub has_bit_kept : (p q : ℕ) (a : List ℕ) → has_bit p a ≡ true → has_bit p (set_bit q a) ≡ true
unfolding set_bit
has_bit_kept p q a h =
    pos→has_bit p (or_at (q / 8) (2 ^ (q % 8)) a)
      (omega (arith, has_bit→pos p a h, or_at_keeps (2 ^ (q % 8)) (q / 8) (p / 8) (2 ^ (p % 8)) a))
