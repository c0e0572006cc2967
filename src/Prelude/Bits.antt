-- ===== src/Prelude/Bits.antt =====
-- Laws of `bit_and` and `bit_or` at variables: masks, disjoint sums, single bits.
use Prim.Native.Nat.{
  ℕ, zero, suc, ◌+◌, ◌*◌, ◌/◌, ◌%◌, ◌^◌, ◌≤◌, ◌<◌, min, max, digits, bitwise, bit_and, bit_or,
  bit_and-bitwise, bit_or-bitwise,
}
use mathlib.Core.Path.{◌≡◌, refl, ◌∙◌}
use native.Mathlib.Nat.{le_refl, pow-suc}
use native.Mathlib.Omega.{arith}

-- The fuel of the digit recursion does not matter once it reaches the first number.
module _ (last : ℕ → ℕ) (op : ℕ → ℕ → ℕ) where
  enough_fuel : (p q a b : ℕ) → a ≤ p → a ≤ q → digits last op p a b ≡ digits last op q a b
  enough_fuel zero zero a b hp hq = refl
  enough_fuel zero (suc q) zero b hp hq = refl
  enough_fuel zero (suc q) (suc a) b hp hq = absurd (omega arith)
  enough_fuel (suc p) zero zero b hp hq = refl
  enough_fuel (suc p) zero (suc a) b hp hq = absurd (omega arith)
  enough_fuel (suc p) (suc q) zero b hp hq = refl
  enough_fuel (suc p) (suc q) (suc a) b hp hq =
      rw (enough_fuel p q (suc a / 2) (b / 2) (omega arith) (omega arith))

  lowest_digit :
      (a b : ℕ)
      → bitwise last op (suc a) b ≡ bitwise last op (suc a / 2) (b / 2) * 2 + op (suc a % 2) (b % 2)
  lowest_digit a b =
      omega (arith, enough_fuel a (suc a / 2) (suc a / 2) (b / 2) (omega arith) (le_refl _))

pub bit_or-halves : (a b : ℕ) → bit_or a b ≡ bit_or (a / 2) (b / 2) * 2 + max (a % 2) (b % 2)
bit_or-halves zero b = simp bit_or-bitwise (omega arith)
bit_or-halves (suc a) b = simp bit_or-bitwise (lowest_digit (λ y. y) max a b)

pub bit_and-halves : (a b : ℕ) → bit_and a b ≡ bit_and (a / 2) (b / 2) * 2 + min (a % 2) (b % 2)
bit_and-halves zero b = simp bit_and-bitwise (omega arith)
bit_and-halves (suc a) b = simp bit_and-bitwise (lowest_digit (λ y. 0) min a b)

pub zero-bit_or : (b : ℕ) → bit_or 0 b ≡ b
zero-bit_or b = bit_or-bitwise 0 b

bit_or-zero_bounded : (n a : ℕ) → a ≤ n → bit_or a 0 ≡ a
bit_or-zero_bounded n zero h = refl
bit_or-zero_bounded zero (suc a) h = absurd (omega arith)
bit_or-zero_bounded (suc n) (suc a) h =
    omega (arith, bit_or-halves (suc a) 0, bit_or-zero_bounded n (suc a / 2) (omega arith))

pub bit_or-zero : (a : ℕ) → bit_or a 0 ≡ a
bit_or-zero a = bit_or-zero_bounded a a (le_refl a)

pub zero-bit_and : (b : ℕ) → bit_and 0 b ≡ 0
zero-bit_and b = bit_and-bitwise 0 b

bit_and-zero_bounded : (n a : ℕ) → a ≤ n → bit_and a 0 ≡ 0
bit_and-zero_bounded n zero h = refl
bit_and-zero_bounded zero (suc a) h = absurd (omega arith)
bit_and-zero_bounded (suc n) (suc a) h =
    omega (arith, bit_and-halves (suc a) 0, bit_and-zero_bounded n (suc a / 2) (omega arith))

pub bit_and-zero : (a : ℕ) → bit_and a 0 ≡ 0
bit_and-zero a = bit_and-zero_bounded a a (le_refl a)

-- A number below `2 ^ s` and a multiple of `2 ^ s` share no bit.
pub bit_or-shifted : (s a x : ℕ) → a < 2 ^ s → bit_or a (x * 2 ^ s) ≡ a + x * 2 ^ s
bit_or-shifted zero zero x h = rw zero-bit_or (omega arith)
bit_or-shifted zero (suc a) x h = absurd (omega arith)
bit_or-shifted (suc s) a x h =
    let double : x * 2 ^ suc s ≡ x * 2 ^ s * 2 = rw pow-suc (omega arith) in
    let small : a < 2 ^ s * 2 = rw pow-suc at h in
    let half : x * 2 ^ s * 2 / 2 ≡ x * 2 ^ s = omega arith in
    let low : bit_or (a / 2) (x * 2 ^ s) ≡ a / 2 + x * 2 ^ s =
      bit_or-shifted s (a / 2) x (omega arith) in
    rw double (bit_or-halves a (x * 2 ^ s * 2) ∙ rw half (omega (arith, low)))

pub le-bit_or_bounded : (n a b : ℕ) → a ≤ n → (a ≤ bit_or a b) × (b ≤ bit_or a b)
le-bit_or_bounded n zero b h = omega (arith, zero-bit_or b)
le-bit_or_bounded zero (suc a) b h = absurd (omega arith)
le-bit_or_bounded (suc n) (suc a) b h =
    omega (arith, bit_or-halves (suc a) b, le-bit_or_bounded n (suc a / 2) (b / 2) (omega arith))

-- A bitwise or is at least as large as each of its parts.
pub le-bit_or : (a b : ℕ) → (a ≤ bit_or a b) × (b ≤ bit_or a b)
le-bit_or a b = le-bit_or_bounded a a b (le_refl a)

pub bit_or-lt-pow2 : (k a b : ℕ) → a < 2 ^ k → b < 2 ^ k → bit_or a b < 2 ^ k
bit_or-lt-pow2 zero zero b ha hb = omega (arith, zero-bit_or b)
bit_or-lt-pow2 zero (suc a) b ha hb = absurd (omega arith)
bit_or-lt-pow2 (suc k) a b ha hb =
    let sa : a < 2 ^ k * 2 = rw pow-suc at ha in
    let sb : b < 2 ^ k * 2 = rw pow-suc at hb in
    rw pow-suc (
      omega
        (arith, bit_or-halves a b, bit_or-lt-pow2 k (a / 2) (b / 2) (omega arith) (omega arith)))

bit_or-one : (a : ℕ) → bit_or a 1 ≡ a / 2 * 2 + 1
bit_or-one a = omega (arith, bit_or-halves a 1, bit_or-zero (a / 2))

-- One bit set in the bits up to it, a bit at a time.
bit_or-two : (v : ℕ) → bit_or v 2 % 4 ≡ v % 2 + 2
bit_or-two v = omega (arith, bit_or-halves v 2, bit_or-one (v / 2))

bit_or-four : (v : ℕ) → bit_or v 4 % 8 ≡ v % 4 + 4
bit_or-four v = omega (arith, bit_or-halves v 4, bit_or-two (v / 2))

bit_or-eight : (v : ℕ) → bit_or v 8 % 16 ≡ v % 8 + 8
bit_or-eight v = omega (arith, bit_or-halves v 8, bit_or-four (v / 2))

bit_or-sixteen : (v : ℕ) → bit_or v 16 % 32 ≡ v % 16 + 16
bit_or-sixteen v = omega (arith, bit_or-halves v 16, bit_or-eight (v / 2))

bit_or-32 : (v : ℕ) → bit_or v 32 % 64 ≡ v % 32 + 32
bit_or-32 v = omega (arith, bit_or-halves v 32, bit_or-sixteen (v / 2))

bit_or-64 : (v : ℕ) → bit_or v 64 % 128 ≡ v % 64 + 64
bit_or-64 v = omega (arith, bit_or-halves v 64, bit_or-32 (v / 2))

-- `(uint8_t)(v | 128)`: the low seven bits, under a top bit.
pub bit_or_top : (v : ℕ) → bit_or v 128 % 256 ≡ v % 128 + 128
bit_or_top v = omega (arith, bit_or-halves v 128, bit_or-64 (v / 2))

bit_and-one : (a : ℕ) → bit_and a 1 ≡ a % 2
bit_and-one a = omega (arith, bit_and-halves a 1, bit_and-zero (a / 2))

-- A row of ones masks a remainder.
bit_and_low2 : (v : ℕ) → bit_and v 3 ≡ v % 4
bit_and_low2 v = omega (arith, bit_and-halves v 3, bit_and-one (v / 2))

pub bit_and_low3 : (v : ℕ) → bit_and v 7 ≡ v % 8
bit_and_low3 v = omega (arith, bit_and-halves v 7, bit_and_low2 (v / 2))

pub bit_and_low4 : (v : ℕ) → bit_and v 15 ≡ v % 16
bit_and_low4 v = omega (arith, bit_and-halves v 15, bit_and_low3 (v / 2))

bit_and_low5 : (v : ℕ) → bit_and v 31 ≡ v % 32
bit_and_low5 v = omega (arith, bit_and-halves v 31, bit_and_low4 (v / 2))

bit_and_low6 : (v : ℕ) → bit_and v 63 ≡ v % 64
bit_and_low6 v = omega (arith, bit_and-halves v 63, bit_and_low5 (v / 2))

pub bit_and_low7 : (v : ℕ) → bit_and v 127 ≡ v % 128
bit_and_low7 v = omega (arith, bit_and-halves v 127, bit_and_low6 (v / 2))

pub bit_and_low8 : (v : ℕ) → bit_and v 255 ≡ v % 256
bit_and_low8 v = omega (arith, bit_and-halves v 255, bit_and_low7 (v / 2))

-- One bit alone.
bit_and_bit1 : (v : ℕ) → bit_and v 2 ≡ v / 2 % 2 * 2
bit_and_bit1 v = omega (arith, bit_and-halves v 2, bit_and-one (v / 2))

bit_and_bit2 : (v : ℕ) → bit_and v 4 ≡ v / 4 % 2 * 4
bit_and_bit2 v = omega (arith, bit_and-halves v 4, bit_and_bit1 (v / 2))

bit_and_bit3 : (v : ℕ) → bit_and v 8 ≡ v / 8 % 2 * 8
bit_and_bit3 v = omega (arith, bit_and-halves v 8, bit_and_bit2 (v / 2))

bit_and_bit4 : (v : ℕ) → bit_and v 16 ≡ v / 16 % 2 * 16
bit_and_bit4 v = omega (arith, bit_and-halves v 16, bit_and_bit3 (v / 2))

bit_and_bit5 : (v : ℕ) → bit_and v 32 ≡ v / 32 % 2 * 32
bit_and_bit5 v = omega (arith, bit_and-halves v 32, bit_and_bit4 (v / 2))

bit_and_bit6 : (v : ℕ) → bit_and v 64 ≡ v / 64 % 2 * 64
bit_and_bit6 v = omega (arith, bit_and-halves v 64, bit_and_bit5 (v / 2))

pub bit_and_top : (v : ℕ) → bit_and v 128 ≡ v / 128 % 2 * 128
bit_and_top v = omega (arith, bit_and-halves v 128, bit_and_bit6 (v / 2))

bit_or_comm_bounded : (n a b : ℕ) → a ≤ n → b ≤ n → bit_or a b ≡ bit_or b a
bit_or_comm_bounded zero zero zero ha hb = refl
bit_or_comm_bounded zero zero (suc b) ha hb = absurd (omega arith)
bit_or_comm_bounded zero (suc a) b ha hb = absurd (omega arith)
bit_or_comm_bounded (suc n) a b ha hb = omega (
  arith,
  bit_or-halves a b,
  bit_or-halves b a,
  bit_or_comm_bounded n (a / 2) (b / 2) (omega arith) (omega arith),
)

pub bit_or_comm : (a b : ℕ) → bit_or a b ≡ bit_or b a
bit_or_comm a b = bit_or_comm_bounded (a + b) a b (omega arith) (omega arith)

-- The same with the multiple first.
pub shifted-bit_or : (s a x : ℕ) → a < 2 ^ s → bit_or (x * 2 ^ s) a ≡ a + x * 2 ^ s
shifted-bit_or s a x h = bit_or_comm (x * 2 ^ s) a ∙ bit_or-shifted s a x h
