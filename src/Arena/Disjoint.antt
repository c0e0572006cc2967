-- ===== src/Arena/Disjoint.antt =====
-- No two allocations overlap.
use yubindb.Prelude.{
  ℕ, ◌+◌, ◌-◌, ◌/◌, ◌%◌, ◌^◌, ◌≤◌, ◌<◌, ◌≡◌, ◌⊎◌, inl, inr, refl, subst, Bool, false, if◌then◌else◌,
  Bool-cases, List, [], ◌∷◌, ◌++◌, ltb, leb, All, All-map, All-split, arith, bit_and_low3,
}
use yubindb.Arena.{
  block_size, Arena, new_arena, allocate_new_block, allocate_fallback, allocate, slop,
  allocate_aligned,
}

-- Two regions, an address and a size each, share no byte.
abbrev pub Apart : ℕ × ℕ → ℕ × ℕ → Type 0
Apart (a, n) (b, m) = (a + n ≤ b) ⊎ (b + m ≤ a)

-- What `new` gives overlaps no block that is in use.
abbrev pub IsFresh : ℕ × ℕ → Arena → Type 0
IsFresh r a = All (Apart r) a.blocks

-- The size that AllocateFallback asks `new` for.
abbrev pub asked : ℕ → ℕ
asked bytes = if ltb (block_size / 4) bytes then bytes else block_size

-- The memory that was given out, the last first, by calls of both functions. Where a call needs a
-- new block, `new` gives it memory that is not in use, as much as it is asked for. A size is so far
-- below 2 ^ 64 that the padding is added without wrapping around.
pub data Run : List (ℕ × ℕ) → Arena → Type 0 where
  start : Run [] new_arena
  plain :
      {rs : List (ℕ × ℕ)} {a : Arena} (fresh bytes : ℕ)
      → Run rs a
      → (leb bytes a.remaining ≡ false → IsFresh (fresh, asked bytes) a)
      → Run (((allocate fresh bytes a).0, bytes) ∷ rs) (allocate fresh bytes a).1
  aligned :
      {rs : List (ℕ × ℕ)} {a : Arena} (fresh bytes : ℕ)
      → Run rs a
      → bytes + 8 ≤ 2 ^ 64
      → (leb (bytes + slop a.alloc_ptr) a.remaining ≡ false → IsFresh (fresh, asked bytes) a)
      → Run (((allocate_aligned fresh bytes a).0, bytes) ∷ rs) (allocate_aligned fresh bytes a).1

abbrev pub PairwiseApart : List (ℕ × ℕ) → Type 0
PairwiseApart [] = Unit {0}
PairwiseApart (r ∷ rs) = All (Apart r) rs × PairwiseApart rs

Apart-sub : (x b r : ℕ × ℕ) → Apart x b → b.0 ≤ r.0 → r.0 + r.1 ≤ b.0 + b.1 → Apart x r
Apart-sub (x, k) (b, m) (r, n) (inl h) low high = inl (omega arith)
Apart-sub (x, k) (b, m) (r, n) (inr h) low high = inr (omega arith)

Apart-sym : (x y : ℕ × ℕ) → Apart x y → Apart y x
Apart-sym (a, n) (b, m) (inl h) = inr h
Apart-sym (a, n) (b, m) (inr h) = inl h

slop-lt : (p : ℕ) → slop p < 8
unfolding slop
slop-lt p = ground (arith, bit_and_low3 p)

-- Apart from all that was given out is the memory still to be given; and what is apart from all
-- blocks is apart from both.
record Inv (rs : List (ℕ × ℕ)) (a : Arena) : Type 0 where
  apart : PairwiseApart rs
  free : All (Apart (a.alloc_ptr, a.remaining)) rs
  covered :
      (x : ℕ × ℕ) → All (Apart x) a.blocks → All (Apart x) rs × Apart x (a.alloc_ptr, a.remaining)

start-Inv : Inv [] new_arena
unfolding new_arena
start-Inv = record { apart = tt; free = tt; covered = λ x h. (tt, inr (omega arith)) }

module _ (rs : List (ℕ × ℕ)) (a : Arena) (inv : Inv rs a) where
  -- A part of the free memory, `s` bytes behind its start.
  carve-Inv :
      (s n p q left : ℕ)
      → s + n ≤ a.remaining
      → p ≡ a.alloc_ptr + s
      → q ≡ p + n
      → left ≡ a.remaining - (s + n)
      → Inv ((p, n) ∷ rs) (record a { alloc_ptr = q; remaining = left })
  carve-Inv s n p q left fits ep eq el =
      let free_part : (r : ℕ × ℕ)
          → a.alloc_ptr ≤ r.0
          → r.0 + r.1 ≤ a.alloc_ptr + a.remaining
          → All (Apart r) rs =
        λ r low high.
          All-map
            (λ y h. Apart-sym y r (
              Apart-sub y (a.alloc_ptr, a.remaining) r (Apart-sym (a.alloc_ptr, a.remaining) y h)
                low high))
            rs inv.free in
      record {
        apart = (free_part (p, n) (omega arith) (omega arith), inv.apart);
        free = (inr (omega arith), free_part (q, left) (omega arith) (omega arith));
        covered = λ x h.
            let (given, rest) = inv.covered x h in
            (
              (
                Apart-sub x (a.alloc_ptr, a.remaining) (p, n) rest (omega arith) (omega arith),
                given,
              ),
              Apart-sub x (a.alloc_ptr, a.remaining) (q, left) rest (omega arith) (omega arith),
            );
      }

  module _ (fresh : ℕ) where
    -- A block of its own.
    own_block-Inv :
        (n usage : ℕ)
        → IsFresh (fresh, n) a
        → Inv
            ((fresh, n) ∷ rs)
            (record a { blocks = a.blocks ++ (fresh, n) ∷ []; memory_usage = usage })
    own_block-Inv n usage new =
        let (given, rest) = inv.covered (fresh, n) new in
        record {
          apart = (given, inv.apart);
          free = (Apart-sym (fresh, n) (a.alloc_ptr, a.remaining) rest, inv.free);
          covered = λ x h.
              let (old, last) = All-split (Apart x) a.blocks ((fresh, n) ∷ []) h in
              ((last.0, (inv.covered x old).0), (inv.covered x old).1);
        }

    -- The front of a new block, whose rest is free.
    new_block-Inv :
        (n usage : ℕ)
        → n ≤ block_size
        → IsFresh (fresh, block_size) a
        → Inv ((fresh, n) ∷ rs) (record a {
          blocks = a.blocks ++ (fresh, block_size) ∷ [];
          memory_usage = usage;
          alloc_ptr = fresh + n;
          remaining = block_size - n;
        })
    new_block-Inv n usage fits new =
        let (given, rest) = inv.covered (fresh, block_size) new in
        let part : (r : ℕ × ℕ) → fresh ≤ r.0 → r.0 + r.1 ≤ fresh + block_size → All (Apart r) rs =
          λ r low high.
            All-map
              (λ y h.
                Apart-sym y r
                  (Apart-sub y (fresh, block_size) r (Apart-sym (fresh, block_size) y h) low high))
              rs given in
        record {
          apart = (part (fresh, n) (omega arith) (omega arith), inv.apart);
          free = (inr (omega arith), part (fresh + n, block_size - n) (omega arith) (omega arith));
          covered = λ x h.
              let (old, last) = All-split (Apart x) a.blocks ((fresh, block_size) ∷ []) h in
              (
                (
                  Apart-sub x (fresh, block_size) (fresh, n) last.0 (omega arith) (omega arith),
                  (inv.covered x old).0,
                ),
                Apart-sub x (fresh, block_size) (fresh + n, block_size - n) last.0 (omega arith)
                    (omega arith),
              );
        }

    new_size :
        (n : ℕ) {b : Bool}
        → ltb (block_size / 4) n ≡ b
        → IsFresh (fresh, asked n) a
        → IsFresh (fresh, if b then n else block_size) a
    new_size n e new = subst (λ c. IsFresh (fresh, if c then n else block_size) a) e new

    fallback-Inv :
        (n : ℕ)
        → IsFresh (fresh, asked n) a
        → Inv (((allocate_fallback fresh n a).0, n) ∷ rs) (allocate_fallback fresh n a).1
    unfolding allocate_fallback allocate_new_block
    fallback-Inv n new = elim (Bool-cases (ltb (block_size / 4) n)) [
      | inl big ↦ rw big (own_block-Inv n (a.memory_usage + (n + 8)) (new_size n big new))
      | inr small ↦ rw small (
          new_block-Inv n (a.memory_usage + (block_size + 8)) (ground arith) (new_size n small new))
    ]

    allocate-Inv :
        (n : ℕ)
        → (leb n a.remaining ≡ false → IsFresh (fresh, asked n) a)
        → Inv (((allocate fresh n a).0, n) ∷ rs) (allocate fresh n a).1
    unfolding allocate
    allocate-Inv n new = elim (Bool-cases (leb n a.remaining)) [
      | inl fits ↦ rw fits (
          carve-Inv 0 n a.alloc_ptr (a.alloc_ptr + n) (a.remaining - n) (ground arith) (omega arith)
            refl (omega arith))
      | inr full ↦ rw full (fallback-Inv n (new full))
    ]

    no_wrap : (n : ℕ) → n + 8 ≤ 2 ^ 64 → (n + slop a.alloc_ptr) % 2 ^ 64 ≡ n + slop a.alloc_ptr
    no_wrap n small = omega (arith, slop-lt a.alloc_ptr)

    aligned-Inv :
        (n : ℕ)
        → n + 8 ≤ 2 ^ 64
        → (leb (n + slop a.alloc_ptr) a.remaining ≡ false → IsFresh (fresh, asked n) a)
        → Inv (((allocate_aligned fresh n a).0, n) ∷ rs) (allocate_aligned fresh n a).1
    unfolding allocate_aligned
    aligned-Inv n small new = elim (Bool-cases (leb (n + slop a.alloc_ptr) a.remaining)) [
      | inl fits ↦
          rw (no_wrap n small, fits)
            (carve-Inv (slop a.alloc_ptr) n (a.alloc_ptr + slop a.alloc_ptr)
              (a.alloc_ptr + (n + slop a.alloc_ptr)) (a.remaining - (n + slop a.alloc_ptr))
              (ground arith) refl (omega arith) (omega arith))
      | inr full ↦ rw (no_wrap n small, full) (fallback-Inv n (new full))
    ]

Run-Inv : {rs : List (ℕ × ℕ)} {a : Arena} → Run rs a → Inv rs a
Run-Inv start = start-Inv
Run-Inv (plain {rs} {a} fresh bytes run new) = allocate-Inv rs a (Run-Inv run) fresh bytes new
Run-Inv (aligned {rs} {a} fresh bytes run small new) =
    aligned-Inv rs a (Run-Inv run) fresh bytes small new

-- However the two functions are called, no two regions that were given out overlap, if each block
-- that `new` gives is memory that is not in use, and the sizes that AllocateAligned is given are
-- below 2 ^ 64 - 7.
pub Run-PairwiseApart : {rs : List (ℕ × ℕ)} {a : Arena} → Run rs a → PairwiseApart rs
Run-PairwiseApart run = (Run-Inv run).apart

slop_lem : (p : ℕ) → (p + slop p) % 8 ≡ 0
unfolding slop
slop_lem p = ground (arith, bit_and_low3 p)

-- AllocateAligned returns a multiple of eight, if `new` does.
pub allocate_aligned-mod :
    (fresh bytes : ℕ) (a : Arena) → fresh % 8 ≡ 0 → (allocate_aligned fresh bytes a).0 % 8 ≡ 0
unfolding allocate_aligned allocate_fallback allocate_new_block
allocate_aligned-mod fresh bytes a h = ground (arith, slop_lem a.alloc_ptr)
