-- ===== src/Arena.antt =====
-- src/util/arena.h and src/util/arena.cpp: memory that is given out from blocks of 4096 bytes.
-- A pointer is its address. `new char[n]` is the environment's: an allocation is given the
-- address that it would return.
pub mod Disjoint
mod Runs
use yubindb.Prelude.{
  ℕ, ◌+◌, ◌-◌, ◌/◌, ◌%◌, ◌^◌, bit_and, List, [], ◌∷◌, ◌++◌, ◌==◌, ltb, leb, if◌then◌else◌,
}

-- BlockSize
abbrev pub block_size : ℕ
block_size = 4096

-- class Arena; each block with its size.
pub record Arena : Type 0 where
  pub alloc_ptr : ℕ
  pub remaining : ℕ
  pub blocks : List (ℕ × ℕ)
  pub memory_usage : ℕ

-- Arena()
unfoldable pub new_arena : Arena
new_arena = record { alloc_ptr = 0; remaining = 0; blocks = []; memory_usage = 0 }

-- How far the pointer is from the next multiple of eight.
unfoldable pub slop : ℕ → ℕ
slop p = let m = bit_and p 7 in if m == 0 then 0 else 8 - m

module _ (fresh : ℕ) where
  -- AllocateNewBlock
  unfoldable pub allocate_new_block : ℕ → Arena → ℕ × Arena
  allocate_new_block bytes a = (
    fresh,
    record a {
      blocks = a.blocks ++ (fresh, bytes) ∷ [];
      memory_usage = a.memory_usage + (bytes + 8);
    },
  )

  -- AllocateFallback
  unfoldable pub allocate_fallback : ℕ → Arena → ℕ × Arena
  allocate_fallback bytes a =
      if ltb (block_size / 4) bytes
      then allocate_new_block bytes a
      else (let (p, b) = allocate_new_block block_size a in
          (p, record b { alloc_ptr = p + bytes; remaining = block_size - bytes }))

  -- Allocate; its assertion is `bytes > 0`.
  unfoldable pub allocate : ℕ → Arena → ℕ × Arena
  allocate bytes a =
      if leb bytes a.remaining
      then (
        a.alloc_ptr,
        record a { alloc_ptr = a.alloc_ptr + bytes; remaining = a.remaining - bytes },
      )
      else allocate_fallback bytes a

  -- AllocateAligned
  unfoldable pub allocate_aligned : ℕ → Arena → ℕ × Arena
  allocate_aligned bytes a =
      let needed = (bytes + slop a.alloc_ptr) % 2 ^ 64 in
      if leb needed a.remaining
      then (
        a.alloc_ptr + slop a.alloc_ptr,
        record a { alloc_ptr = a.alloc_ptr + needed; remaining = a.remaining - needed },
      )
      else allocate_fallback bytes a
