-- ===== src/Arena.antt =====
-- util/arena.cpp and util/arena.hpp: the arena. `new char[n]` is a parameter: the address that it
-- answers may depend on the blocks that the arena has. An address is a number. A block is its
-- address with its size, which the source leaves to the heap. `none` is a failed `assert`.
pub mod Blocks
pub mod Regions
pub mod Tests
use level_db.Prelude.{
  ℕ, ◌+◌, ◌-◌, ◌%◌, ◌^◌, Bool, List, [], ◌∷◌, Option, none, some, ltb, leb, ◌==◌, if◌then◌else◌,
  assert,
}

pub record Arena : Type 0 where
  pub alloc_ptr : ℕ
  pub alloc_bytes_remaining : ℕ
  pub blocks : List (ℕ × ℕ)
  pub memory_usage : ℕ

abbrev pub block_size : ℕ
block_size = 4096

abbrev pub empty_arena : Arena
empty_arena = record { alloc_ptr = 0; alloc_bytes_remaining = 0; blocks = []; memory_usage = 0 }

-- `slop` for an alignment of 8.
pub slop_of : ℕ → ℕ
slop_of p = if p % 8 == 0 then 0 else 8 - p % 8

module _ (new : ℕ → List (ℕ × ℕ) → ℕ) where
  -- A pointer has 8 bytes.
  pub allocate_new_block : ℕ → Arena → ℕ × Arena
  allocate_new_block block_bytes a =
      let result = new block_bytes a.blocks in
      (
        result,
        record a {
          blocks = (result, block_bytes) ∷ a.blocks;
          memory_usage = (a.memory_usage + block_bytes + 8) % 2 ^ 64;
        },
      )

  pub allocate_fallback : ℕ → Arena → ℕ × Arena
  unfolding allocate_new_block
  allocate_fallback bytes a =
      if ltb 1024 bytes
      then allocate_new_block bytes a
      else (let (result, a') = allocate_new_block block_size a in
          (
            result,
            record a' { alloc_ptr = result + bytes; alloc_bytes_remaining = block_size - bytes },
          ))

  pub allocate : ℕ → Arena → Option (ℕ × Arena)
  unfolding allocate_fallback
  allocate bytes a = assert (ltb 0 bytes) (
      some (
        if leb bytes a.alloc_bytes_remaining
        then (
          a.alloc_ptr,
          record a {
            alloc_ptr = a.alloc_ptr + bytes;
            alloc_bytes_remaining = a.alloc_bytes_remaining - bytes;
          },
        )
        else allocate_fallback bytes a))

  -- The local variable `result` and the arena; the function misses the `return` of it.
  pub allocate_aligned : ℕ → Arena → Option (ℕ × Arena)
  unfolding allocate_fallback slop_of
  allocate_aligned bytes a =
      let slop = slop_of a.alloc_ptr in
      let needed = (bytes + slop) % 2 ^ 64 in
      let (result, a') =
        if leb needed a.alloc_bytes_remaining
        then (
          a.alloc_ptr + slop,
          record a {
            alloc_ptr = a.alloc_ptr + needed;
            alloc_bytes_remaining = a.alloc_bytes_remaining - needed;
          },
        )
        else allocate_fallback bytes a in
      assert (result % 8 == 0) (some (result, a'))
