-- ===== src/Arena/Regions.antt =====
-- The regions that an arena hands out, in its blocks.
use level_db.Prelude.{
  ℕ, ◌+◌, ◌-◌, ◌%◌, ◌^◌, ◌≤◌, ◌<◌, ◌≡◌, inl, inr, refl, true, List, ◌∷◌, some, All, arith,
  Bool-cases, ltb, leb,
}
use level_db.Arena.{
  Arena, allocate, allocate_fallback, allocate_new_block, allocate_aligned, slop_of, block_size,
}
use level_db.Arena.Blocks.{
  Disjoint, Inside, total, IsArena, Disjoint-part, Inside-part, apart_of_blocks, apart_of_regions,
  more_blocks, IsHeap, flip_apart,
}

slop_of_lem : (p : ℕ) → (slop_of p < 8) × ((p + slop_of p) % 8 ≡ 0)
unfolding slop_of
slop_of_lem p = ground arith

module _ (new : ℕ → List (ℕ × ℕ) → ℕ) (heap : IsHeap new) where
  usage_lem : (u t n : ℕ) → u ≡ t % 2 ^ 64 → (u + n + 8) % 2 ^ 64 ≡ (t + n + 8) % 2 ^ 64
  usage_lem u t n h = omega (arith, h)

  -- A whole block is handed out, and the current block stays.
  own_block :
      (n : ℕ) (a : Arena) (rs : List (ℕ × ℕ))
      → 0 < n
      → IsArena a rs
      → IsArena (allocate_new_block new n a).1 (((allocate_new_block new n a).0, n) ∷ rs)
  unfolding allocate_new_block
  own_block n a rs pos h =
      let p = new n a.blocks in
      let fresh = (heap n a.blocks).0 in
      record {
        inside = (inl (omega arith), more_blocks (p, n) a.blocks rs h.inside);
        apart = (apart_of_regions p n a.blocks rs fresh h.inside, h.apart);
        rest_inside = elim h.rest_inside [ inl z ↦ inl z | inr i ↦ inr (inr i) ];
        rest_apart = elim h.rest_inside [
          | inl z ↦ inl z
          | inr i ↦ elim h.rest_apart [
            | inl z ↦ inl z
            | inr d ↦ inr (
              flip_apart p n a.alloc_ptr a.alloc_bytes_remaining
                  (apart_of_blocks p n a.alloc_ptr a.alloc_bytes_remaining a.blocks fresh i),
              d,
            )
          ]
        ];
        usage = usage_lem a.memory_usage (total a.blocks) n h.usage;
      }

  -- A part of the rest is handed out, behind some bytes that are skipped.
  cut_rest :
      (skip n start needed : ℕ) (a : Arena) (rs : List (ℕ × ℕ))
      → start ≡ a.alloc_ptr + skip
      → needed ≡ n + skip
      → 0 < n
      → needed ≤ a.alloc_bytes_remaining
      → IsArena a rs
      → IsArena
          (record a {
            alloc_ptr = a.alloc_ptr + needed;
            alloc_bytes_remaining = a.alloc_bytes_remaining - needed;
          })
          ((start, n) ∷ rs)
  cut_rest skip n start needed a rs at size pos fits h =
      let p = a.alloc_ptr in
      let rest = a.alloc_bytes_remaining in
      let within : Inside p rest a.blocks = elim h.rest_inside [
        | inl z ↦ absurd (omega arith)
        | inr i ↦ i
      ] in
      let away : All (Disjoint p rest) rs = elim h.rest_apart [
        | inl z ↦ absurd (omega arith)
        | inr d ↦ d
      ] in
      record {
        inside = (Inside-part p rest start n a.blocks (omega arith) (omega arith) within, h.inside);
        apart = (Disjoint-part p rest start n rs (omega arith) (omega arith) away, h.apart);
        rest_inside = inr (
            Inside-part p rest (p + needed) (rest - needed) a.blocks (omega arith) (omega arith)
              within);
        rest_apart = inr (
          inr (omega arith),
          Disjoint-part p rest (p + needed) (rest - needed) rs (omega arith) (omega arith) away,
        );
        usage = h.usage;
      }

  -- A new current block, of which nothing is handed out yet.
  new_current :
      (a : Arena) (rs : List (ℕ × ℕ))
      → IsArena a rs
      → IsArena
          (record (allocate_new_block new block_size a).1 {
            alloc_ptr = new block_size a.blocks;
            alloc_bytes_remaining = block_size;
          })
          rs
  unfolding allocate_new_block
  new_current a rs h =
      let p = new block_size a.blocks in
      record {
        inside = more_blocks (p, block_size) a.blocks rs h.inside;
        apart = h.apart;
        rest_inside = inr (inl (omega arith));
        rest_apart =
            inr (apart_of_regions p block_size a.blocks rs (heap block_size a.blocks).0 h.inside);
        usage = usage_lem a.memory_usage (total a.blocks) block_size h.usage;
      }

  -- Small requests leave a part of the new block for the next ones.
  fallback-IsArena :
      (n : ℕ) (a : Arena) (rs : List (ℕ × ℕ))
      → 0 < n
      → IsArena a rs
      → IsArena (allocate_fallback new n a).1 (((allocate_fallback new n a).0, n) ∷ rs)
  unfolding allocate_fallback allocate_new_block
  fallback-IsArena n a rs pos h = elim (Bool-cases (ltb 1024 n)) [
    | inl e ↦ rw e (own_block n a rs pos h)
    | inr e ↦ rw e (
        cut_rest 0 n (new block_size a.blocks) n
          (record (allocate_new_block new block_size a).1 {
            alloc_ptr = new block_size a.blocks;
            alloc_bytes_remaining = block_size;
          })
          rs (omega arith) (omega arith) pos (ground arith) (new_current a rs h))
  ]

  fallback_aligned : (n : ℕ) (a : Arena) → (allocate_fallback new n a).0 % 8 ≡ 0
  unfolding allocate_fallback allocate_new_block
  fallback_aligned n a = elim (Bool-cases (ltb 1024 n)) [
    | inl e ↦ rw e (heap n a.blocks).1
    | inr e ↦ rw e (heap block_size a.blocks).1
  ]

  -- `Allocate` of a positive number of bytes succeeds, and hands out a region of that size that
  -- lies in one block of the arena and overlaps none of the regions handed out before; the memory
  -- usage is the total size of the blocks and of the pointers to them, modulo 2^64.
  pub allocate-IsArena :
      (n : ℕ) (a : Arena) (rs : List (ℕ × ℕ))
      → 0 < n
      → IsArena a rs
      → (p : ℕ) × (a' : Arena) × (allocate new n a ≡ some (p, a')) × IsArena a' ((p, n) ∷ rs)
  unfolding allocate
  allocate-IsArena n a rs pos h =
      let positive : ltb 0 n ≡ true = ground arith in
      elim (Bool-cases (leb n a.alloc_bytes_remaining)) [
        | inl e ↦ (
          a.alloc_ptr,
          record a {
            alloc_ptr = a.alloc_ptr + n;
            alloc_bytes_remaining = a.alloc_bytes_remaining - n;
          },
          rw (positive, e) refl,
          cut_rest 0 n a.alloc_ptr n a rs (omega arith) (omega arith) pos (ground arith) h,
        )
        | inr e ↦ (
          (allocate_fallback new n a).0,
          (allocate_fallback new n a).1,
          rw (positive, e) refl,
          fallback-IsArena n a rs pos h,
        )
      ]

  -- `AllocateAlignement` of a positive number of bytes, with room for the alignment in 64 bits,
  -- keeps every assertion: its `result` is a multiple of 8 and begins a region of that size that
  -- lies in one block of the arena and overlaps none of the regions handed out before.
  pub allocate_aligned-IsArena :
      (n : ℕ) (a : Arena) (rs : List (ℕ × ℕ))
      → 0 < n
      → n + 8 ≤ 2 ^ 64
      → IsArena a rs
      → (p : ℕ) × (a' : Arena) × (allocate_aligned new n a ≡ some (p, a'))
        × (p % 8 ≡ 0)
        × IsArena a' ((p, n) ∷ rs)
  unfolding allocate_aligned
  allocate_aligned-IsArena n a rs pos fits h =
      let slop = slop_of a.alloc_ptr in
      let needed = (n + slop) % 2 ^ 64 in
      let exact : needed ≡ n + slop = omega (arith, slop_of_lem a.alloc_ptr) in
      elim (Bool-cases (leb needed a.alloc_bytes_remaining)) [
        | inl e ↦ (
          a.alloc_ptr + slop,
          record a {
            alloc_ptr = a.alloc_ptr + needed;
            alloc_bytes_remaining = a.alloc_bytes_remaining - needed;
          },
          rw (e, (slop_of_lem a.alloc_ptr).1) refl,
          (slop_of_lem a.alloc_ptr).1,
          cut_rest slop n (a.alloc_ptr + slop) needed a rs refl exact pos (ground arith) h,
        )
        | inr e ↦ (
          (allocate_fallback new n a).0,
          (allocate_fallback new n a).1,
          rw (e, fallback_aligned n a) refl,
          fallback_aligned n a,
          fallback-IsArena n a rs pos h,
        )
      ]
