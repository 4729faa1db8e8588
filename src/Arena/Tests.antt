-- ===== src/Arena/Tests.antt =====
-- The theorems on the arena with a heap that puts blocks one behind the other.
use level_db.Prelude.{
  ℕ, ◌+◌, ◌*◌, ◌/◌, ◌%◌, ◌≤◌, ◌≡◌, refl, List, [], ◌∷◌, some, All, arith, inl, inr, max,
}
use level_db.Arena.{Arena, empty_arena, allocate, allocate_aligned}
use level_db.Arena.Blocks.{Disjoint, IsHeap, IsArena}
use level_db.Arena.Regions.{allocate-IsArena, allocate_aligned-IsArena}

-- The first multiple of 8 behind all blocks.
end_of : List (ℕ × ℕ) → ℕ
end_of [] = 4096
end_of ((p, n) ∷ bs) = max (p + n) (end_of bs)

bump : ℕ → List (ℕ × ℕ) → ℕ
unfolding end_of
bump n bs = (end_of bs + 7) / 8 * 8

bump_apart : (p n : ℕ) (bs : List (ℕ × ℕ)) → end_of bs ≤ p → All (Disjoint p n) bs
unfolding end_of
bump_apart p n [] h = tt
bump_apart p n ((q, m) ∷ bs) h = (omega (arith, h), bump_apart p n bs (omega (arith, h)))

bump-IsHeap : IsHeap bump
unfolding bump
bump-IsHeap n bs = (bump_apart ((end_of bs + 7) / 8 * 8) n bs (omega arith), omega arith)

empty-IsArena : IsArena empty_arena []
empty-IsArena = record {
  inside = tt;
  apart = tt;
  rest_inside = inl refl;
  rest_apart = inl refl;
  usage = refl;
}

allocate-IsArena_example :
    (p : ℕ) × (a : Arena) × (allocate bump 100 empty_arena ≡ some (p, a))
    × IsArena a ((p, 100) ∷ [])
allocate-IsArena_example =
    allocate-IsArena bump bump-IsHeap 100 empty_arena [] (omega arith) empty-IsArena

-- An arena that has handed out seven bytes of its first block.
abbrev used : Arena
used = record {
  alloc_ptr = 4103;
  alloc_bytes_remaining = 4089;
  blocks = (4096, 4096) ∷ [];
  memory_usage = 4104;
}

used-IsArena : IsArena used ((4096, 7) ∷ [])
used-IsArena = record {
  inside = (inl (omega arith), tt);
  apart = (tt, tt);
  rest_inside = inr (inl (omega arith));
  rest_apart = inr (inr (omega arith), tt);
  usage = refl;
}

allocate_aligned-IsArena_example :
    (p : ℕ) × (a : Arena) × (allocate_aligned bump 16 used ≡ some (p, a))
    × (p % 8 ≡ 0)
    × IsArena a ((p, 16) ∷ (4096, 7) ∷ [])
allocate_aligned-IsArena_example =
    allocate_aligned-IsArena bump bump-IsHeap 16 used ((4096, 7) ∷ []) (omega arith) (omega arith)
      used-IsArena
