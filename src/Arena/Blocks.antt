-- ===== src/Arena/Blocks.antt =====
-- Regions of memory: when they are apart, and what it means that an arena holds them.
use level_db.Prelude.{ℕ, ◌+◌, ◌%◌, ◌^◌, ◌≤◌, ◌≡◌, ◌⊎◌, inl, inr, List, [], ◌∷◌, All, arith}
use level_db.Arena.{Arena}

abbrev pub Disjoint : ℕ → ℕ → ℕ × ℕ → Type 0
Disjoint p n (q, m) = (p + n ≤ q) ⊎ (q + m ≤ p)

abbrev pub Inside : ℕ → ℕ → List (ℕ × ℕ) → Type 0
Inside p n [] = ⊥
Inside p n ((base, size) ∷ bs) = ((base ≤ p) × (p + n ≤ base + size)) ⊎ Inside p n bs

-- Every two regions of the list.
abbrev pub Apart : List (ℕ × ℕ) → Type 0
Apart [] = Unit
Apart ((p, n) ∷ rs) = All (Disjoint p n) rs × Apart rs

-- The sizes of the blocks and of the pointers to them.
abbrev pub total : List (ℕ × ℕ) → ℕ
total [] = 0
total ((base, size) ∷ bs) = total bs + size + 8

-- What holds of an arena that has handed out these regions. The rest of the current block is one
-- more region, apart from all of them.
pub record IsArena (a : Arena) (regions : List (ℕ × ℕ)) : Type 0 where
  pub inside : All (λ r. Inside r.0 r.1 a.blocks) regions
  pub apart : Apart regions
  pub rest_inside :
      (a.alloc_bytes_remaining ≡ 0) ⊎ Inside a.alloc_ptr a.alloc_bytes_remaining a.blocks
  pub rest_apart :
      (a.alloc_bytes_remaining ≡ 0) ⊎ All (Disjoint a.alloc_ptr a.alloc_bytes_remaining) regions
  pub usage : a.memory_usage ≡ total a.blocks % 2 ^ 64

-- A part of a region is apart from what the region is apart from.
pub Disjoint-part :
    (p n p' n' : ℕ) (rs : List (ℕ × ℕ))
    → p ≤ p'
    → p' + n' ≤ p + n
    → All (Disjoint p n) rs
    → All (Disjoint p' n') rs
Disjoint-part p n p' n' [] low high h = tt
Disjoint-part p n p' n' ((q, m) ∷ rs) low high (d, h) =
    (omega (arith, d), Disjoint-part p n p' n' rs low high h)

pub Inside-part :
    (p n p' n' : ℕ) (bs : List (ℕ × ℕ)) → p ≤ p' → p' + n' ≤ p + n → Inside p n bs → Inside p' n' bs
Inside-part p n p' n' [] low high h = elim h [ ]
Inside-part p n p' n' ((base, size) ∷ bs) low high (inl h) = inl (omega (arith, h))
Inside-part p n p' n' (b ∷ bs) low high (inr h) = inr (Inside-part p n p' n' bs low high h)

-- A block that is apart from all blocks is apart from what lies in them.
pub apart_of_blocks :
    (p n q m : ℕ) (bs : List (ℕ × ℕ)) → All (Disjoint p n) bs → Inside q m bs → Disjoint p n (q, m)
apart_of_blocks p n q m [] d h = elim h [ ]
apart_of_blocks p n q m ((base, size) ∷ bs) (d, h) (inl i) = omega (arith, d, i)
apart_of_blocks p n q m (b ∷ bs) (d, h) (inr i) = apart_of_blocks p n q m bs h i

pub apart_of_regions :
    (p n : ℕ) (bs rs : List (ℕ × ℕ))
    → All (Disjoint p n) bs
    → All (λ r. Inside r.0 r.1 bs) rs
    → All (Disjoint p n) rs
apart_of_regions p n bs [] h i = tt
apart_of_regions p n bs ((q, m) ∷ rs) h (i, is) =
    (apart_of_blocks p n q m bs h i, apart_of_regions p n bs rs h is)

pub more_blocks :
    (b : ℕ × ℕ) (bs rs : List (ℕ × ℕ))
    → All (λ r. Inside r.0 r.1 bs) rs
    → All (λ r. Inside r.0 r.1 (b ∷ bs)) rs
more_blocks b bs [] h = tt
more_blocks b bs (r ∷ rs) (i, h) = (inr i, more_blocks b bs rs h)

-- What the heap promises of `new char[n]`: the block fits the address space, is aligned for any
-- pointer and apart from the blocks that are not freed.
abbrev pub IsHeap : (ℕ → List (ℕ × ℕ) → ℕ) → Type 0
IsHeap new = (n : ℕ) (bs : List (ℕ × ℕ)) → All (Disjoint (new n bs) n) bs × (new n bs % 8 ≡ 0)

pub flip_apart : (p n q m : ℕ) → Disjoint p n (q, m) → Disjoint q m (p, n)
flip_apart p n q m h = omega (arith, h)
