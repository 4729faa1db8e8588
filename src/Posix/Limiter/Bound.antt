-- ===== src/Posix/Limiter/Bound.antt =====
-- How many resources the threads of a limiter hold.
use level_db.Prelude.{
  ℕ, zero, suc, ◌+◌, ◌^◌, ◌≤◌, ◌<◌, ◌≡◌, refl, Bool, true, List, [], ◌∷◌, ◌++◌, All, All-split,
  All-append, arith, sym, subst, ◌⊎◌, inl, inr, if◌then◌else◌,
}
use level_db.Posix.Limiter.{
  Pc, idle, holding, passed, entered, releasing, loaded, release_loaded, leaving, System, Move,
  Step, Reach, all_idle, start, later, pick, refuse, pass, lock, load, give_up, take, unlock_with,
  unlock_without, release_lock, release_load, give_back,
}

-- The thread holds a resource that `allowed_` does not count any more.
abbrev pub holds : Pc → ℕ
holds holding = 1
holds releasing = 1
holds (release_loaded x) = 1
holds (leaving true) = 1
holds _ = 0

-- The thread has the mutex.
abbrev pub critical : Pc → ℕ
critical idle = 0
critical holding = 0
critical passed = 0
critical _ = 1

-- What the thread has loaded is still the value.
abbrev IsFresh : ℕ → Pc → Type 0
IsFresh allowed (loaded x) = x ≡ allowed
IsFresh allowed (release_loaded x) = x ≡ allowed
IsFresh allowed _ = Unit

abbrev pub sum : (Pc → ℕ) → List Pc → ℕ
sum f [] = 0
sum f (p ∷ ps) = f p + sum f ps

sum-append : (f : Pc → ℕ) (ps qs : List Pc) → sum f (ps ++ qs) ≡ sum f ps + sum f qs
sum-append f [] qs = omega arith
sum-append f (p ∷ ps) qs = omega (arith, sum-append f ps qs)

sum_idle : (k : ℕ) → (sum holds (all_idle k) ≡ 0) × (sum critical (all_idle k) ≡ 0)
sum_idle zero = (refl, refl)
sum_idle (suc k) = omega (arith, sum_idle k)

record Inv (n : ℕ) (s : System) : Type 0 where
  pub counted : s.allowed + sum holds s.threads ≡ n
  pub exclusive : sum critical s.threads ≡ (if s.locked then 1 else 0)
  pub fresh : All (IsFresh s.allowed) s.threads

-- A thread without the mutex has loaded nothing.
IsFresh-pc : (x : ℕ) (p : Pc) → critical p ≡ 0 → IsFresh x p
IsFresh-pc x idle h = tt
IsFresh-pc x holding h = tt
IsFresh-pc x passed h = tt
IsFresh-pc x entered h = tt
IsFresh-pc x releasing h = tt
IsFresh-pc x (loaded y) h = absurd (omega (arith, h))
IsFresh-pc x (release_loaded y) h = absurd (omega (arith, h))
IsFresh-pc x (leaving b) h = tt

IsFresh-outside : (x : ℕ) (ps : List Pc) → sum critical ps ≡ 0 → All (IsFresh x) ps
IsFresh-outside x [] h = tt
IsFresh-outside x (p ∷ ps) h =
    (IsFresh-pc x p (omega (arith, h)), IsFresh-outside x ps (omega (arith, h)))

-- One move, where the other threads hold `others` resources, and `inside` of them have the mutex.
Move-Inv :
    (n others inside : ℕ) {x x' : ℕ} {b b' : Bool} {p p' : Pc}
    → n < 2 ^ 63
    → Move x b p x' b' p'
    → x + holds p + others ≡ n
    → critical p + inside ≡ (if b then 1 else 0)
    → IsFresh x p
    → (x' + holds p' + others ≡ n)
      × (critical p' + inside ≡ (if b' then 1 else 0))
      × IsFresh x' p'
      × ((x' ≡ x) ⊎ (inside ≡ 0))
Move-Inv n others inside small (refuse h) c e f = (c, e, tt, inl refl)
Move-Inv n others inside small (pass h) c e f = (c, e, tt, inl refl)
Move-Inv n others inside small lock c e f = (c, omega arith, tt, inl refl)
Move-Inv n others inside small load c e f = (c, e, refl, inl refl)
Move-Inv n others inside small (give_up h) c e f = (c, e, tt, inl refl)
Move-Inv n others inside small (take {b} h) c e f = ground arith
Move-Inv n others inside small unlock_with c e f = (c, omega arith, tt, inl refl)
Move-Inv n others inside small unlock_without c e f = (c, omega arith, tt, inl refl)
Move-Inv n others inside small release_lock c e f = (c, omega arith, tt, inl refl)
Move-Inv n others inside small release_load c e f = (c, e, refl, inl refl)
Move-Inv n others inside small (give_back {b}) c e f = ground arith

-- What a move changes for the other threads is nothing that they have loaded.
IsFresh-others :
    (x x' inside : ℕ) (ps : List Pc)
    → sum critical ps ≤ inside
    → (x' ≡ x) ⊎ (inside ≡ 0)
    → All (IsFresh x) ps
    → All (IsFresh x') ps
IsFresh-others x x' inside ps few (inl same) h = subst (λ y. All (IsFresh y) ps) (sym same) h
IsFresh-others x x' inside ps few (inr none_inside) h = IsFresh-outside x' ps (omega arith)

Step-Inv : {n : ℕ} {s t : System} → n < 2 ^ 63 → Step s t → Inv n s → Inv n t
Step-Inv {n} small (pick {x} {x'} {p} {p'} before after move) h =
    let others = sum holds before + sum holds after in
    let inside = sum critical before + sum critical after in
    let (kept_before, (fresh_p, fresh_after)) = All-split (IsFresh x) before (p ∷ after) h.fresh in
    let (counted, exclusive, fresh, kept) =
      Move-Inv n others inside small move
        (omega (arith, h.counted, sum-append holds before (p ∷ after)))
        (omega (arith, h.exclusive, sum-append critical before (p ∷ after))) fresh_p in
    record {
      counted = omega (arith, counted, sum-append holds before (p' ∷ after));
      exclusive = omega (arith, exclusive, sum-append critical before (p' ∷ after));
      fresh =
          All-append (IsFresh x') before (p' ∷ after)
            (IsFresh-others x x' inside before (omega arith) kept kept_before)
            (fresh, IsFresh-others x x' inside after (omega arith) kept fresh_after);
    }

IsFresh-idle : (x k : ℕ) → All (IsFresh x) (all_idle k)
IsFresh-idle x zero = tt
IsFresh-idle x (suc k) = (tt, IsFresh-idle x k)

Reach-Inv : {n k : ℕ} {s : System} → n < 2 ^ 63 → Reach n k s → Inv n s
Reach-Inv {n} {k} small start = record {
  counted = omega (arith, sum_idle k);
  exclusive = (sum_idle k).1;
  fresh = IsFresh-idle n k;
}
Reach-Inv small (later r step) = Step-Inv small step (Reach-Inv small r)

-- In every state that threads reach which call `Acquire` and `Release` of a limiter for n
-- resources, in whatever order their steps come, `allowed_` and the resources that threads hold
-- make up n: no more than n resources are held, and none is lost.
pub Reach-holds :
    {n k : ℕ} {s : System}
    → n < 2 ^ 63
    → Reach n k s
    → (s.allowed + sum holds s.threads ≡ n) × (sum critical s.threads ≤ 1)
Reach-holds {s} small r = let h = Reach-Inv small r in (h.counted, ground (arith, h.exclusive))
