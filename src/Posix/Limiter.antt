-- ===== src/Posix/Limiter.antt =====
-- The class `Limiter` of util/env_posix.cpp, as its two operations and as the steps of the threads
-- that call them. `allowed_` is an `intptr_t`, its pattern of 64 bits.
pub mod Bound
use level_db.Prelude.{
  ℕ, zero, suc, ◌+◌, ◌-◌, ◌%◌, ◌^◌, ◌≡◌, Bool, true, false, ◌&&◌, List, [], ◌∷◌, ◌++◌, ltb,
  if◌then◌else◌,
}

abbrev pub is_positive : ℕ → Bool
is_positive x = ltb 0 x && ltb x (2 ^ 63)

-- A call that no other thread interrupts.
unfoldable pub acquire : ℕ → Bool × ℕ
acquire allowed = if is_positive allowed then (true, allowed - 1) else (false, allowed)

unfoldable pub release : ℕ → ℕ
release allowed = (allowed + 1) % 2 ^ 64

-- Where a thread stands: outside of the calls without or with a resource; behind the first test of
-- `Acquire`; with the mutex, before and behind `GetAllowed`; with the mutex in `Release`, before
-- and behind `GetAllowed`; with the mutex behind the last store, to go on with or without a
-- resource.
pub data Pc : Type 0 where
  idle holding passed entered releasing : Pc
  loaded release_loaded : ℕ → Pc
  leaving : Bool → Pc

pub record System : Type 0 where
  pub allowed : ℕ
  pub locked : Bool
  pub threads : List Pc

-- One step of one thread, with what it reads and leaves of `allowed_` and the mutex.
pub data Move : ℕ → Bool → Pc → ℕ → Bool → Pc → Type 0 where
  refuse : {x : ℕ} {b : Bool} → is_positive x ≡ false → Move x b idle x b idle
  pass : {x : ℕ} {b : Bool} → is_positive x ≡ true → Move x b idle x b passed
  lock : {x : ℕ} → Move x false passed x true entered
  load : {x : ℕ} {b : Bool} → Move x b entered x b (loaded x)
  give_up : {x y : ℕ} {b : Bool} → is_positive y ≡ false → Move x b (loaded y) x b (leaving false)
  take : {x y : ℕ} {b : Bool} → is_positive y ≡ true → Move x b (loaded y) (y - 1) b (leaving true)
  unlock_with : {x : ℕ} → Move x true (leaving true) x false holding
  unlock_without : {x : ℕ} → Move x true (leaving false) x false idle
  release_lock : {x : ℕ} → Move x false holding x true releasing
  release_load : {x : ℕ} {b : Bool} → Move x b releasing x b (release_loaded x)
  give_back :
      {x y : ℕ} {b : Bool} → Move x b (release_loaded y) ((y + 1) % 2 ^ 64) b (leaving false)

-- The scheduler picks a thread.
pub data Step : System → System → Type 0 where
  pick :
      {x x' : ℕ} {b b' : Bool} {p p' : Pc} (before after : List Pc)
      → Move x b p x' b' p'
      → Step
          (record { allowed = x; locked = b; threads = before ++ p ∷ after })
          (record { allowed = x'; locked = b'; threads = before ++ p' ∷ after })

abbrev pub all_idle : ℕ → List Pc
all_idle zero = []
all_idle (suc k) = idle ∷ all_idle k

-- `Limiter(n)` with `k` threads that have not called it yet.
abbrev pub new_system : ℕ → ℕ → System
new_system n k = record { allowed = n; locked = false; threads = all_idle k }

pub data Reach (n k : ℕ) : System → Type 0 where
  start : Reach n k (new_system n k)
  later : {s t : System} → Reach n k s → Step s t → Reach n k t
