-- ===== src/Posix/LockTable.antt =====
-- `LockOrUnlock`, `PosixFileLock` and `PosixLockTable` of util/env_posix.cpp.
use level_db.Prelude.{
  ℕ, ◌≡◌, refl, ap, ◌∙◌, sym, Bool, true, false, ◌||◌, not, List, [], ◌∷◌, Bytes, if◌then◌else◌,
  Bool-cases, inl, inr, arith, if-true, if-false,
}
use level_db.Slice.{equal}
use level_db.Slice.Prefix.{equal_iff}

-- `struct flock` as far as `LockOrUnlock` sets it; `fcntl` with `F_SETLK` answers whether it
-- succeeds.
pub record Flock : Type 0 where
  pub write_lock : Bool
  pub from_start : Bool
  pub l_start : ℕ
  pub l_len : ℕ

pub lock_or_unlock : {W : Type 0} → (ℕ → Flock → W → Bool × W) → ℕ → Bool → W → Bool × W
lock_or_unlock fcntl fd lock w =
    fcntl fd (record { write_lock = lock; from_start = true; l_start = 0; l_len = 0 }) w

-- `PosixFileLock`
pub record FileLock : Type 0 where
  pub fd : ℕ
  pub name : Bytes

-- `std::set<std::string>` as a list without repetitions.
pub is_locked : List Bytes → Bytes → Bool
is_locked [] f = false
is_locked (g ∷ gs) f = equal g f || is_locked gs f

-- Whether the name was new.
pub insert : List Bytes → Bytes → Bool × List Bytes
insert locked f = if is_locked locked f then (false, locked) else (true, f ∷ locked)

pub remove : List Bytes → Bytes → List Bytes
remove [] f = []
remove (g ∷ gs) f = let rest = remove gs f in if equal g f then rest else g ∷ rest

-- The calls of all threads; the mutex puts them in one order.
pub data Event : Type 0 where
  inserted removed : Bytes → Event

pub after : List Bytes → Event → List Bytes
unfolding insert remove
after locked (inserted f) = (insert locked f).1
after locked (removed f) = remove locked f

-- The table behind some calls, the newest first.
pub table : List Event → List Bytes
unfolding after
table [] = []
table (e ∷ es) = after (table es) e

-- Whether the newest call with this name has inserted it.
abbrev pub is_taken : List Event → Bytes → Bool
is_taken [] f = false
is_taken (inserted g ∷ es) f = if equal g f then true else is_taken es f
is_taken (removed g ∷ es) f = if equal g f then false else is_taken es f

is_locked-insert :
    (l : List Bytes) (g f : Bytes)
    → is_locked (insert l g).1 f ≡ (if equal g f then true else is_locked l f)
unfolding is_locked insert
is_locked-insert l g f = elim (Bool-cases (is_locked l g)) [
  | inl e ↦ elim (Bool-cases (equal g f)) [
    | inl k ↦ rw (e, k) (ap (is_locked l) (sym ((equal_iff g f).0 k)) ∙ e)
    | inr k ↦ rw (e, k) refl
  ]
  | inr e ↦ elim (Bool-cases (equal g f)) [ inl k ↦ rw (e, k) refl | inr k ↦ rw (e, k) refl ]
]

is_locked-remove :
    (l : List Bytes) (g f : Bytes)
    → is_locked (remove l g) f ≡ (if equal g f then false else is_locked l f)
unfolding is_locked remove
is_locked-remove [] g f = ground arith
is_locked-remove (h ∷ l) g f = elim (Bool-cases (equal h g)) [
  | inl e ↦ elim (Bool-cases (equal g f)) [
    | inl k ↦ rw (e, k) (is_locked-remove l g f ∙ if-true _ _ _ k)
    | inr k ↦
        let other : equal h f ≡ false = ap (λ x. equal x f) ((equal_iff h g).0 e) ∙ k in
        rw (e, k, other) (is_locked-remove l g f ∙ if-false _ _ _ k)
  ]
  | inr e ↦ elim (Bool-cases (equal g f)) [
    | inl k ↦
        let other : equal h f ≡ false = ap (equal h) (sym ((equal_iff g f).0 k)) ∙ e in
        rw (e, k, other) (is_locked-remove l g f ∙ if-true _ _ _ k)
    | inr k ↦ rw (e, k) (ap (λ b. equal h f || b) (is_locked-remove l g f ∙ if-false _ _ _ k))
  ]
]

is_locked-table : (es : List Event) (f : Bytes) → is_locked (table es) f ≡ is_taken es f
unfolding table after is_locked
is_locked-table [] f = refl
is_locked-table (inserted g ∷ es) f =
    is_locked-insert (table es) g f ∙ ap (λ b. if equal g f then true else b) (is_locked-table es f)
is_locked-table (removed g ∷ es) f =
    is_locked-remove (table es) g f
    ∙ ap (λ b. if equal g f then false else b) (is_locked-table es f)

-- After any calls of `Insert` and `Remove` on a new table, `Insert` succeeds exactly when the name
-- has not been inserted since it was last removed.
pub insert-table : (es : List Event) (f : Bytes) → (insert (table es) f).0 ≡ not (is_taken es f)
unfolding insert
insert-table es f = ground (arith, is_locked-table es f)
