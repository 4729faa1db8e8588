-- ===== src/Slice/Prefix.antt =====
-- Equality of slices, and prefixes: what `starts_with` accepts, `remove_prefix` takes away.
use level_db.Prelude.{
  ℕ, zero, suc, ◌≤◌, ◌≡◌, ◌↔◌, refl, sym, ap, ◌∙◌, true, [], ◌∷◌, ◌++◌, some, Bytes, length, take,
  drop, arith, length-append, append-nil, take-append-drop, drop-append_length,
}
use level_db.Slice.{Sign, memcmp, is_nil, size, starts_with, equal, remove_prefix}

-- `memcmp` finds no difference exactly where the first bytes agree.
memcmp_sound :
    (a b : Bytes) (n : ℕ)
    → n ≤ length a
    → n ≤ length b
    → memcmp a b n ≡ Sign.nil
    → take n a ≡ take n b
unfolding memcmp
memcmp_sound a b zero h k e = refl
memcmp_sound [] b (suc n) h k e = absurd (omega arith)
memcmp_sound (x ∷ a) [] (suc n) h k e = absurd (omega arith)
memcmp_sound (x ∷ a) (y ∷ b) (suc n) h k e = ground (arith, memcmp_sound a b n)

memcmp-append : (x rest : Bytes) → memcmp (x ++ rest) x (length x) ≡ Sign.nil
unfolding memcmp
memcmp-append [] rest = refl
memcmp-append (c ∷ x) rest = ground (arith, memcmp-append x rest)

take_all : (x : Bytes) → take (length x) x ≡ x
take_all [] = refl
take_all (c ∷ x) = ground (arith, take_all x)

is_nil-nil : (s : Sign) → is_nil s ≡ true → s ≡ Sign.nil
is_nil-nil s h = ground arith

-- `operator==` holds exactly of slices with the same bytes.
pub equal_iff : (x y : Bytes) → (equal x y ≡ true) ↔ (x ≡ y)
unfolding equal
equal_iff x y = (
  (λ h.
      let same : length x ≡ length y = ground arith in
      let cmp : memcmp x y (length x) ≡ Sign.nil =
        ground (arith, is_nil-nil (memcmp x y (length x))) in
      sym (take_all x)
      ∙ memcmp_sound x y (length x) (omega arith) (omega arith) cmp
      ∙ ap (λ n. take n y) same
      ∙ take_all y),
  (λ e. rw e (ground (arith, memcmp-append y [], append-nil y))),
)

starts_with-drop : (s x : Bytes) → starts_with s x ≡ true → s ≡ x ++ drop (length x) s
unfolding starts_with
starts_with-drop s x h =
    let fits : length x ≤ length s = ground arith in
    let cmp : memcmp s x (length x) ≡ Sign.nil =
      ground (arith, is_nil-nil (memcmp s x (length x))) in
    let front : take (length x) s ≡ x =
      memcmp_sound s x (length x) fits (omega arith) cmp ∙ take_all x in
    sym (take-append-drop (length x) s) ∙ ap (λ t. t ++ drop (length x) s) front

pub starts_with-append : (x rest : Bytes) → starts_with (x ++ rest) x ≡ true
unfolding starts_with
starts_with-append x rest = ground (arith, memcmp-append x rest, length-append x rest)

pub remove_prefix-append : (x rest : Bytes) → remove_prefix (x ++ rest) (size x) ≡ some rest
unfolding remove_prefix
remove_prefix-append x rest = ground (arith, length-append x rest, drop-append_length x rest)

-- `starts_with` accepts exactly the slices that are the prefix followed by some rest, and
-- `remove_prefix` of as many bytes as the prefix has then succeeds and leaves that rest.
pub starts_with_iff :
    (s x : Bytes)
    → (starts_with s x ≡ true)
      ↔ ((rest : Bytes) × (s ≡ x ++ rest) × (remove_prefix s (size x) ≡ some rest))
unfolding starts_with remove_prefix
starts_with_iff s x = (
  (λ h. (drop (length x) s, starts_with-drop s x h, ground arith)),
  (λ (rest, e, r). rw e (ground (arith, memcmp-append x rest, length-append x rest))),
)
