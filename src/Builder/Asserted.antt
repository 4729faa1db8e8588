-- ===== src/Builder/Asserted.antt =====
-- The assertion at the end of a table.
use level_db.Prelude.{
  ◌≡◌, Bool, true, false, some, if◌then◌else◌, assert, assert-eq-some, from_some,
}

pub asserted :
    {A : Type 0} (b c : Bool) (x r : A) → (if b then assert c (some x) else some x) ≡ some r → x ≡ r
asserted true c x r h = from_some x r (assert-eq-some c (some x) r h)
asserted false c x r h = from_some x r h
