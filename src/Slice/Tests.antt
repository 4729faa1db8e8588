-- ===== src/Slice/Tests.antt =====
-- The theorems on slices at concrete slices, and runs of the operations.
use level_db.Prelude.{◌≡◌, ◌↔◌, refl, true, some, none, codes}
use level_db.Slice.{Sign, compare, starts_with, remove_prefix, not_equal, at}
use level_db.Slice.Order.{Before, compare_iff}

remove_prefix_run : remove_prefix (codes "MANIFEST-7") 9 ≡ some (codes "7")
unfolding remove_prefix
remove_prefix_run = refl

remove_prefix_fails : remove_prefix (codes "ab") 3 ≡ none
unfolding remove_prefix
remove_prefix_fails = refl

starts_with_run : starts_with (codes "MANIFEST-7") (codes "MANIFEST") ≡ true
unfolding starts_with
starts_with_run = refl

not_equal_run : not_equal (codes "ab") (codes "abc") ≡ true
unfolding not_equal
not_equal_run = refl

at_run : at (codes "abc") 1 ≡ some b'b'
unfolding at
at_run = refl

compare_run : compare (codes "ab") (codes "b") ≡ Sign.minus
unfolding compare
compare_run = refl

compare_iff_example :
    ((compare (codes "a") (codes "ab") ≡ Sign.minus) ↔ Before (codes "a") (codes "ab"))
    × ((compare (codes "a") (codes "ab") ≡ Sign.nil) ↔ (codes "a" ≡ codes "ab"))
    × ((compare (codes "a") (codes "ab") ≡ Sign.plus) ↔ Before (codes "ab") (codes "a"))
compare_iff_example = compare_iff (codes "a") (codes "ab")
