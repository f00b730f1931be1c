-- ===== src/Tests/Marking.antt =====
-- The theorems on marking a node as removed, on the node with two levels.
use skippy_rs.Base.{ℕ, ◌≡◌, ok, arith, refl, some, true}
use skippy_rs.Node.{right, wrong, height}
use skippy_rs.Node.Header.{word}
use skippy_rs.Store.{Ptr, Link, SkipList, update}
use skippy_rs.Removal.{entry_remove}
use skippy_rs.Removal.Marks.{tagged, remove_twice, entry_remove-marked, try_remove_and_tag-once}
use skippy_rs.Tests.Lists.{two}

abbrev start : SkipList ℕ
start = two 50 90

entry_remove-marked_example :
    (f : Ptr → ℕ → Link) × (entry_remove 200 start
      ≡ ok (some 200) (record start { header = update start.header 200 (word true 2 2); link = f }))
    × ((a : Ptr) (m : ℕ) → f a m ≡ tagged start.link 200 2 1 a m)
unfolding height
entry_remove-marked_example =
    entry_remove-marked {s = start} {p = 200} {n = 2}
      (record { ne_null = omega arith; live = refl; header = refl }) (omega arith) (omega arith) 2
      (omega arith) (λ m lt. refl) refl

try_remove_and_tag-once_example :
    (s' : SkipList ℕ) × (remove_twice 200 start ≡ ok (right tt, wrong tt) s')
    × ((a : Ptr) (m : ℕ) → s'.link a m ≡ tagged start.link 200 2 1 a m)
unfolding height
try_remove_and_tag-once_example =
    try_remove_and_tag-once {s = start} {p = 200} {n = 2}
      (record { ne_null = omega arith; live = refl; header = refl }) (omega arith) (omega arith) 2
      (omega arith) (λ m lt. refl) refl
