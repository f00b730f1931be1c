-- ===== src/Tests/Insertion.antt =====
-- The theorems on insertion, removal and reading, on the list with two nodes.
use skippy_rs.Base.{ℕ, ◌≡◌, arith, List, [], ◌∷◌, none, some, false, ok, refl, if◌then◌else◌}
use skippy_rs.Store.{SkipList, Ptr}
use skippy_rs.Cells.{Cell, IsList}
use skippy_rs.Spec.{entries, lookup, put, delete}
use skippy_rs.Tests.Lists.{cells, two, two-IsList}
use skippy_rs.SkipList.{insert, remove, find, SearchResult}
use skippy_rs.SkipList.Find.{find-IsFound, IsFound}
use skippy_rs.SkipList.Put.{insert-put}
use skippy_rs.SkipList.Delete.{remove-delete, is_target}

abbrev pub start : SkipList ℕ
start = two 50 90

abbrev pub start_cells : List (Cell ℕ)
start_cells = cells 50 90

start_map : entries start_cells ≡ (5, 50) ∷ (9, 90) ∷ []
start_map = refl

find-IsFound_example :
    (r : SearchResult) × (find 9 start ≡ ok r start) × IsFound start 9 start_cells r
find-IsFound_example = find-IsFound 9 (two-IsList 50 90)

insert-put_example :
    (s' : SkipList ℕ) × (ys : List (Cell ℕ)) × (insert 300 7 70 start ≡ ok none s')
    × IsList s' ys
    × (entries ys ≡ (5, 50) ∷ (7, 70) ∷ (9, 90) ∷ [])
unfolding put lookup
insert-put_example = insert-put (two-IsList 50 90) 300 7 70 (omega arith) refl (omega arith)

remove-delete_example :
    (s' : SkipList ℕ) × (ys : List (Cell ℕ)) × (remove 5 start ≡ ok (some (5, 50)) s')
    × IsList s' ys
    × (entries ys ≡ (9, 90) ∷ [])
    × ((b : Ptr) → s'.live b ≡ (if is_target b (some 100) then false else start.live b))
unfolding lookup delete
remove-delete_example = remove-delete (two-IsList 50 90) (omega arith) 5
