-- ===== src/Tests/Walks.antt =====
-- The theorems on reading and walking, on the list with two nodes.
use skippy_rs.Base.{ℕ, ◌≡◌, arith, List, [], ◌∷◌, some, ok, refl, ◌>>=◌}
use skippy_rs.Store.{SkipList}
use skippy_rs.Cells.{Cell, IsList}
use skippy_rs.Spec.{entries, lookup}
use skippy_rs.Tests.Lists.{cells, two, two-IsList}
use skippy_rs.SkipList.{insert, remove, remove_first}
use skippy_rs.SkipList.Walk.{get, iter}
use skippy_rs.SkipList.Walk.Order.{show_val}
use skippy_rs.SkipList.Walk.Results.{iterate, get-lookup, iter-entries, remove_first-tail}
use skippy_rs.SkipList.Walk.ByEntry.{remove_entry, remove_entry-remove}
use skippy_rs.SkipList.Walk.RoundTrip.{insert-get}

abbrev start : SkipList ℕ
start = two 50 90

get-lookup_example : (do e ← get 9; show_val e) start ≡ ok (some 90) start
unfolding lookup
get-lookup_example = get-lookup (two-IsList 50 90) 9

iter-entries_example :
    (do it ← iter; iterate 3 it) start ≡ ok (some (5, 50) ∷ some (9, 90) ∷ []) start
iter-entries_example = iter-entries (two-IsList 50 90)

remove_first-tail_example :
    (s' : SkipList ℕ) × (ys : List (Cell ℕ)) × (remove_first start ≡ ok (some (5, 50)) s')
    × IsList s' ys
    × (entries ys ≡ (9, 90) ∷ [])
remove_first-tail_example = remove_first-tail (cells 50 90) (two-IsList 50 90) (omega arith)

insert-get_example :
    (s' : SkipList ℕ) × ((do _ ← insert 300 9 91; e ← get 9; show_val e) start ≡ ok (some 91) s')
insert-get_example = insert-get (two-IsList 50 90) 300 9 91 9 (omega arith) refl (omega arith)

remove_entry-remove_example : remove_entry 9 start ≡ remove 9 start
remove_entry-remove_example = remove_entry-remove (two-IsList 50 90) 9
