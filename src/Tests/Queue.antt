-- ===== src/Tests/Queue.antt =====
-- The theorems on the priority queue, on a queue of 5 and 9.
use skippy_rs.Base.{ℕ, ◌≡◌, arith, List, [], ◌∷◌, some, ok, refl, ◌>>◌}
use skippy_rs.Store.{SkipList}
use skippy_rs.Cells.{Cell, IsList}
use skippy_rs.Tests.Lists.{two, two-IsList}
use skippy_rs.PriorityQueue.{push, pop}
use skippy_rs.PriorityQueue.Emptied.{empty_all, empty_all-values}
use skippy_rs.PriorityQueue.Least.{push-pop, pop_all, pop_all-Ascending, Ascending}

abbrev start : SkipList (Unit {0})
start = two tt tt

abbrev two_values : List ℕ
two_values = 5 ∷ 9 ∷ []

push-pop_example :
    (s' : SkipList Unit) × (ys : List (Cell Unit)) × ((do push 300 4; pop) start ≡ ok (some 4) s')
    × IsList s' ys
push-pop_example = push-pop (two-IsList tt tt) 300 4 (omega arith) refl (omega arith)

pop_all-Ascending_example :
    (s' : SkipList Unit) × (pop_all 3 start ≡ ok two_values s')
    × Ascending two_values
    × IsList s' []
pop_all-Ascending_example = pop_all-Ascending (two-IsList tt tt) (omega arith)

empty_all-values_example :
    (s' : SkipList Unit) × (empty_all 3 start ≡ ok two_values s')
    × Ascending two_values
    × (s'.len ≡ 2)
empty_all-values_example = empty_all-values (two-IsList tt tt)
