-- ===== src/Tests/Tracing.antt =====
-- Sequences of calls on the list with the keys 5 and 9.
use skippy_rs.Base.{ℕ, ◌≡◌, refl, arith, List, [], ◌∷◌, ok}
use skippy_rs.Store.{SkipList}
use skippy_rs.Cells.{Cell}
use skippy_rs.Spec.{entries, put, delete}
use skippy_rs.Sync.Domain.{IsShared}
use skippy_rs.Sync.Trace.{Change, insert_at, remove_key, change_all, replay, change_all-replay}
use skippy_rs.Tests.Insertion.{start, start_cells}
use skippy_rs.Tests.Reclaiming.{frees_all, start-IsShared}

-- A removal, an insertion and the insertion of a key that is there.
abbrev changes : List (Change ℕ)
changes = remove_key 5 ∷ insert_at 300 7 70 ∷ insert_at 400 9 91 ∷ []

change_all-replay_example :
    (s' : SkipList ℕ) × (ys : List (Cell ℕ)) × (change_all frees_all.eager_reclaim changes start
      ≡ ok tt s')
    × IsShared s' ys
    × (entries ys ≡ (7, 70) ∷ (9, 91) ∷ [])
unfolding replay put delete
change_all-replay_example =
    change_all-replay frees_all changes start start_cells start-IsShared (omega arith)
      (omega arith, refl, (omega arith, tt), (omega arith, refl, tt, tt))
