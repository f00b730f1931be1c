-- ===== src/Tests/Owned.antt =====
-- The theorem on `IntoIter`, on the list with two nodes and a third one that is retired.
use skippy_rs.Base.{ℕ, ◌≡◌, ok, [], ◌∷◌, true, false, ◌||◌, ◌==◌, if◌then◌else◌, ◌>>=◌}
use skippy_rs.Store.{Ptr, SkipList}
use skippy_rs.Basics.Drop.{holds}
use skippy_rs.OwnedIter.{from_list}
use skippy_rs.OwnedIter.Drained.{take_all, from_list-take_all}
use skippy_rs.Sync.Domain.{Absent}
use skippy_rs.Tests.Lists.{cells}
use skippy_rs.Tests.Reclaiming.{frees_all, with_retired, with_retired-IsShared}

from_list-take_all_example :
    (s' : SkipList ℕ) × ((do p ← from_list frees_all.eager_reclaim; take_all 3 p) with_retired
      ≡ ok ((5, 50) ∷ (9, 90) ∷ []) s')
    × ((a : Ptr)
        → Absent a (300 ∷ [])
        → s'.live a
          ≡ (if (a == 1000) || holds {V = ℕ} a (cells 50 90) then false else with_retired.live a))
    × ((a : Ptr) → (a == 1000) || holds {V = ℕ} a (cells 50 90) ≡ true → s'.live a ≡ false)
    × ((a : Ptr) → with_retired.live a ≡ false → s'.live a ≡ false)
from_list-take_all_example = from_list-take_all frees_all with_retired-IsShared
