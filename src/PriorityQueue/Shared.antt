-- ===== src/PriorityQueue/Shared.antt =====
-- src/collections/priority_queue.rs over the list of src/internal/sync/mod.rs, run with no other thread in
-- between: the values are the keys, and `()` is stored under each.
use skippy_rs.Base.{ℕ, Bool, Option, none, some, pure, ◌>>=◌}
use skippy_rs.Store.{Ptr, Op}
use skippy_rs.Basics.{new, len, is_empty}
use skippy_rs.OwnedIter.{from_list}
use skippy_rs.Removal.{entry_remove}
use skippy_rs.Sync.Update.{insert}
use skippy_rs.Sync.Walk.{get_first, iter}

module _ (eager_reclaim : Op (Unit {0}) (Unit {0})) where
  unfoldable pub push : (fresh : Ptr) → ℕ → Op (Unit {0}) (Unit {0})
  push fresh value = do _ ← insert eager_reclaim fresh value tt; pure tt

  unfoldable pub queue_into_iter : Op (Unit {0}) Ptr
  queue_into_iter = from_list eager_reclaim

unfoldable pub peek : Op (Unit {0}) (Option Ptr)
peek = get_first

unfoldable pub pop : Op (Unit {0}) (Option Ptr)
pop = do first ← get_first; elim first [ none ↦ pure none | some p ↦ entry_remove p ]

unfoldable pub new_sync : (fresh seed : ℕ) → Op (Unit {0}) Ptr
new_sync fresh seed = new fresh seed

unfoldable pub queue_len : Op (Unit {0}) ℕ
queue_len = len

unfoldable pub queue_is_empty : Op (Unit {0}) Bool
queue_is_empty = is_empty

unfoldable pub queue_iter : Op (Unit {0}) (Option Ptr)
queue_iter = iter
