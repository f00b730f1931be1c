-- ===== src/PriorityQueue.antt =====
-- src/collections/priority_queue.rs over the list of src/internal/skiplist.rs: the values are the keys,
-- and `()` is stored under each.
pub mod Least
pub mod Shared
pub mod Popped
pub mod Taken
pub mod Emptied
use skippy_rs.Base.{ℕ, Bool, Option, none, some, pure, ◌>>=◌, ◌>>◌}
use skippy_rs.Store.{Ptr, SkipList, Op, load_key}
use skippy_rs.Basics.{new, len, is_empty}
use skippy_rs.SkipList.{insert, remove_first}
use skippy_rs.SkipList.Walk.{get_first, iter, into_iter_next}

abbrev pub Queue : Type 0 → Type 0
Queue = Op (Unit {0})

unfoldable pub new_queue : (fresh seed : ℕ) → Queue Ptr
new_queue fresh seed = new fresh seed

unfoldable pub push : (fresh : Ptr) → ℕ → Queue (Unit {0})
push fresh value = do _ ← insert fresh value tt; pure tt

unfoldable pub peek : Queue (Option ℕ)
peek = do
  first ← get_first
  elim first [ none ↦ pure none | some p ↦ (do k ← load_key p; pure (some k)) ]

unfoldable pub pop : Queue (Option ℕ)
pop = do first ← remove_first; elim first [ none ↦ pure none | some (v, _) ↦ pure (some v) ]

unfoldable pub queue_len : Queue ℕ
queue_len = len

unfoldable pub queue_is_empty : Queue Bool
queue_is_empty = is_empty

-- `iter` and `iter_mut`
unfoldable pub queue_iter : Queue (Option Ptr)
queue_iter = iter

unfoldable pub queue_into_iter_next : Queue (Option (ℕ × Unit {0}))
queue_into_iter_next = into_iter_next
