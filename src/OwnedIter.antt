-- ===== src/OwnedIter.antt =====
-- `IntoIter` of src/internal/sync/iter.rs: the concurrent list taken apart by its owner. `from_list`
-- takes the first node off the head and drops the list; `next` reads a node and releases it.
pub mod Drained
use skippy_rs.Base.{ℕ, Option, none, some, ◌==◌, if◌then◌else◌, pure, ◌>>=◌, ◌>>◌}
use skippy_rs.Store.{Ptr, null, Op, load_ptr, load_key, load_val, store_ptr, dealloc}
use skippy_rs.Basics.{drop_list}

module _ {V : Type 0} (eager_reclaim : Op V (Unit {0})) where
  -- The list is dropped at the end. The loop goes over `pointers`, which is declared with one level.
  unfoldable pub from_list : Op V Ptr
  from_list s =
      (do next ← load_ptr s.head 0; store_ptr s.head 0 null; drop_list eager_reclaim; pure next) s

module _ {V : Type 0} where
  -- What `next` returns, and the node that comes next.
  unfoldable pub take_node : Ptr → Op V (Option (ℕ × V) × Ptr)
  take_node p = if p == null then pure (none, p) else do
    after ← load_ptr p 0
    k ← load_key p
    v ← load_val p
    dealloc p
    pure (some (k, v), after)
