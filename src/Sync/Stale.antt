-- ===== src/Sync/Stale.antt =====
-- `next_node` of src/internal/sync/mod.rs at an entry that was removed while it was held.
use skippy_rs.Base.{ℕ, ◌≡◌, ◌<◌, some, List, fault}
use skippy_rs.Store.{Ptr, link_to, SkipList}
use skippy_rs.Store.Access.{At, load_tag-ok, load_key-ok}
use skippy_rs.Cells.{Cell, IsList}
use skippy_rs.Sync.Find.{find_alone-fault}
use skippy_rs.Sync.Walk.{next_node, find_again, iter_next}

module _ {V : Type 0} {s : SkipList V} {xs : List (Cell V)} (is : IsList s xs) where
  -- On a well-formed list, with no other thread: the iterator whose next entry has been removed, so that its
  -- lowest level is tagged, and is still held, reads out of bounds when it goes on.
  pub iter_next-fault :
      (p : Ptr) {n k : ℕ} {q : Ptr}
      → At s p n
      → 0 < n
      → s.link p 0 ≡ link_to q 1
      → s.key p ≡ some k
      → iter_next (some p) s ≡ fault
  unfolding iter_next next_node find_again
  iter_next-fault p {n = n} {k = k} at tall tagged keyed =
      rw (load_tag-ok at {l = 0} tall tagged, load_key-ok at keyed, find_alone-fault k is)
