-- ===== src/Sync/Walk.antt =====
-- src/internal/sync/mod.rs: `next_node`, `get_first` and `get_last` of the concurrent skip list, run with
-- no other thread in between, and `Iter` and `FromIterator` of src/internal/sync/iter.rs over them.
use skippy_rs.Base.{
  ℕ, zero, suc, ◌+◌, Option, none, some, List, [], ◌∷◌, true, ◌==◌, if◌then◌else◌, out_of_fuel,
  pure, ◌>>=◌, ◌>>◌,
}
use skippy_rs.Node.{right, wrong}
use skippy_rs.Store.{Ptr, null, Op, load_key, load_tag}
use skippy_rs.Basics.{new, is_empty}
use skippy_rs.Unlinking.{unlink_level}
use skippy_rs.Sync.{if_some, from_maybe_tagged, find}
use skippy_rs.Sync.Update.{insert}

module _ {V : Type 0} where
  -- `self.find(&node.key, true).target`, where the node is stale
  unfoldable pub find_again : Ptr → Op V (Option Ptr)
  find_again node = do k ← load_key node; at ← find k true; pure at.target

  -- The `while` of `next_node`: tagged successors are unlinked.
  unfoldable pub skip_removed : ℕ → (node next : Ptr) → Op V (Option Ptr)
  skip_removed zero node next = λ _. out_of_fuel
  skip_removed (suc f) node next = do
    t ← load_tag next 0
    if t == 1
        then (do
          new ← from_maybe_tagged next 0
          r ← unlink_level node next new 0
          after ← elim r [ right n ↦ pure (if_some n) | wrong e ↦ find_again node ]
          elim after [ none ↦ pure none | some n ↦ skip_removed f node n ])
        else pure (some next)

  unfoldable pub next_node : Ptr → Op V (Option Ptr)
  next_node node s =
      (do
        t ← load_tag node 0
        if t == 1 then find_again node else do
          next ← from_maybe_tagged node 0
          if next == null then pure none else skip_removed (s.len + 1) node next)
        s

  unfoldable pub get_first : Op V (Option Ptr)
  get_first s = (do empty ← is_empty; if empty then pure none else next_node s.head) s

  -- The `while let` of `get_last`, on fuel.
  unfoldable pub last_loop : ℕ → Ptr → Op V Ptr
  last_loop zero curr = λ _. out_of_fuel
  last_loop (suc f) curr = do
    next ← next_node curr
    elim next [ none ↦ pure curr | some p ↦ last_loop f p ]

  unfoldable pub get_last : Op V (Option Ptr)
  get_last s =
      (do
        first ← get_first
        elim first [
          | none ↦ pure none
          | some p ↦ (do last ← last_loop (s.len + 1) p; pure (some last))
        ])
        s

  -- `Iter` holds the entry that comes next; `from_list` and `next`.
  unfoldable pub iter : Op V (Option Ptr)
  iter = get_first

  unfoldable pub iter_next : Option Ptr → Op V (Option Ptr × Option Ptr)
  iter_next none = pure (none, none)
  iter_next (some p) = do after ← next_node p; pure (some p, after)

  module _ (eager_reclaim : Op V (Unit {0})) where
    -- The `for` of `FromIterator::from_iter`, with the address that the allocator returns for each pair.
    unfoldable pub insert_all : List (Ptr × ℕ × V) → Op V (Unit {0})
    insert_all [] = pure tt
    insert_all ((fresh, k, v) ∷ rest) = do _ ← insert eager_reclaim fresh k v; insert_all rest

    unfoldable pub from_iter : (fresh seed : ℕ) → List (Ptr × ℕ × V) → Op V Ptr
    from_iter fresh seed pairs = do list ← new fresh seed; insert_all pairs; pure list
