-- ===== src/SkipList/Walk.antt =====
-- src/internal/skiplist.rs: `get`, `get_first`, `get_last`, `next_node`, `traverse_with`, the entries
-- and the iterators. An `Entry`, a `MutEntry` and the node of a `Removable` are addresses of nodes.
pub mod Order
pub mod Results
pub mod RoundTrip
pub mod ByEntry
use skippy_rs.Base.{
  ℕ, zero, suc, ◌+◌, Bool, true, false, Option, none, some, ◌==◌, if◌then◌else◌, ok, out_of_fuel,
  pure, ◌>>=◌, ◌>>◌,
}
use skippy_rs.Node.{removed}
use skippy_rs.Store.{Ptr, null, SkipList, Op, deref, load_key, load_val, load_ptr, load_tag}
use skippy_rs.Basics.{is_empty}
use skippy_rs.SkipList.{SearchResult, find, unlink_level, remove, remove_first}

abbrev pub if_some : Ptr → Option Ptr
if_some p = if p == null then none else some p

module _ {V : Type 0} where
  -- `get` and `get_mut`
  unfoldable pub get : ℕ → Op V (Option Ptr)
  get k = do empty ← is_empty; if empty then pure none else do at ← find k; pure at.target

  -- The `while` of `next_node`: tagged successors are unlinked.
  unfoldable pub skip_removed : ℕ → (node next : Ptr) → Op V Ptr
  skip_removed zero node next = λ _. out_of_fuel
  skip_removed (suc f) node next = if next == null then pure next else do
    t ← load_tag next 0
    if t == 1 then (do new ← unlink_level node next 0; skip_removed f node new) else pure next

  unfoldable pub next_node : Ptr → Op V (Option Ptr)
  next_node node s =
      (do
        t ← load_tag node 0
        if t == 1 then pure none else do
          first ← load_ptr node 0
          next ← skip_removed (s.len + 1) node first
          pure (if_some next))
        s

  -- `get_first` and `get_first_mut`
  unfoldable pub get_first : Op V (Option Ptr)
  get_first s = (do empty ← is_empty; if empty then pure none else next_node s.head) s

  -- The `while let` of `get_last`, on fuel.
  unfoldable pub last_loop : ℕ → Ptr → Op V Ptr
  last_loop zero curr = λ _. out_of_fuel
  last_loop (suc f) curr = do
    next ← next_node curr
    elim next [ none ↦ pure curr | some p ↦ last_loop f p ]

  abbrev pub last_from : ℕ → Option Ptr → Op V (Option Ptr)
  last_from f none = pure none
  last_from f (some first) = do p ← last_loop f first; pure (some p)

  -- `get_last` and `get_last_mut`
  unfoldable pub get_last : Op V (Option Ptr)
  get_last s = (do first ← get_first; last_from (s.len + 1) first) s

  -- `traverse_with`, with what the closure accumulates; on fuel.
  unfoldable pub traverse_loop : {A : Type 0} → (ℕ → V → A → A) → ℕ → Ptr → A → Op V A
  traverse_loop f zero curr acc = λ _. out_of_fuel
  traverse_loop f (suc n) curr acc = if curr == null then pure acc else do
    deref curr
    λ s.
        (if removed (s.header curr)
            then (do next ← load_ptr curr 0; traverse_loop f n next acc)
            else (do
              k ← load_key curr
              v ← load_val curr
              next ← load_ptr curr 0
              traverse_loop f n next (f k v acc)))
          s

  unfoldable pub traverse_with : {A : Type 0} → (ℕ → V → A → A) → A → Op V A
  traverse_with f acc s = (do first ← load_ptr s.head 0; traverse_loop f (s.len + 1) first acc) s

  -- `Iter` and `IterMut` hold the entry that comes next; `from_list` and `next`.
  unfoldable pub iter : Op V (Option Ptr)
  iter = get_first

  unfoldable pub iter_next : Option Ptr → Op V (Option Ptr × Option Ptr)
  iter_next none = pure (none, none)
  iter_next (some p) = do after ← next_node p; pure (some p, after)

  -- `IntoIter::next`
  unfoldable pub into_iter_next : Op V (Option (ℕ × V))
  into_iter_next = remove_first

  -- `Entry::val` and `Entry::key`, `Removable::val` and `Removable::key`
  unfoldable pub entry_val : Ptr → Op V V
  entry_val p = load_val p

  unfoldable pub entry_key : Ptr → Op V ℕ
  entry_key p = load_key p

  -- `entry`: a `Removable` holds the key that was asked for.
  unfoldable pub entry : ℕ → Op V (Option (Ptr × ℕ))
  entry k = do target ← get k; elim target [ none ↦ pure none | some p ↦ pure (some (p, k)) ]

  -- `Removable::remove`
  unfoldable pub removable_remove : Ptr × ℕ → Op V (Option (ℕ × V))
  removable_remove (p, k) = remove k
