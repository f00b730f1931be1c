-- ===== src/SkipList.antt =====
-- src/internal/skiplist.rs: the skip list for one thread. Each method is a command over the list and
-- its memory, with the statements in the source's order. An array of `HEIGHT` references is a
-- function of the level; loops run on fuel or on the rounds that are left.
pub mod Walk
pub mod Find
pub mod Link
pub mod Insert
pub mod Put
pub mod Unlink
pub mod Delete
pub mod Reclaim
use skippy_rs.Base.{
  ℕ, zero, suc, ◌+◌, ◌-◌, ◌%◌, Bool, true, false, ◌&&◌, not, Option, none, some, min, ltb, leb,
  ◌==◌, if◌then◌else◌, ok, fault, panic, out_of_fuel, pure, ◌>>=◌, ◌>>◌,
}
use skippy_rs.Node.{usize, max_levels, add_ref, sub_ref}
use skippy_rs.Store.{
  Ptr, null, SkipList, Op, load_key, load_val, store_val, load_height, on_header, load_ptr,
  load_tag, store_ptr, new_node, dealloc,
}
use skippy_rs.Basics.{is_empty, gen_height}

abbrev pub Prevs : Type 0
Prevs = ℕ → Ptr

pub record SearchResult : Type 0 where
  pub prev : Prevs
  pub target : Option Ptr

module _ {V : Type 0} where
  -- `prev[l] = …`, a panic past the end of the array
  abbrev pub set_prev : Prevs → ℕ → Ptr → Op V Prevs
  set_prev prev l p =
      if ltb l max_levels then pure (λ m. if m == l then p else prev m) else λ _. panic

  unfoldable pub unlink_level : (prev curr : Ptr) → ℕ → Op V Ptr
  unlink_level prev curr l = do
    next ← load_ptr curr l
    old ← on_header curr sub_ref
    (if old == 0 then dealloc curr else pure tt)
    store_ptr prev l next
    pure next

  -- In `find`: a tagged successor is unlinked, and its own successor takes its place.
  unfoldable pub skip_tagged : (curr next : Ptr) → ℕ → Op V Ptr
  skip_tagged curr next l =
      if next == null
      then pure next
      else do t ← load_tag next l; if t == 1 then unlink_level curr next l else pure next

  -- In `find`: whether to go down at `next`, which is `next.is_null() || (*next).key >= *key`.
  unfoldable pub stops : ℕ → Ptr → Op V Bool
  stops k next = if next == null then pure true else do j ← load_key next; pure (leb k j)

  -- The first `while` of `find`: down to the highest level in use.
  unfoldable pub top_level : ℕ → Op V ℕ
  top_level zero s = ok 0 s
  top_level (suc l) s =
      if ltb 1 (suc l)
      then (do p ← load_ptr s.head l; if p == null then top_level l else pure (suc l)) s
      else ok (suc l) s

  -- The second `while` of `find`, on fuel.
  unfoldable pub search_down : ℕ → ℕ → Ptr → Prevs → ℕ → Op V (Ptr × Prevs)
  search_down k zero curr prev level = λ _. out_of_fuel
  search_down k (suc f) curr prev zero = pure (curr, prev)
  search_down k (suc f) curr prev (suc l) = do
    first ← load_ptr curr l
    next ← skip_tagged curr first l
    stop ← stops k next
    if stop
        then (do prev' ← set_prev prev l curr; search_down k f curr prev' l)
        else search_down k f next prev (suc l)

  -- The end of `find`: the node at the lowest level, if it has the key.
  unfoldable pub match_key : ℕ → Ptr → Op V (Option Ptr)
  match_key k next =
      if next == null
      then pure none
      else do j ← load_key next; pure (if j == k then some next else none)

  unfoldable pub find : ℕ → Op V SearchResult
  find k s =
      (do
        level ← top_level s.max_height
        prev ← set_prev (λ _. s.head) ((level + usize - 1) % usize) s.head
        (curr, prev') ← search_down k (s.max_height + s.len + 1) s.head prev level
        next ← load_ptr curr 0
        target ← match_key k next
        pure (record { prev = prev'; target = target }))
        s

  -- The loop of `link_nodes` from level `i`, with the rounds that are left.
  unfoldable pub link_loop : Ptr → Prevs → ℕ → ℕ → Op V (Unit {0})
  link_loop new prev zero i = pure tt
  link_loop new prev (suc n) i = do
    next ← load_ptr (prev i) i
    store_ptr new i next
    store_ptr (prev i) i new
    _ ← on_header new add_ref
    link_loop new prev n (i + 1)

  unfoldable pub link_nodes : Ptr → Prevs → Op V (Unit {0})
  link_nodes new prev = do n ← load_height new; link_loop new prev (min max_levels n) 0

  unfoldable pub insert_new : (fresh : Ptr) → ℕ → V → Prevs → Op V (Option V)
  insert_new fresh k v prev = do
    h ← gen_height
    new ← new_node fresh k v h
    link_nodes new prev
    λ s. ok none (record s { len = (s.len + 1) % usize })

  -- The found node keeps its key; with `replace` its value is swapped for the new one.
  unfoldable pub insert_found : Ptr → V → Bool → Op V (Option V)
  insert_found target v replace =
      if replace
      then (do old ← load_val target; store_val target v; pure (some old))
      else pure (some v)

  -- The `if let` on the target of `find`.
  unfoldable pub insert_at : (fresh : Ptr) → ℕ → V → Bool → Prevs → Option Ptr → Op V (Option V)
  insert_at fresh k v replace prev none = insert_new fresh k v prev
  insert_at fresh k v replace prev (some target) = insert_found target v replace

  unfoldable pub internal_insert : (fresh : Ptr) → ℕ → V → Bool → Op V (Option V)
  internal_insert fresh k v replace = do at ← find k; insert_at fresh k v replace at.prev at.target

  unfoldable pub insert : (fresh : Ptr) → ℕ → V → Op V (Option V)
  insert fresh k v = internal_insert fresh k v true

  unfoldable pub insert_conditionally : (fresh : Ptr) → ℕ → V → Op V (Option V)
  insert_conditionally fresh k v = internal_insert fresh k v false

  unfoldable pub unlink_loop : Ptr → Prevs → ℕ → ℕ → Op V (Unit {0})
  unlink_loop node prev zero i = pure tt
  unlink_loop node prev (suc n) i = do
    next ← load_ptr node i
    store_ptr (prev i) i next
    unlink_loop node prev n (i + 1)

  unfoldable pub unlink : Ptr → Prevs → Op V (Unit {0})
  unlink node prev s =
      if node == s.head
      then panic
      else (do n ← load_height node; unlink_loop node prev (min max_levels n) 0) s

  unfoldable pub remove_found : Ptr → Prevs → Op V (Option (ℕ × V))
  remove_found target prev = do
    k ← load_key target
    v ← load_val target
    unlink target prev
    dealloc target
    λ s. ok (some (k, v)) (record s { len = (s.len + usize - 1) % usize })

  -- The `match` on what `find` returns.
  unfoldable pub remove_at : Prevs → Option Ptr → Op V (Option (ℕ × V))
  remove_at prev none = pure none
  remove_at prev (some target) = remove_found target prev

  unfoldable pub internal_remove : ℕ → Op V (Option (ℕ × V))
  internal_remove k = do
    empty ← is_empty
    if empty then pure none else do at ← find k; remove_at at.prev at.target

  unfoldable pub remove : ℕ → Op V (Option (ℕ × V))
  remove k = internal_remove k

  unfoldable pub remove_first : Op V (Option (ℕ × V))
  remove_first s =
      (do
        empty ← is_empty
        if empty
            then pure none
            else do first ← load_ptr s.head 0; k ← load_key first; internal_remove k)
        s
