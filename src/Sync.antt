-- ===== src/Sync.antt =====
-- src/internal/sync/mod.rs: the search of the concurrent skip list, run with no other thread in
-- between. The list and its nodes are laid out as in src/internal/skiplist.rs; a `NodeRef` and an
-- `Entry` are addresses of nodes, with null for `None`. An array of `HEIGHT` pairs is a function of the
-- level. Loops run on fuel.
pub mod Search
pub mod Find
pub mod Link
pub mod Domain
pub mod Unlink
pub mod Taken
pub mod Remove
pub mod Clear
pub mod Larger
pub mod Put
pub mod Update
pub mod Walk
pub mod Collect
pub mod Order
pub mod Trace
pub mod Stale
use skippy_rs.Base.{
  ℕ, zero, suc, ◌+◌, ◌-◌, ◌%◌, Bool, true, false, ◌&&◌, not, Option, none, some, ltb, ◌==◌,
  if◌then◌else◌, ok, out_of_fuel, pure, ◌>>=◌, ◌>>◌,
}
use skippy_rs.Node.{Result, right, wrong, usize, max_levels, removed}
use skippy_rs.Store.{Ptr, null, Op, deref, load_key, load_ptr, load_tag}
use skippy_rs.Basics.{is_empty}
use skippy_rs.SkipList.{top_level}
use skippy_rs.Unlinking.{unlink_level}

-- For each level a node and its successor.
abbrev pub Pairs : Type 0
Pairs = ℕ → Ptr × Ptr

pub record SearchResult : Type 0 where
  pub prev : Pairs
  pub target : Option Ptr

abbrev pub set_pair : Pairs → ℕ → Ptr × Ptr → Pairs
set_pair prev l p = λ m. if m == l then p else prev m

abbrev pub if_some : Ptr → Option Ptr
if_some p = if p == null then none else some p

module _ {V : Type 0} where
  -- `removed` of the node at `p`
  unfoldable pub load_removed : Ptr → Op V Bool
  unfolding deref
  load_removed p = deref p >> (λ s. ok (removed (s.header p)) s)

  -- The `while` of `from_maybe_tagged`: until the pointer that is protected is the one that is there.
  unfoldable pub protect_loop : ℕ → Ptr → ℕ → (ptr v_ptr : Ptr) → Op V Ptr
  protect_loop zero p l ptr v_ptr = λ _. out_of_fuel
  protect_loop (suc f) p l ptr v_ptr =
      if ptr == v_ptr then pure ptr else do again ← load_ptr p l; protect_loop f p l v_ptr again

  -- `NodeRef::from_maybe_tagged` of `levels[l]`
  unfoldable pub from_maybe_tagged : Ptr → ℕ → Op V Ptr
  from_maybe_tagged p l = do
    ptr ← load_ptr p l
    v_ptr ← load_ptr p l
    λ s. protect_loop (suc s.len) p l ptr v_ptr s

  -- The array that `find` starts with, from level `i`, with the levels that are left.
  unfoldable pub init_prev : (head : Ptr) → ℕ → ℕ → Pairs → Op V Pairs
  init_prev head zero i prev = pure prev
  init_prev head (suc n) i prev = do
    next ← from_maybe_tagged head i
    init_prev head n (i + 1) (set_pair prev i (head, next))

  -- In `find`: removed successors are unlinked. `wrong` is `continue '_search`.
  unfoldable pub skip_marked : ℕ → (curr next : Ptr) → ℕ → Op V (Result Ptr (Unit {0}))
  skip_marked zero curr next l = λ _. out_of_fuel
  skip_marked (suc f) curr next l = if next == null then pure (right next) else do
    t ← load_tag next l
    if t == 0 then pure (right next) else do
      new_next ← from_maybe_tagged next l
      r ← unlink_level curr next new_next l
      elim r [ right n ↦ skip_marked f curr n l | wrong e ↦ pure (wrong tt) ]

  -- In `find`: whether to go on to `next`, which is `(*next).key < *key`.
  unfoldable pub precedes : ℕ → Ptr → Op V Bool
  precedes k next = if next == null then pure false else do j ← load_key next; pure (ltb j k)

  -- The `while level > 0` of `find`; `wrong` is `continue '_search`, which keeps the array.
  unfoldable pub search_levels :
      ℕ → (skips : ℕ) → ℕ → Ptr → Pairs → ℕ → Op V (Result (Ptr × Pairs) Pairs)
  search_levels k skips zero curr prev level = λ _. out_of_fuel
  search_levels k skips (suc f) curr prev zero = pure (right (curr, prev))
  search_levels k skips (suc f) curr prev (suc l) = do
    first ← from_maybe_tagged curr l
    skipped ← skip_marked skips curr first l
    elim skipped [
      | wrong e ↦ pure (wrong prev)
      | right next ↦ (do
        go ← precedes k next
        if go
            then search_levels k skips f next (set_pair prev l (curr, next)) (suc l)
            else search_levels k skips f curr (set_pair prev l (curr, next)) l)
    ]

  -- `next.key == *key && !next.removed()`
  unfoldable pub match_live : ℕ → Ptr → Op V (Option Ptr)
  match_live k next = if next == null then pure none else do
    j ← load_key next
    gone ← load_removed next
    pure (if (j == k) && not gone then some next else none)

  -- What `find` returns after the levels; `wrong` is `continue '_search`. The level is 0 here, so that
  -- `level - 1` wraps.
  unfoldable pub finish : ℕ → Bool → (skips : ℕ) → Ptr × Pairs → Op V (Result SearchResult Pairs)
  finish k false skips (curr, prev) = do
    next ← from_maybe_tagged (prev 0).0 0
    target ← match_live k next
    pure (right (record { prev = prev; target = target }))
  finish k true skips (curr, prev) = do
    first ← from_maybe_tagged curr ((0 + usize - 1) % usize)
    skipped ← skip_marked skips curr first ((0 + usize - 1) % usize)
    elim skipped [
      | wrong e ↦ pure (wrong prev)
      | right next ↦ pure (right (record { prev = prev; target = if_some next }))
    ]

  -- One round of `'_search: loop`.
  unfoldable pub search_once : ℕ → Bool → Pairs → Op V (Result SearchResult Pairs)
  search_once k closest prev s =
      (do
        level ← top_level s.max_height
        r ← search_levels k (s.len + 1) (s.max_height + s.len + 1) s.head prev level
        elim r [ right found ↦ finish k closest (s.len + 1) found | wrong p ↦ pure (wrong p) ])
        s

  unfoldable pub search : ℕ → ℕ → Bool → Pairs → Op V SearchResult
  search zero k closest prev = λ _. out_of_fuel
  search (suc f) k closest prev = do
    r ← search_once k closest prev
    elim r [ right found ↦ pure found | wrong p ↦ search f k closest p ]

  unfoldable pub find : ℕ → (search_closest : Bool) → Op V SearchResult
  find k search_closest s =
      (do
        prev ← init_prev s.head max_levels 0 (λ _. (null, null))
        search (suc s.len) k search_closest prev)
        s

  unfoldable pub get : ℕ → Op V (Option Ptr)
  get k = do empty ← is_empty; if empty then pure none else do at ← find k false; pure at.target
