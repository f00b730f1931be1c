-- ===== src/Threads/Find.antt =====
-- `find`, `unlink_level` and `sub_ref` of src/internal/sync/mod.rs, with `from_maybe_tagged` of
-- src/internal/sync/tagged.rs, as programs of atomic accesses. Each loop runs on the fuel `f`; a search
-- looks for a key with `search_closest` not set.
use skippy_rs.Base.{
  ℕ, zero, suc, ◌+◌, Bool, false, not, Option, none, some, ltb, ◌==◌, if◌then◌else◌,
}
use skippy_rs.Node.{Result, right, wrong, max_levels, removed}
use skippy_rs.Store.{Ptr, null, link_to}
use skippy_rs.Sync.{Pairs, set_pair, SearchResult}
use skippy_rs.Threads.{
  Prog, done, spent, crash, load, exchange, read_key, read_header, write_header, try_sub, read_max,
  retire, ◌>>=◌,
}

-- The `while` of `from_maybe_tagged`.
unfoldable pub protect : ℕ → Ptr → ℕ → (ptr v_ptr : Ptr) → Prog Ptr
protect zero p l ptr v_ptr = spent
protect (suc f) p l ptr v_ptr =
    if ptr == v_ptr then done ptr else load p l (λ again. protect f p l v_ptr again.ptr)

unfoldable pub from_maybe_tagged : ℕ → Ptr → ℕ → Prog Ptr
from_maybe_tagged f p l = load p l (λ a. load p l (λ b. protect f p l a.ptr b.ptr))

unfoldable pub sub_ref : Ptr → Prog (Option (Unit {0}))
sub_ref p = write_header p try_sub (λ r. elim r [
  | wrong n ↦ crash
  | right n ↦ if n == 0 then retire p (done none) else done (some tt)
])

unfoldable pub unlink_level : (prev curr next : Ptr) → ℕ → Prog (Result Ptr (Unit {0}))
unlink_level prev curr next l =
    exchange prev l (link_to curr 0) (link_to next 0) (λ r. elim r [
      | wrong k ↦ done (wrong tt)
      | right k ↦ (do _ ← sub_ref curr; done (right next))
    ])

-- The removed successors of `curr` are unlinked.
unfoldable pub skip_marked : ℕ → (curr next : Ptr) → ℕ → Prog (Result Ptr (Unit {0}))
skip_marked zero curr next l = spent
skip_marked (suc f) curr next l =
    if next == null
    then done (right next)
    else load next l (λ k. if k.tag == 0 then done (right next) else do
      new_next ← from_maybe_tagged f next l
      r ← unlink_level curr next new_next l
      elim r [ right n ↦ skip_marked f curr n l | wrong e ↦ done (wrong tt) ])

unfoldable pub precedes : ℕ → Ptr → Prog Bool
precedes k next = if next == null then done false else read_key next (λ j. done (ltb j k))

unfoldable pub search_levels : ℕ → ℕ → (curr : Ptr) → Pairs → ℕ → Prog (Result (Ptr × Pairs) Pairs)
search_levels zero k curr prev level = spent
search_levels (suc f) k curr prev zero = done (right (curr, prev))
search_levels (suc f) k curr prev (suc l) = do
  first ← from_maybe_tagged f curr l
  skipped ← skip_marked f curr first l
  elim skipped [
    | wrong e ↦ done (wrong prev)
    | right next ↦ (do
      go ← precedes k next
      if go
          then search_levels f k next (set_pair prev l (curr, next)) (suc l)
          else search_levels f k curr (set_pair prev l (curr, next)) l)
  ]

-- `next.key == *key && !next.removed()`
unfoldable pub match_live : ℕ → Ptr → Prog (Option Ptr)
match_live k next =
    if next == null
    then done none
    else read_key next (λ j.
      if j == k
      then read_header next (λ w. done (if not (removed w) then some next else none))
      else done none)

-- The highest level in use, from `n` down.
unfoldable pub top_level : (head : Ptr) → ℕ → Prog ℕ
top_level head zero = done zero
top_level head (suc n) =
    if ltb 1 (suc n)
    then load head n (λ q. if q.ptr == null then top_level head n else done (suc n))
    else done (suc n)

unfoldable pub init_prev : ℕ → (head : Ptr) → ℕ → ℕ → Pairs → Prog Pairs
init_prev f head zero i prev = done prev
init_prev f head (suc n) i prev = do
  next ← from_maybe_tagged f head i
  init_prev f head n (i + 1) (set_pair prev i (head, next))

-- The rounds of `'_search`.
unfoldable pub search : ℕ → (head : Ptr) → ℕ → Pairs → Prog SearchResult
search zero head k prev = spent
search (suc f) head k prev = read_max (λ max. do
  level ← top_level head max
  r ← search_levels f k head prev level
  elim r [
    | wrong prev' ↦ search f head k prev'
    | right found ↦ (do
      next ← from_maybe_tagged f (found.1 0).0 0
      target ← match_live k next
      done (record { prev = found.1; target = target }))
  ])

unfoldable pub find : ℕ → (head : Ptr) → ℕ → Prog SearchResult
find f head k = do prev ← init_prev f head max_levels 0 (λ _. (null, null)); search f head k prev
