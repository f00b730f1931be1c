-- ===== src/Threads/Insert.antt =====
-- `insert` and `link_nodes` of src/internal/sync/mod.rs as programs of atomic accesses, for the node `new`
-- with the key `k` that is allocated already and has the height that was drawn for it.
use skippy_rs.Base.{
  ℕ, zero, suc, ◌+◌, ◌-◌, Bool, true, false, not, Option, none, some, ltb, leb, ◌==◌, if◌then◌else◌,
}
use skippy_rs.Node.{Result, right, wrong, height, removed}
use skippy_rs.Store.{Ptr, null, link_to}
use skippy_rs.Sync.{Pairs}
use skippy_rs.Threads.{
  Prog, done, spent, load, exchange, read_key, read_header, write_header, add, try_add, sub,
  read_max, write_max, add_len, ◌>>=◌,
}
use skippy_rs.Threads.Find.{find}
use skippy_rs.Threads.Methods.{try_remove_and_tag, unlink}

-- Whether the successor is not above the new node, which is not removed.
unfoldable pub overtaken : (new next : Ptr) → Prog Bool
overtaken new next =
    if next == null
    then done false
    else read_key next (λ j.
      read_key new
        (λ k. if leb j k then read_header new (λ w. done (not (removed w))) else done false))

-- The reference of level `i`; `false` is a `break`.
unfoldable pub count_level : (new : Ptr) → ℕ → Prog Bool
count_level new i =
    if i == 0
    then write_header new add (λ r. done true)
    else write_header new try_add (λ r. elim r [ right n ↦ done true | wrong n ↦ done false ])

unfoldable pub link_levels : (new : Ptr) → Pairs → ℕ → ℕ → Prog (Result (Unit {0}) ℕ)
link_levels new prev zero i = done (right tt)
link_levels new prev (suc n) i = load new i (λ curr_next. read_header new (λ w.
    if removed w then done (right tt) else do
      past ← overtaken new (prev i).1
      if past
          then done (right tt)
          else exchange new i (link_to curr_next.ptr 0) (link_to (prev i).1 0) (λ r. elim r [
            | wrong now ↦ done (wrong i)
            | right old ↦ (do
              counted ← count_level new i
              if counted
                  then exchange (prev i).0 i (link_to (prev i).1 0) (link_to new 0) (λ q. elim q [
                    | wrong now ↦ write_header new sub (λ c. done (wrong i))
                    | right before ↦ link_levels new prev n (i + 1)
                  ])
                  else done (right tt))
          ])))

unfoldable pub link_nodes : ℕ → (head new : Ptr) → Pairs → ℕ → Prog (Result (Unit {0}) ℕ)
link_nodes f head new prev start = read_header new (λ w. do
  r ← link_levels new prev (height w - start) start
  elim r [
    | wrong i ↦ done (wrong i)
    | right all ↦ read_header new (λ v.
        if removed v
        then read_key new (λ k. do _ ← find f head k; done (right tt))
        else done (right tt))
  ])

-- The removal of the nodes that have the key, up to the node `stop` itself.
unfoldable pub clear_key :
    ℕ → (head stop : Ptr) → ℕ → Pairs → (target existing : Option Ptr) → Prog (Pairs × Option Ptr)
clear_key zero head stop k prev target existing = spent
clear_key (suc f) head stop k prev none existing = done (prev, existing)
clear_key (suc f) head stop k prev (some target) existing =
    if target == stop then done (prev, existing) else do
      r ← try_remove_and_tag f target
      elim r [
        | wrong e ↦ clear_key f head stop k prev none existing
        | right all ↦ read_header target (λ w. do
          _ ← unlink head target (height w) prev
          at ← find f head k
          clear_key f head stop k at.prev at.target (some target))
      ]

unfoldable pub link_retry : ℕ → (head new : Ptr) → Pairs → ℕ → Option Ptr → Prog (Option Ptr)
link_retry zero head new prev start existing = spent
link_retry (suc f) head new prev start existing = do
  r ← link_nodes f head new prev start
  elim r [
    | right all ↦ done existing
    | wrong i ↦ read_key new (λ k. do
      at ← find f head k
      cleared ← clear_key f head new k at.prev at.target existing
      link_retry f head new cleared.0 i cleared.1)
  ]

-- `max_height` is read and written in two accesses, as in `gen_height`.
unfoldable pub insert : ℕ → (head new : Ptr) → ℕ → Prog (Option Ptr)
insert f head new k = do
  at ← find f head k
  cleared ← clear_key f head null k at.prev at.target none
  read_header new (λ w. read_max (λ max. do
    _ ← (if ltb max (height w) then write_max (height w) (done tt) else done tt)
    add_len 1 (link_retry f head new cleared.0 0 cleared.1)))
