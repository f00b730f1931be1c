-- ===== src/Threads/Methods.antt =====
-- `insert` with `link_nodes`, `remove`, `unlink`, `get` and `Entry::remove` of src/internal/sync/mod.rs, and
-- `set_removed` and `tag_levels` of src/internal/utils/node.rs, as programs of atomic accesses. Each loop
-- runs on the fuel `f`. No node is freed while the programs run, which is a condition on the hazard pointers.
use skippy_rs.Base.{ℕ, zero, suc, ◌+◌, ◌-◌, ◌%◌, Option, none, some, ltb, min, ◌==◌, if◌then◌else◌}
use skippy_rs.Node.{Result, right, wrong, usize, max_levels, height}
use skippy_rs.Store.{Ptr, link_to}
use skippy_rs.Race.{set_flag}
use skippy_rs.Sync.{Pairs}
use skippy_rs.Threads.{
  Prog, done, spent, crash, load, exchange, read_header, write_header, flag, read_len, add_len,
  ◌>>=◌,
}
use skippy_rs.Threads.Find.{find, sub_ref}

unfoldable pub set_removed : Ptr → Prog (Result ℕ (Unit {0}))
set_removed p = read_header p (λ w.
    if set_flag w == w
    then done (wrong tt)
    else write_header p (flag w)
        (λ r. elim r [ right n ↦ done (right n) | wrong n ↦ done (wrong tt) ]))

-- The `while` of `compare_exchange_tag`.
unfoldable pub tag_loop : ℕ → Ptr → ℕ → (e_tag tag : ℕ) → Ptr → Prog (Result ℕ ℕ)
tag_loop zero p l e_tag tag ptr = spent
tag_loop (suc f) p l e_tag tag ptr = exchange p l (link_to ptr e_tag) (link_to ptr tag) (λ r.
    elim r [
      | right old ↦ done (right tag)
      | wrong now ↦
          if now.tag == e_tag then tag_loop f p l e_tag tag now.ptr else done (wrong now.tag)
    ])

-- `levels[l].compare_exchange_tag(e_tag, tag)`
unfoldable pub exchange_tag : ℕ → Ptr → ℕ → (e_tag tag : ℕ) → Prog (Result ℕ ℕ)
exchange_tag f p l e_tag tag = load p l (λ k. tag_loop f p l e_tag tag k.ptr)

unfoldable pub tag_down : ℕ → Ptr → ℕ → ℕ → Prog (Result (Unit {0}) ℕ)
tag_down f p tag zero = done (right tt)
tag_down f p tag (suc l) = do
  r ← exchange_tag f p l 0 tag
  elim r [ right done_tag ↦ tag_down f p tag l | wrong other ↦ done (wrong other) ]

unfoldable pub tag_levels : ℕ → Ptr → ℕ → Prog (Result ℕ ℕ)
tag_levels f p tag = read_header p (λ w. do
  r ← tag_down f p tag (height w)
  elim r [
    | right all ↦ read_header p (λ v. done (right ((height v + usize - 1) % usize)))
    | wrong other ↦ done (wrong other)
  ])

unfoldable pub try_remove_and_tag : ℕ → Ptr → Prog (Result (Unit {0}) (Unit {0}))
try_remove_and_tag f p = do
  r ← set_removed p
  elim r [
    | wrong e ↦ done (wrong tt)
    | right old ↦ (do
      t ← tag_levels f p 1
      elim t [ right n ↦ done (right tt) | wrong other ↦ done (wrong tt) ])
  ]

unfoldable pub unlink_levels : Ptr → Pairs → ℕ → Prog (Result (Unit {0}) ℕ)
unlink_levels node prev zero = done (right tt)
unlink_levels node prev (suc i) = load node i (λ k.
    exchange (prev i).0 i (link_to node 0) (link_to k.ptr 0) (λ r. elim r [
      | wrong now ↦ done (wrong (i + 1))
      | right old ↦ (do
        more ← sub_ref node
        elim more [ none ↦ done (right tt) | some u ↦ unlink_levels node prev i ])
    ]))

-- The source then runs `eager_reclaim`. Where every retired node is protected, that changes nothing, and it is not
-- a step here.
unfoldable pub unlink : (head node : Ptr) → ℕ → Pairs → Prog (Result (Unit {0}) ℕ)
unlink head node h prev = if node == head then crash else do
  r ← unlink_levels node prev (min max_levels h)
  elim r [ wrong i ↦ done (wrong i) | right all ↦ add_len (usize - 1) (done (right tt)) ]

unfoldable pub remove_target : ℕ → (head : Ptr) → ℕ → Ptr → Pairs → Prog (Option Ptr)
remove_target f head k target prev = do
  r ← set_removed target
  elim r [
    | wrong e ↦ done none
    | right old ↦ read_header target (λ w. do
      t ← tag_levels f target 1
      elim t [
        | wrong other ↦ crash
        | right top ↦ (do
          u ← unlink head target (height w) prev
          elim u [
            | right all ↦ done (some target)
            | wrong i ↦ (do _ ← find f head k; done (some target))
          ])
      ])
  ]

unfoldable pub remove : ℕ → (head : Ptr) → ℕ → Prog (Option Ptr)
remove f head k = do
  at ← find f head k
  elim at.target [ none ↦ done none | some target ↦ remove_target f head k target at.prev ]

unfoldable pub get : ℕ → (head : Ptr) → ℕ → Prog (Option Ptr)
get f head k = read_len (λ n. if ltb n 1 then done none else do at ← find f head k; done at.target)

unfoldable pub entry_remove : ℕ → Ptr → Prog (Option Ptr)
entry_remove f p = do
  r ← set_removed p
  elim r [
    | wrong e ↦ done none
    | right old ↦ (do
      t ← tag_levels f p 1
      elim t [ right n ↦ done (some p) | wrong other ↦ crash ])
  ]
