-- ===== src/Threads/Alone/Calls.antt =====
-- Calls of a thread that runs alone on a well-formed list.
use skippy_rs.Base.{
  ℕ, ◌+◌, ◌*◌, ◌≡◌, ◌<◌, inl, inr, arith, List, Option, ok, none, some, ◌∙◌, sym, ap, length,
}
use skippy_rs.Node.{usize, max_levels}
use mathlib.Core.Path.{subst}
use skippy_rs.Store.{Ptr, SkipList, load_val, deref, or_fault}
use skippy_rs.Cells.{Cell, IsList, target_at}
use skippy_rs.Spec.{entries, lookup, delete, put}
use skippy_rs.SkipList.Walk.Order.{show_val}
use skippy_rs.Sync
use skippy_rs.Sync.Domain.{IsShared}
use skippy_rs.Sync.Remove.{remove_alone-delete}
use skippy_rs.Threads.Alone.Ending.{Ending-run, all_protected}
use skippy_rs.Threads.Alone.Removing.{remove-Ending}
use skippy_rs.Sync.Find.{get_alone-lookup}
use skippy_rs.Threads.{System}
use skippy_rs.Threads.Methods.{get, remove}
use skippy_rs.Threads.Alone.{alone, Like-run, deref-cases}
use skippy_rs.Threads.Alone.Search.{enough, get-alone}
use skippy_rs.Threads.Insert.{insert}
use skippy_rs.Threads.Alone.Adding.{insert-alone}
use skippy_rs.Threads.Alone.Waiting.{Waiting}
use skippy_rs.Threads.Alone.Steps.{Ends, and_then-ok, alone-Ends}

module _ {V : Type 0} where
  show_val-keeps :
      (r : Option Ptr) {s t : SkipList V} {v : Option V} → show_val r s ≡ ok v t → s ≡ t
  unfolding load_val
  show_val-keeps none run = cc
  show_val-keeps (some p) {s = s} run =
      let (v', u, found, rest) = and_then-ok (load_val p s) _ run in
      let (x, w, there, held) = and_then-ok (deref p s) _ found in
      let same : s ≡ w = elim (deref-cases s p) [
        | inl e ↦ absurd (ground (arith, e, there))
        | inr e ↦ cc
      ] in
      same ∙ kept (w.val p) held ∙ cc
    where
      kept : (y : Option V) {w u : SkipList V} {v' : V} → or_fault y w ≡ ok v' u → w ≡ u
      kept none held = absurd (ground arith)
      kept (some y) held = cc

module _ {V : Type 0} {s : SkipList V} {xs : List (Cell V)} (is : IsList s xs) where
  -- On a well-formed list, wherever the other threads are: a thread at the start of `get`, with enough fuel for
  -- its loops, ends if it alone goes on. It ends with the list as it was and with an entry that shows the value
  -- of the key, if the map has it, and with none if not.
  pub get-Ends :
      (k F i : ℕ) (sys : System V (Option Ptr))
      → s.len + 1 + enough s < F
      → sys.store ≡ s
      → sys.pc i ≡ get F s.head k
      → (r : Option Ptr) × Ends sys i r s × (show_val r s ≡ ok (lookup k (entries xs)) s)
  get-Ends k F i sys fuel at here =
      let (r, u, run, shown) = and_then-ok (Sync.get k s) show_val (get_alone-lookup k is) in
      let same : u ≡ s = show_val-keeps r shown in
      (
        r,
        alone-Ends (get F s.head k) here (
            subst (λ t. alone (get F s.head k) t ≡ ok r s) (sym at)
              (Like-run (get-alone s k F fuel) (run ∙ ap (ok r) same))),
        subst (λ t. show_val r t ≡ ok (lookup k (entries xs)) s) same shown,
      )

module _ {V : Type 0} {s : SkipList V} {xs : List (Cell V)} (sh : IsShared s xs) where
  -- On a well-formed list of nodes that are not retired, with a length below 2^64, wherever the other threads
  -- are, while the hazard pointers keep every retired node: a thread at the start of `remove`, with enough fuel
  -- for its loops, ends if it alone goes on. It ends with the entry of the key, if there is one, and leaves a
  -- well-formed list of nodes that are not retired, whose map is the map without the key.
  pub remove-Ends :
      (k F i : ℕ) (sys : System V (Option Ptr))
      → length xs < usize
      → s.len + 1 + enough s < F
      → sys.store ≡ s
      → sys.pc i ≡ remove F s.head k
      → (s' : SkipList V) × (ys : List (Cell V)) × Ends sys i (target_at k xs) s'
        × IsShared s' ys
        × (entries ys ≡ delete k (entries xs))
  remove-Ends k F i sys few fuel at here =
      let (s', ys, run, after, same, fewer, dead) = remove_alone-delete all_protected sh few k in
      (
        s',
        ys,
        alone-Ends (remove F s.head k) here (
            subst (λ t. alone (remove F s.head k) t ≡ ok (target_at k xs) s') (sym at)
              (Ending-run (remove-Ending s k F fuel) run)),
        after,
        same,
      )

module _ {V : Type 0} {s : SkipList V} {xs : List (Cell V)} {c : Cell V} (sh : IsShared s xs)
    (w : Waiting s xs c) where
  -- On a well-formed list of nodes that are not retired, with a node allocated that is in no list and with room
  -- in the length, wherever the other threads are, while the hazard pointers keep every retired node: a thread
  -- at the start of `insert` of that node, with enough fuel for its loops, ends if it alone goes on. It ends with
  -- the entry that had the key, if there was one, and leaves a well-formed list of nodes that are not retired,
  -- whose map has the value of the node under its key.
  pub insert-Ends :
      (F i : ℕ) (sys : System V (Option Ptr))
      → length xs + 1 < usize
      → 3 * length xs + max_levels + 10 < F
      → sys.store ≡ s
      → sys.pc i ≡ insert F s.head c.addr c.key
      → (s' : SkipList V) × (ys : List (Cell V)) × Ends sys i (target_at c.key xs) s'
        × IsShared s' ys
        × (entries ys ≡ put c.key c.val (entries xs))
  insert-Ends F i sys room fuel at here =
      let (s', ys, run, after, same, longer, head, spares) = insert-alone sh w room F fuel in
      (
        s',
        ys,
        alone-Ends (insert F s.head c.addr c.key) here (
            subst (λ t. alone (insert F s.head c.addr c.key) t ≡ ok (target_at c.key xs) s')
              (sym at) run),
        after,
        same,
      )
