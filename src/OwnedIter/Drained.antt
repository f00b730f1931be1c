-- ===== src/OwnedIter/Drained.antt =====
-- A loop over `IntoIter`, by the entries and the memory.
use skippy_rs.Base.{
  ℕ, zero, suc, ◌+◌, ◌≡◌, ◌<◌, arith, List, [], ◌∷◌, none, some, true, false, Bool, ok, out_of_fuel,
  length, ◌==◌, ◌||◌, if◌then◌else◌, ◌>>=◌, pure, ne→not_eq, eq_self, refl,
}
use skippy_rs.Node.{max_levels}
use skippy_rs.Store.{Ptr, null, link_to, SkipList, Op, update, update_link}
use skippy_rs.Store.Access.{
  At, At-links, load_ptr-ok, load_key-ok, load_val-ok, store_ptr-ok, dealloc-ok,
}
use skippy_rs.Basics.{drop_list, drop_loop}
use skippy_rs.Basics.Drop.{holds}
use skippy_rs.Cells.{Cell, next_at, Nodes}
use skippy_rs.Cells.Frame.{Same-away, Nodes-Same}
use skippy_rs.Spec.{Entries, entries}
use skippy_rs.Sync.Domain.{Absent, Reclaimed, Domain, IsShared, freed-IsShared}
use skippy_rs.SkipList.Find.{IsNode-At, head-At}
use skippy_rs.OwnedIter.{from_list, take_node}

-- A `for` loop over the iterator, on fuel.
unfoldable pub take_all : {V : Type 0} → ℕ → Ptr → Op V (Entries V)
take_all zero p = λ _. out_of_fuel
take_all (suc f) p = do
  (item, after) ← take_node p
  elim item [ none ↦ pure [] | some e ↦ (do es ← take_all f after; pure (e ∷ es)) ]

module _ {V : Type 0} where
  take_all-frees :
      (f : ℕ) (p : Ptr) (s : SkipList V) (xs : List (Cell V))
      → p ≡ next_at 0 xs
      → Nodes s xs
      → length xs < f
      → (g : Ptr → Bool) × (take_all f p s ≡ ok (entries xs) (record s { live = g }))
        × ((a : Ptr) → g a ≡ (if holds a xs then false else s.live a))
  unfolding take_all take_node
  take_all-frees zero p s xs e n fuel = absurd (omega arith)
  take_all-frees (suc f) p s [] e n fuel = (s.live, rw e, λ a. refl)
  take_all-frees (suc f) p s (c ∷ xs) e n fuel =
      let t : SkipList V = record s { live = update s.live c.addr false } in
      let after : Nodes t xs =
        Nodes-Same s t xs
          (Same-away c.addr (λ _. c.addr)
            (λ a ne far. record {
              live = ground arith;
              key = refl;
              val = refl;
              header = refl;
              link = λ l lt. refl;
            })
            xs n.2 (λ _. n.2))
          n.4 in
      let (g, run, frees) = take_all-frees f (next_at 0 xs) t xs refl after (omega arith) in
      let here : p ≡ c.addr = ground (arith, n.0.tall) in
      let at = IsNode-At n.0 in
      (
        g,
        rw (
          here,
          ne→not_eq n.0.ne_null,
          load_ptr-ok at n.0.tall (n.1 0 n.0.tall),
          load_key-ok at n.0.key,
          load_val-ok at n.0.val,
          dealloc-ok at n.0.tall n.0.short,
          run,
        ),
        λ a. ground (arith, frees a),
      )

  drop_loop-null : (f : ℕ) (s : SkipList V) → 0 < f → drop_loop f null s ≡ ok tt s
  unfolding drop_loop
  drop_loop-null zero s pos = absurd (omega arith)
  drop_loop-null (suc f) s pos = refl

  -- `drop` of a list whose lowest level is empty releases the head, and what the domain frees.
  drop_list-empty :
      (eager : Op V (Unit {0})) (s : SkipList V) (g : Ptr → Bool) (r : List Ptr)
      → eager s ≡ ok tt (record s { live = g; retired = r })
      → At (record s { live = g; retired = r }) s.head max_levels
      → s.link s.head 0 ≡ link_to null 0
      → drop_list eager s ≡ ok tt (record s { live = update g s.head false; retired = r })
  unfolding drop_list
  drop_list-empty eager s g r reclaim at empty = rw (
    reclaim,
    load_ptr-ok at (omega arith) empty,
    drop_loop-null (s.len + 1) (record s { live = g; retired = r }) (omega arith),
    dealloc-ok at (omega arith) (omega arith),
  )

  -- On a well-formed list of nodes that are not retired, whatever the domain of hazard pointers frees of the nodes
  -- that are retired: a loop over `into_iter` ends without a fault and yields every entry in order. It releases
  -- the head and every node. Of what is left only nodes that are retired may be released, and nothing is
  -- allocated.
  pub from_list-take_all :
      (d : Domain V) {s : SkipList V} {xs : List (Cell V)}
      → IsShared s xs
      → (s' : SkipList V) × ((do p ← from_list d.eager_reclaim; take_all (length xs + 1) p) s
          ≡ ok (entries xs) s')
        × ((a : Ptr)
            → Absent a s.retired
            → s'.live a ≡ (if (a == s.head) || holds a xs then false else s.live a))
        × ((a : Ptr) → (a == s.head) || holds a xs ≡ true → s'.live a ≡ false)
        × ((a : Ptr) → s.live a ≡ false → s'.live a ≡ false)
  unfolding from_list
  from_list-take_all d {s} {xs} sh =
      let head = head-At sh.list in
      let cut = update_link s.link s.head 0 (link_to null 0) in
      let t : SkipList V = record s { link = cut } in
      let empty : t.link t.head 0 ≡ link_to null 0 = rw (eq_self s.head) in
      let (g, r, reclaim, at_cut) = d.reclaims t in
      let reclaimed : Reclaimed s g r = record {
        kept = at_cut.kept;
        left = at_cut.left;
        only_frees = at_cut.only_frees;
        forgotten = at_cut.forgotten;
      } in
      let kept : SkipList V = record s { live = g; retired = r } in
      let is = (freed-IsShared sh reclaimed).list in
      let u : SkipList V = record kept { link = cut; live = update g s.head false } in
      let nodes : Nodes u xs =
        Nodes-Same kept u xs
          (Same-away s.head (λ _. s.head)
            (λ a ne far. record {
              live = rw (ne→not_eq ne);
              key = refl;
              val = refl;
              header = refl;
              link = λ l lt. rw (ne→not_eq ne);
            })
            xs is.head_apart (λ _. is.head_apart))
          is.nodes in
      let (h, run, frees) =
        take_all-frees (length xs + 1) (next_at 0 xs) u xs refl nodes (omega arith) in
      (
        record u { live = h },
        rw (
          load_ptr-ok head (omega arith) (sh.list.head_tower 0 (omega arith)),
          store_ptr-ok head {l = 0} null (omega arith),
          drop_list-empty d.eager_reclaim t g r reclaim (At-links (head-At is) cut) empty,
          run,
        ),
        λ a out. ground (arith, frees a, reclaimed.kept a out),
        λ a ours. ground (arith, frees a, ours),
        λ a dead. ground (arith, frees a, reclaimed.only_frees a dead),
      )
