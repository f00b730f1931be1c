-- ===== src/Basics/Drop.antt =====
-- `new` and `drop` of `skiplist_basics!`: the empty list, and the release of all memory.
use skippy_rs.Base.{
  ℕ, zero, suc, ◌+◌, ◌≡◌, refl, ◌∙◌, ◌≢◌, ◌<◌, arith, List, [], ◌∷◌, none, true, false, Bool, ◌||◌,
  ◌&&◌, ◌>>=◌, ◌>>◌, ok, length, ltb, ◌==◌, if◌then◌else◌, ne→not_eq, eq_self,
}
use skippy_rs.Node.{max_levels}
use skippy_rs.Store.{
  Ptr, null, link_to, SkipList, update, drop_node, alloc, check_layout, load_ptr, dealloc,
}
use skippy_rs.Store.Access.{At, load_ptr-ok, load_key-ok, load_val-ok, dealloc-ok}
use skippy_rs.Basics.{new, drop_loop, drop_list}
use skippy_rs.Cells.{Cell, next_at, NotIn, IsNode, Nodes, IsList}
use skippy_rs.Cells.Frame.{Same-away, Nodes-Same}
use skippy_rs.Sync.Domain.{Absent, Domain, IsShared, freed-IsShared}
use skippy_rs.SkipList.Find.{IsNode-At, head-At}

-- Where the allocator returns an address, `new` ends and gives a well-formed list without nodes.
-- It allocates no other address and leaves what is retired.
pub new-IsList :
    {V : Type 0} (fresh seed : ℕ) (s : SkipList V)
    → fresh ≢ null
    → (s' : SkipList V) × (new fresh seed s ≡ ok fresh s')
      × IsList s' []
      × (s'.retired ≡ s.retired)
      × (s'.head ≡ fresh)
      × ((a : Ptr) → a ≢ fresh → s'.live a ≡ s.live a)
unfolding new alloc check_layout
new-IsList fresh seed s ne = (
  record s {
    head = fresh;
    live = update s.live fresh true;
    key = update s.key fresh none;
    val = update s.val fresh none;
    header = update s.header fresh max_levels;
    link = λ a m. if (a == fresh) && ltb m max_levels then link_to null 0 else s.link a m;
    len = 0;
    max_height = 1;
    seed = seed;
  },
  rw (ne→not_eq ne),
  record {
    head_ne_null = ne;
    head_live = rw (eq_self fresh);
    head_header = rw (eq_self fresh);
    head_apart = tt;
    head_tower = λ l lt. ground arith;
    nodes = tt;
    counted = refl;
    low = tt;
    some_level = omega arith;
    few_levels = omega arith;
  },
  refl,
  refl,
  λ a away. rw (ne→not_eq away),
)

module _ {V : Type 0} where
  abbrev pub holds : Ptr → List (Cell V) → Bool
  holds a [] = false
  holds a (c ∷ xs) = (a == c.addr) || holds a xs

  drop_node-ok :
      {s : SkipList V} {c : Cell V}
      → IsNode s c
      → drop_node c.addr s ≡ ok tt (record s { live = update s.live c.addr false })
  unfolding drop_node
  drop_node-ok n =
      let at = IsNode-At n in
      rw (load_key-ok at n.key, load_val-ok at n.val, dealloc-ok at n.tall n.short)

  drop_loop-frees :
      (f : ℕ) (p : Ptr) (s : SkipList V) (xs : List (Cell V))
      → p ≡ next_at 0 xs
      → Nodes s xs
      → length xs < f
      → (g : Ptr → Bool) × (drop_loop f p s ≡ ok tt (record s { live = g }))
        × ((a : Ptr) → g a ≡ (if holds a xs then false else s.live a))
  unfolding drop_loop
  drop_loop-frees zero p s xs e n fuel = absurd (omega arith)
  drop_loop-frees (suc f) p s [] e n fuel = (s.live, rw e, λ a. refl)
  drop_loop-frees (suc f) p s (c ∷ xs) e n fuel =
      let t : SkipList V = record s { live = update s.live c.addr false } in
      let rest_nodes : Nodes t xs =
        Nodes-Same s t xs
          (Same-away c.addr (λ _. c.addr)
            (λ a ne far. record {
              live = ground arith;
              key = refl;
              val = refl;
              header = refl;
              link = λ l lt. refl;
            })
            xs n.2 (λ _. n.2))
          n.4 in
      let (g, run, frees) = drop_loop-frees f (next_at 0 xs) t xs refl rest_nodes (omega arith) in
      let here : p ≡ c.addr = ground (arith, n.0.tall) in
      (
        g,
        rw
            (
              here,
              ne→not_eq n.0.ne_null,
              load_ptr-ok (IsNode-At n.0) n.0.tall (n.1 0 n.0.tall),
              drop_node-ok n.0,
            )
            run,
        λ a. ground (arith, frees a),
      )

  drop_nodes-frees :
      {s : SkipList V} {xs : List (Cell V)}
      → IsList s xs
      → (g : Ptr → Bool) × ((do p ← load_ptr s.head 0; drop_loop (s.len + 1) p; dealloc s.head) s
          ≡ ok tt (record s { live = g }))
        × ((a : Ptr) → g a ≡ (if (a == s.head) || holds a xs then false else s.live a))
  drop_nodes-frees {s} {xs} is =
      let (g, run, frees) =
        drop_loop-frees (s.len + 1) (next_at 0 xs) s xs refl is.nodes (omega (arith, is.counted)) in
      let head = head-At is in
      let out : (ys : List (Cell V)) → NotIn s.head ys → holds s.head ys ≡ false = elim [
        | [] ↦ λ _. refl
        | c ∷ (ys → ih) ↦ λ apart. rw (ne→not_eq apart.0) (ih apart.1)
      ] in
      let head' : At (record s { live = g }) s.head max_levels = record {
        ne_null = head.ne_null;
        live = frees s.head ∙ rw (out xs is.head_apart) head.live;
        header = head.header;
      } in
      (
        update g s.head false,
        rw (
          load_ptr-ok head (omega arith) (is.head_tower 0 (omega arith)),
          run,
          dealloc-ok head' (omega arith) (omega arith),
        ),
        λ a. ground (arith, frees a),
      )

  -- On a well-formed list of nodes that are not retired, whatever the domain of hazard pointers frees of the nodes
  -- that are retired: `drop` ends without a fault. It releases the head and every node. Of what is left only
  -- nodes that are retired may be released, and nothing is allocated.
  pub drop_list-frees :
      (d : Domain V) {s : SkipList V} {xs : List (Cell V)}
      → IsShared s xs
      → (s' : SkipList V) × (drop_list d.eager_reclaim s ≡ ok tt s')
        × ((a : Ptr)
            → Absent a s.retired
            → s'.live a ≡ (if (a == s.head) || holds a xs then false else s.live a))
        × ((a : Ptr) → (a == s.head) || holds a xs ≡ true → s'.live a ≡ false)
        × ((a : Ptr) → s.live a ≡ false → s'.live a ≡ false)
  unfolding drop_list
  drop_list-frees d {s} {xs} sh =
      let (g, r, reclaim, reclaimed) = d.reclaims s in
      let (h, run, frees) = drop_nodes-frees (freed-IsShared sh reclaimed).list in
      (
        record s { live = h; retired = r },
        rw reclaim run,
        λ a out. ground (arith, frees a, reclaimed.kept a out),
        λ a ours. frees a ∙ rw ours refl,
        λ a dead. ground (arith, frees a, reclaimed.only_frees a dead),
      )
