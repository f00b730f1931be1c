-- ===== src/SkipList/Insert.antt =====
-- `link_nodes` of src/internal/skiplist.rs on a new node: the nodes of the list with it among them.
use skippy_rs.Base.{
  ℕ, ◌≡◌, refl, ◌∙◌, ◌≢◌, ◌≤◌, ◌<◌, arith, List, [], ◌∷◌, none, some, true, false, ltb, lt→ltb,
  le→not_ltb, eq_self, ne→not_eq, ok, length, if◌then◌else◌, ◌==◌, ◌&&◌,
}
use native.Mathlib.Nat.{min-eq_right}
use native.Mathlib.Decide.{dec_lt}
use skippy_rs.Node.{max_levels}
use skippy_rs.Store.{Ptr, null, SkipList, link_to, new_node, update}
use skippy_rs.Store.Access.{At, height-small, load_height-ok}
use skippy_rs.Cells.{Cell, pred_at, target_at, NotIn, Nodes, IsList}
use skippy_rs.Cells.Insert.{insert_cell, Linked, Nodes-insert, next_at-insert, All-insert}
use skippy_rs.SkipList.{Prevs, link_nodes}
use skippy_rs.SkipList.Find.{IsNode-At, head-At}
use skippy_rs.SkipList.Link.{link_loop-LinkedFrom}

module _ {V : Type 0} (s : SkipList V) where
  -- A predecessor at level `l` has that level.
  pub pred_at-At :
      (l k : ℕ) (xs : List (Cell V)) {p m : ℕ}
      → Nodes s xs
      → At s p m
      → l < m
      → (n : ℕ) × At s (pred_at l k p xs) n × (l < n)
  pred_at-At l k [] {m = m} n at lt = (m, at, lt)
  pred_at-At l k (c ∷ xs) {m = m} n at lt = elim (dec_lt c.key k) [
    | no ge ↦ rw (le→not_ltb {a = c.key} {b = k} (omega arith)) (m, at, lt)
    | yes less ↦ rw (lt→ltb less) (elim (dec_lt l c.height) [
      | yes tall ↦ rw (lt→ltb tall) (pred_at-At l k xs n.4 (IsNode-At n.0) tall)
      | no low ↦ rw (le→not_ltb {a = l} {b = c.height} (omega arith)) (pred_at-At l k xs n.4 at lt)
    ])
  ]

  pub NotIn-live : (p : Ptr) (xs : List (Cell V)) → Nodes s xs → s.live p ≡ false → NotIn p xs
  NotIn-live p [] n dead = tt
  NotIn-live p (c ∷ xs) n dead = (λ e. ground (arith, n.0.live), NotIn-live p xs n.4 dead)

-- The list after the node is allocated and written.
abbrev pub allocated : {V : Type 0} → SkipList V → Cell V → SkipList V
allocated s c = record s {
  live = update s.live c.addr true;
  key = update (update s.key c.addr none) c.addr (some c.key);
  val = update (update s.val c.addr none) c.addr (some c.val);
  header = update s.header c.addr c.height;
  link = λ a m. if (a == c.addr) && ltb m c.height then link_to null 0 else s.link a m;
}

pub new_node-ok :
    {V : Type 0} (s : SkipList V) (c : Cell V)
    → c.addr ≢ null
    → 0 < c.height
    → c.height ≤ max_levels
    → new_node c.addr c.key c.val c.height s ≡ ok c.addr (allocated s c)
unfolding new_node
new_node-ok s c ne pos le = ground arith

module _ {V : Type 0} {s : SkipList V} (c : Cell V) (prev : Prevs)
    (old : (l : ℕ) → l < c.height → (m : ℕ) × At s (prev l) m × (l < m)) (ne : c.addr ≢ null)
    (dead : s.live c.addr ≡ false) (pos : 0 < c.height) (short : c.height ≤ max_levels) where
  pub At-ne : {p m : ℕ} → At s p m → p ≢ c.addr
  At-ne at e = ground (arith, at.live)

  pub allocated-At : {p m : ℕ} → At s p m → At (allocated s c) p m
  allocated-At at = record {
    ne_null = at.ne_null;
    live = rw (ne→not_eq (At-ne at)) at.live;
    header = rw (ne→not_eq (At-ne at)) at.header;
  }

  pub allocated-At_new : At (allocated s c) c.addr c.height
  allocated-At_new = record {
    ne_null = ne;
    live = rw (eq_self c.addr);
    header = rw (eq_self c.addr, height-small c.height short);
  }

  -- Allocating a node and linking it below the predecessors of its key.
  pub link_nodes-Linked :
      (s' : SkipList V) × (link_nodes c.addr prev (allocated s c) ≡ ok tt s')
      × Linked s s' c prev
      × (s'.len ≡ s.len)
      × (s'.max_height ≡ s.max_height)
      × (s'.head ≡ s.head)
      × (s'.retired ≡ s.retired)
  unfolding link_nodes
  link_nodes-Linked =
      let r =
        link_loop-LinkedFrom c.addr prev c.height short
          (λ l lt. let (m, at, room) = old l lt in At-ne at) c.height 0 (allocated s c)
          (omega arith) allocated-At_new (rw (eq_self c.addr) (omega arith))
          (λ l ge lt. let (m, at, room) = old l lt in (m, allocated-At at, room)) in
      (
        record (allocated s c) { link = r.links; header = r.headers },
        rw (load_height-ok allocated-At_new, min-eq_right short, r.returns),
        record {
          live = λ a away. ground arith;
          key = λ a away. ground arith;
          val = λ a away. ground arith;
          header = λ a away. ground (arith, r.old_header a away);
          link = λ a l away room. ground (arith, r.old_links a l away);
          node = record {
            ne_null = ne;
            live = ground arith;
            key = ground arith;
            val = ground arith;
            header = r.new_header;
            tall = pos;
            short = short;
          };
          tower = λ l lt. ground (arith, r.new_links l, At-ne (old l lt).1);
        },
        refl,
        refl,
        refl,
        refl,
      )

-- The list `s'` after the node `c` is linked into the list of `xs`, whose keys differ from its own.
module _ {V : Type 0} {s : SkipList V} {xs : List (Cell V)} (is : IsList s xs) (c : Cell V)
    (prev : Prevs) (found : (l : ℕ) → l < max_levels → prev l ≡ pred_at l c.key s.head xs)
    (absent : target_at c.key xs ≡ none) (dead : s.live c.addr ≡ false) where
  pub prev-old : (l : ℕ) → l < max_levels → (m : ℕ) × At s (prev l) m × (l < m)
  prev-old l lt = rw (found l lt) (pred_at-At s l c.key xs is.nodes (head-At is) lt)

  head-ne : s.head ≢ c.addr
  head-ne e = ground (arith, is.head_live)

  pub Linked-IsList :
      {s' : SkipList V}
      → Linked s s' c prev
      → s'.head ≡ s.head
      → s'.len ≡ length (insert_cell c xs)
      → s'.max_height ≡ s.max_height
      → c.height ≤ s.max_height
      → IsList s' (insert_cell c xs)
  Linked-IsList linked same_head counted same_max le = record {
    head_ne_null = rw same_head is.head_ne_null;
    head_live = rw same_head (linked.live s.head head-ne ∙ is.head_live);
    head_header = rw same_head (linked.header s.head head-ne ∙ is.head_header);
    head_apart = rw same_head (All-insert c _ xs head-ne is.head_apart);
    head_tower = λ l lt. ground (
      arith,
      same_head,
      linked.link s.head l head-ne lt,
      next_at-insert c l s.head xs is.head_apart,
      found l lt,
      is.head_tower l lt,
    );
    nodes =
        Nodes-insert c prev linked (λ _. s.head) xs is.nodes (NotIn-live s c.addr xs is.nodes dead)
          (λ _. is.head_apart) found is.head_tower absent;
    counted = counted;
    low = rw same_max (All-insert c _ xs le is.low);
    some_level = rw same_max is.some_level;
    few_levels = rw same_max is.few_levels;
  }
