-- ===== src/Sync/Put.antt =====
-- `insert` of src/internal/sync/mod.rs on a well-formed list against the ordered map.
use skippy_rs.Base.{
  ℕ, suc, refl, ◌+◌, ◌%◌, ◌≡◌, ◌∙◌, ◌≢◌, ◌<◌, ◌≤◌, inl, inr, arith, List, none, false, ok, length,
  ne→not_eq, eq_self, Option,
}
use skippy_rs.Node.{max_levels, usize, right}
use skippy_rs.Store.{Ptr, null, SkipList, link_to, Op}
use skippy_rs.Store.Access.{At}
use skippy_rs.Basics.Height.{grown, gen_height-Drawn}
use skippy_rs.Cells.{Cell, pred_at, succ_at, target_at}
use skippy_rs.Cells.Frame.{SameAt}
use skippy_rs.Cells.Insert.{insert_cell, length-insert, All-insert, Linked}
use skippy_rs.Cells.Entries.{entries-insert}
use skippy_rs.Spec.{entries, put}
use skippy_rs.SkipList.Find.{head-At}
use skippy_rs.SkipList.Insert.{
  allocated, new_node-ok, allocated-At, allocated-At_new, At-ne, link_nodes-Linked, Linked-IsList,
  prev-old,
}
use skippy_rs.SkipList.Put.{grown-IsList}
use skippy_rs.Sync.{Pairs}
use skippy_rs.Sync.Clear.{clear_key-Cleared}
use skippy_rs.Sync.Domain.{Domain, IsShared}
use skippy_rs.Sync.Find.{find_alone-IsFound, pred_at-succ_at}
use skippy_rs.Sync.Link.{Beyond, before, link_nodes-link_nodes}
use skippy_rs.Sync.Update.{link_nodes, link_retry, insert_new, insert}
use skippy_rs.Sync.Larger.{Larger, succ_at-Larger}

-- A new node for a key that is absent, between the predecessors and the successors that a search found.
module _ {V : Type 0} {s : SkipList V} {xs : List (Cell V)} (sh : IsShared s xs) (c : Cell V)
    (prev : Pairs)
    (found : (l : ℕ) → l < max_levels → prev l ≡ (pred_at l c.key s.head xs, succ_at l c.key xs))
    (absent : target_at c.key xs ≡ none) (ne : c.addr ≢ null) (dead : s.live c.addr ≡ false)
    (pos : 0 < c.height) (short : c.height ≤ max_levels) (low : c.height ≤ s.max_height)
    (room : length xs + 1 < usize) where
  -- The length is counted up before the node is linked.
  abbrev pub counted : SkipList V
  counted = record s { len = (s.len + 1) % usize }

  preds : (l : ℕ) → l < max_levels → before prev l ≡ pred_at l c.key s.head xs
  preds l lt = rw (before, found l lt)

  counted-At : {p m : ℕ} → At s p m → At counted p m
  counted-At at = record { ne_null = at.ne_null; live = at.live; header = at.header }

  old : (l : ℕ) → l < c.height → (m : ℕ) × At counted (before prev l) m × (l < m)
  old l lt =
      let (m, at, tall) = prev-old sh.list c (before prev) preds absent dead l (omega arith) in
      (m, counted-At at, tall)

  new-Beyond : (p : Ptr) → Larger s c.key p → Beyond (allocated counted c) c.addr c.key p
  new-Beyond p (inl e) = inl e
  new-Beyond p (inr (j, m, at, has, lt)) =
      let apart = At-ne c (before prev) old ne dead pos short (counted-At at) in
      inr (
        j,
        m,
        allocated-At c (before prev) old ne dead pos short (counted-At at),
        rw (ne→not_eq apart) has,
        lt,
        apart,
      )

  ready :
      (l : ℕ)
      → 0 ≤ l
      → l < c.height
      → ((m : ℕ) × At (allocated counted c) (prev l).0 m × (l < m))
        × ((prev l).0 ≢ c.addr)
        × ((allocated counted c).link (prev l).0 l ≡ link_to (prev l).1 0)
        × ((allocated counted c).link c.addr l ≡ link_to null 0)
        × Beyond (allocated counted c) c.addr c.key (prev l).1
  ready l ge lt =
      let few : l < max_levels = omega arith in
      let (m, at, tall) = old l lt in
      let apart = At-ne c (before prev) old ne dead pos short at in
      let leads : s.link (prev l).0 l ≡ link_to (prev l).1 0 =
        rw (found l few)
          (pred_at-succ_at s l c.key s.head xs sh.list.nodes (sh.list.head_tower l few)) in
      (
        (m, allocated-At c (before prev) old ne dead pos short at, tall),
        apart,
        rw (ne→not_eq apart) leads,
        ground arith,
        new-Beyond (prev l).1 (rw (found l few) (succ_at-Larger s l c.key xs sh.list.nodes absent)),
      )

  relinked : {s' : SkipList V} → Linked counted s' c (before prev) → Linked s s' c (before prev)
  relinked linked = record {
    live = linked.live;
    key = linked.key;
    val = linked.val;
    header = linked.header;
    link = linked.link;
    node = linked.node;
    tower = linked.tower;
  }

  pub link_nodes-IsShared :
      (s' : SkipList V) × (link_nodes c.addr prev 0 (allocated counted c) ≡ ok (right tt) s')
      × IsShared s' (insert_cell c xs)
      × ((b : Ptr) → b ≢ c.addr → s'.live b ≡ s.live b)
      × (s'.head ≡ s.head)
      × (s'.retired ≡ s.retired)
      × ((b : Ptr) → b ≢ c.addr → ((l : ℕ) → l < max_levels → b ≢ (prev l).0) → SameAt s s' b)
  link_nodes-IsShared =
      let (s', run, linked, len, max, head, retired) =
        link_nodes-Linked c (before prev) old ne dead pos short in
      let links =
        link_nodes-link_nodes c.addr prev c.height c.key short (allocated counted c)
          (allocated-At_new c (before prev) old ne dead pos short) (rw (eq_self c.addr))
          (rw (eq_self c.addr)) ready in
      (
        s',
        rw (links, run),
        record {
          list =
              Linked-IsList sh.list c (before prev) preds absent dead (relinked linked) head
                (ground (arith, len, sh.list.counted, length-insert c xs)) max low;
          head_linked = rw (head, retired) sh.head_linked;
          nodes_linked =
              rw retired (All-insert c _ xs (sh.retired_live c.addr dead) sh.nodes_linked);
          retired_live = λ b gone.
              rw retired (sh.retired_live b (ground (arith, linked.live b, linked.node.live)));
        },
        linked.live,
        head,
        retired,
        λ b ne off. record {
          live = linked.live b ne;
          key = linked.key b ne;
          val = linked.val b ne;
          header = linked.header b ne;
          link = λ l lt. ground (arith, linked.link b l ne lt, off l lt);
        },
      )

  pub link_retry-IsShared :
      (eager : Op V (Unit {0})) (f : ℕ) (existing : Option Ptr)
      → (s' : SkipList V) × (link_retry eager (suc f) c.addr prev 0 existing (allocated counted c)
          ≡ ok existing s')
        × IsShared s' (insert_cell c xs)
        × ((b : Ptr) → b ≢ c.addr → s'.live b ≡ s.live b)
  unfolding link_retry
  link_retry-IsShared eager f existing =
      let (s', run, sh', live, head, retired, away) = link_nodes-IsShared in
      (s', rw run refl, sh', live)

module _ {V : Type 0} {s : SkipList V} {xs : List (Cell V)} (h : ℕ) (short : h ≤ max_levels) where
  grown-IsShared : IsShared s xs → IsShared (grown s h) xs
  grown-IsShared sh = record {
    list = grown-IsList h short sh.list;
    head_linked = sh.head_linked;
    nodes_linked = sh.nodes_linked;
    retired_live = sh.retired_live;
  }

module _ {V : Type 0} (d : Domain V) {s : SkipList V} {xs : List (Cell V)} (sh : IsShared s xs)
    (fresh k : ℕ) (v : V) (ne : fresh ≢ null) (dead : s.live fresh ≡ false)
    (room : length xs + 1 < usize) where
  -- The key is absent, and `prev` are its predecessors.
  insert_new-IsShared :
      (prev : Pairs)
      → ((l : ℕ) → l < max_levels → prev l ≡ (pred_at l k s.head xs, succ_at l k xs))
      → target_at k xs ≡ none
      → (existing : Option Ptr)
      → (s' : SkipList V) × (ys : List (Cell V)) × (insert_new d.eager_reclaim fresh k v prev
            existing s
          ≡ ok existing s')
        × IsShared s' ys
        × (entries ys ≡ put k v (entries xs))
        × (length ys ≤ length xs + 1)
        × ((b : Ptr) → b ≢ fresh → s'.live b ≡ s.live b)
  unfolding insert_new
  insert_new-IsShared prev found absent existing =
      let (h, drawn, b) = gen_height-Drawn (head-At sh.list) in
      let short : h ≤ max_levels = omega (arith, b.le) in
      let c : Cell V = record { addr = fresh; height = h; key = k; val = v } in
      let (s', linked, sh', live) =
        link_retry-IsShared (grown-IsShared h short sh) c prev found absent ne dead b.pos short
          (ground arith) room d.eager_reclaim ((s.len + 1) % usize) existing in
      (
        s',
        insert_cell c xs,
        rw (drawn, new_node-ok (grown s h) c ne b.pos short) linked,
        sh',
        entries-insert c xs absent,
        omega (arith, length-insert c xs),
        live,
      )

module _ {V : Type 0} (d : Domain V) {s : SkipList V} {xs : List (Cell V)} (sh : IsShared s xs)
    (fresh k : ℕ) (v : V) (ne : fresh ≢ null) (dead : s.live fresh ≡ false)
    (room : length xs + 1 < usize) where
  -- On a well-formed list of nodes that are not retired, given a free address, with room in the length
  -- and no other thread in between, whatever the domain of hazard pointers frees of the nodes that are
  -- retired: `insert` ends and returns the entry that had the key, if there was one. It puts the value
  -- under the key, and leaves a well-formed list of nodes that are not retired, at most one node longer.
  -- It allocates no other address.
  pub insert_alone-put :
      (s' : SkipList V) × (ys : List (Cell V)) × (insert d.eager_reclaim fresh k v s
        ≡ ok (target_at k xs) s')
      × IsShared s' ys
      × (entries ys ≡ put k v (entries xs))
      × (length ys ≤ length xs + 1)
      × ((b : Ptr) → b ≢ fresh → s.live b ≡ false → s'.live b ≡ false)
  unfolding insert
  insert_alone-put =
      let (r, search, at) = find_alone-IsFound k sh.list in
      let (s1, ys, prev, cleared, y) = clear_key-Cleared d sh (omega arith) k r at s.len in
      let (s', zs, added, sh', same, longer, live) =
        insert_new-IsShared d y.shared fresh k v ne (y.stays_dead fresh dead) (omega (arith, y.le))
          prev y.found y.absent (target_at k xs) in
      (
        s',
        zs,
        rw (search, at.target, cleared) added,
        sh',
        same ∙ y.same v,
        omega (arith, longer, y.le),
        λ b away gone. live b away ∙ y.stays_dead b gone,
      )
