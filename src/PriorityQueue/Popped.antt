-- ===== src/PriorityQueue/Popped.antt =====
-- The queue of src/collections/priority_queue.rs over the concurrent list, after `pop`: the entry that
-- came out is marked, and stays linked until the next walk.
use skippy_rs.Base.{
  ℕ, suc, ◌+◌, ◌-◌, ◌^◌, ◌≡◌, refl, sym, ◌≢◌, ◌≤◌, ◌<◌, ◌⊎◌, inl, inr, arith, List, [], ◌∷◌, some,
  true, false, ok, ne→not_eq, eq_self, lt→ltb, le→not_ltb, ◌==◌, if◌then◌else◌, ap,
}
use skippy_rs.Node.{max_levels, right}
use skippy_rs.Node.Header.{word}
use skippy_rs.Store.{Ptr, SkipList, link_to, update, update_link, load_tag, null}
use skippy_rs.Store.Access.{At, load_tag-ok}
use skippy_rs.Basics.{is_empty}
use skippy_rs.Cells.{Cell, next_at, NotIn, Nodes}
use skippy_rs.Cells.Frame.{Same-away, Nodes-Same}
use skippy_rs.SkipList.Find.{IsNode-At}
use skippy_rs.SkipList.Walk.Order.{first_addr}
use skippy_rs.Unlinking.{unlink_level}
use skippy_rs.Unlinking.Retired.{unlink_level-retired}
use skippy_rs.Sync.Search.{from_maybe_tagged-ok}
use skippy_rs.Sync.Walk.{skip_removed, next_node, get_first}
use skippy_rs.Sync.Order.{next_alone-first}

-- The head points at a marked node, behind which is `xs`.
pub record Marked {V : Type 0} (s : SkipList V) (xs : List (Cell V)) : Type 0 where
  pub addr : Ptr
  pub height : ℕ
  pub count : ℕ
  pub at : At s addr height
  pub tall : 0 < height
  pub short : height ≤ max_levels
  pub packed : s.header addr ≡ word true count height
  pub some_ref : 0 < count
  pub few : count < 2 ^ 57
  pub from : s.link s.head 0 ≡ link_to addr 0
  pub to : s.link addr 0 ≡ link_to (next_at 0 xs) 1
  pub apart : addr ≢ s.head
  pub out : NotIn addr xs

-- At the lowest level the head leads to `xs`, over a marked node or not; `xs` are not marked.
pub record Popped {V : Type 0} (s : SkipList V) (xs : List (Cell V)) : Type 0 where
  pub head : At s s.head max_levels
  pub filled : 0 < s.len
  pub nodes : Nodes s xs
  pub head_apart : NotIn s.head xs
  pub leads : (s.link s.head 0 ≡ link_to (next_at 0 xs) 0) ⊎ Marked s xs

module _ {V : Type 0} (s : SkipList V) (xs : List (Cell V)) (m : Marked s xs)
    (p : Popped s xs) where
  -- The list once the marked node is off the lowest level.
  abbrev skipped : SkipList V
  skipped = record s {
    header = update s.header m.addr (word true (m.count - 1) m.height);
    link = update_link s.link s.head 0 (link_to (next_at 0 xs) 0);
    retired = if m.count == 1 then m.addr ∷ s.retired else s.retired;
  }

  skipped-Popped : Popped skipped xs
  skipped-Popped = record {
    head = record {
      ne_null = p.head.ne_null;
      live = p.head.live;
      header = rw (ne→not_eq {a = s.head} {b = m.addr} (λ e. m.apart (sym e))) p.head.header;
    };
    filled = p.filled;
    nodes =
        Nodes-Same s skipped xs
          (Same-away m.addr (λ _. s.head)
            (λ a away far. record {
              live = refl;
              key = refl;
              val = refl;
              header = rw (ne→not_eq away);
              link = λ l lt. rw (ne→not_eq (far 0));
            })
            xs m.out (λ _. p.head_apart))
          p.nodes;
    head_apart = p.head_apart;
    leads = inl (rw (eq_self s.head));
  }

  unlink-skipped : unlink_level s.head m.addr (next_at 0 xs) 0 s ≡ ok (right (next_at 0 xs)) skipped
  unlink-skipped =
      unlink_level-retired p.head m.at true m.count 0 m.packed m.some_ref m.few
        (omega (arith, m.short)) (omega arith) (next_at 0 xs) m.from

module _ {V : Type 0} {s : SkipList V} (c : Cell V) (xs : List (Cell V))
    (n : Nodes s (c ∷ xs)) where
  first-addr : next_at 0 (c ∷ xs) ≡ c.addr
  first-addr = rw (lt→ltb n.0.tall)

  next-ne_null : (next_at 0 (c ∷ xs) == null) ≡ false
  next-ne_null = rw first-addr (ne→not_eq n.0.ne_null)

  next-tag : load_tag (next_at 0 (c ∷ xs)) 0 s ≡ ok 0 s
  next-tag = rw first-addr (load_tag-ok (IsNode-At n.0) n.0.tall (n.1 0 n.0.tall))

-- One round of the `while` takes the marked node off.
skip_removed-skipped :
    {V : Type 0} (s : SkipList V) (xs : List (Cell V)) (m : Marked s xs) (p : Popped s xs) (f : ℕ)
    → skip_removed (suc (suc f)) s.head m.addr s ≡ ok (first_addr xs) (skipped s xs m p)
unfolding skip_removed
skip_removed-skipped s [] m p f =
    rw
      (load_tag-ok m.at m.tall m.to, from_maybe_tagged-ok m.at m.tall m.to, unlink-skipped s [] m p)
skip_removed-skipped s (c ∷ xs) m p f =
    let n = (skipped-Popped s (c ∷ xs) m p).nodes in
    rw
      (
        load_tag-ok m.at m.tall m.to,
        from_maybe_tagged-ok m.at m.tall m.to,
        unlink-skipped s (c ∷ xs) m p,
        next-ne_null c xs n,
        next-tag c xs n,
      )
      (ap (λ a. ok (some a) (skipped s (c ∷ xs) m p)) (first-addr c xs n))

next_node-skipped :
    {V : Type 0} (s : SkipList V) (xs : List (Cell V)) (m : Marked s xs) (p : Popped s xs)
    → next_node s.head s ≡ ok (first_addr xs) (skipped s xs m p)
unfolding next_node
next_node-skipped s xs m p =
    let fuel : s.len + 1 ≡ suc (suc (s.len - 1)) = omega (arith, p.filled) in
    rw (
      load_tag-ok p.head (omega arith) m.from,
      from_maybe_tagged-ok p.head (omega arith) m.from,
      ne→not_eq m.at.ne_null,
      fuel,
      skip_removed-skipped s xs m p (s.len - 1),
    )

-- `get_first` gives the first node of `xs`, which the head then points at.
pub get_first-Popped :
    {V : Type 0} (s : SkipList V) (xs : List (Cell V))
    → Popped s xs
    → (s' : SkipList V) × (get_first s ≡ ok (first_addr xs) s')
      × Popped s' xs
      × (s'.link s'.head 0 ≡ link_to (next_at 0 xs) 0)
      × (s'.len ≡ s.len)
unfolding get_first is_empty
get_first-Popped s xs p = elim p.leads [
  | inl direct ↦ (
    s,
    rw (le→not_ltb {a = s.len} {b = 1} p.filled)
        (next_alone-first xs p.head (omega arith) direct p.nodes),
    p,
    direct,
    refl,
  )
  | inr m ↦ (
    skipped s xs m p,
    rw (le→not_ltb {a = s.len} {b = 1} p.filled) (next_node-skipped s xs m p),
    skipped-Popped s xs m p,
    rw (eq_self s.head),
    refl,
  )
]
