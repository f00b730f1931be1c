-- ===== src/Sync/Link.antt =====
-- `link_nodes` of src/internal/sync/mod.rs beside that of src/internal/skiplist.rs.
use skippy_rs.Base.{
  ℕ, zero, suc, ◌+◌, ◌-◌, ◌*◌, ◌≡◌, refl, sym, ◌∙◌, ◌≢◌, ◌≤◌, ◌<◌, ◌⊎◌, inl, inr, arith, true,
  false, some, eq_self, ne→not_eq, eq→test, gt→not_leb, ok, and_then, ap,
}
use native.Mathlib.Nat.{min-eq_right}
use native.Mathlib.Decide.{ℕ_discrete}
use skippy_rs.Node.{right, max_levels, one_ref, removed, try_add_ref}
use skippy_rs.Node.Header.{word, fields, try_add_ref_lem}
use skippy_rs.Store.{Ptr, null, Link, SkipList, link_to, update, update_link, on_header}
use skippy_rs.Store.Access.{
  At, At-links, height-refs, deref-ok, load_ptr-ok, load_key-ok, load_height-ok, add_ref-ok,
}
use skippy_rs.SkipList.Link.{joined, link_round, joined-At, joined-At-new, link_loop-LinkedFrom}
use skippy_rs.SkipList
use skippy_rs.Unlinking.Retired.{exchange_ptr-ok}
use skippy_rs.Sync.{Pairs, load_removed}
use skippy_rs.Sync.Update.{overtaken, count_level, link_levels, after_links, link_nodes}

module _ {V : Type 0} {s : SkipList V} {new h : ℕ} (at : At s new h) (short : h ≤ max_levels) where
  -- A header that counts a few levels carries no flag.
  load_removed-counted :
      (i : ℕ) → i ≤ max_levels → s.header new ≡ i * one_ref + h → load_removed new s ≡ ok false s
  unfolding load_removed
  load_removed-counted i few e =
      let packed : s.header new ≡ word false i h = omega (arith, e) in
      let alive : removed (word false i h) ≡ false =
        (fields false i h (omega arith) (omega arith)).2 in
      rw (deref-ok at, packed, alive)

  try_add_ref-ok :
      (i : ℕ)
      → 0 < i
      → i < h
      → s.header new ≡ i * one_ref + h
      → on_header new try_add_ref s
        ≡ ok (right (i + 1)) (record s { header = update s.header new ((i + 1) * one_ref + h) })
  unfolding on_header
  try_add_ref-ok i pos lt e =
      let packed : s.header new ≡ word false i h = omega (arith, e) in
      let next : word false (i + 1) h ≡ (i + 1) * one_ref + h = omega arith in
      let counted = try_add_ref_lem false i h (omega arith) (omega arith) (omega arith) in
      rw (deref-ok at, packed, counted, ne→not_eq {a = i} {b = 0} (omega arith), next)

  count_level-ok :
      (i : ℕ)
      → i < h
      → s.header new ≡ i * one_ref + h
      → count_level new i s
        ≡ ok true (record s { header = update s.header new ((i + 1) * one_ref + h) })
  unfolding count_level
  count_level-ok i lt e = elim (ℕ_discrete i 0) [
    | yes first ↦ rw (eq→test first, add_ref-ok i h at e (omega arith) short)
    | no above ↦ rw (ne→not_eq above, try_add_ref-ok i (omega arith) lt e)
  ]

-- The successor is null or has a larger key.
abbrev pub Beyond : {V : Type 0} → SkipList V → Ptr → ℕ → Ptr → Type 0
Beyond s new k next =
    (next ≡ null)
    ⊎ ((j : ℕ) × (m : ℕ) × At s next m × (s.key next ≡ some j) × (k < j) × (next ≢ new))

-- The first nodes of the pairs.
abbrev pub before : Pairs → ℕ → Ptr
before prev l = (prev l).0

module _ {V : Type 0} (new : Ptr) (prev : Pairs) (h k : ℕ) (short : h ≤ max_levels) where
  overtaken-ok :
      {s : SkipList V} (next : Ptr) (i : ℕ)
      → At s new h
      → i ≤ max_levels
      → s.header new ≡ i * one_ref + h
      → s.key new ≡ some k
      → Beyond s new k next
      → overtaken new next s ≡ ok false s
  unfolding overtaken
  overtaken-ok next i at few e key (inl none) = rw none
  overtaken-ok next i at few e key (inr (j, m, at_next, has, lt, ne)) = rw (
    ne→not_eq at_next.ne_null,
    load_key-ok at_next has,
    load_key-ok at key,
    load_removed-counted at short i few e,
    gt→not_leb lt,
  )

  -- One round, at a level of both nodes.
  link_levels-round :
      (n i m : ℕ) (s : SkipList V)
      → At s new h
      → s.header new ≡ i * one_ref + h
      → i < h
      → At s (prev i).0 m
      → i < m
      → (prev i).0 ≢ new
      → s.link (prev i).0 i ≡ link_to (prev i).1 0
      → s.link new i ≡ link_to null 0
      → s.key new ≡ some k
      → Beyond s new k (prev i).1
      → link_levels new prev (suc n) i s
        ≡ link_levels new prev n (i + 1) (joined new (before prev) h short s i)
  unfolding link_levels
  link_levels-round n i m s at header lt at_prev tall apart linked empty key beyond =
      let first : Ptr → ℕ → Link = update_link s.link new i (link_to (prev i).1 0) in
      let t : SkipList V = record s { link = first } in
      let at_t = At-links at first in
      let u : SkipList V = record t { header = update s.header new ((i + 1) * one_ref + h) } in
      let at_u : At u (prev i).0 m = record {
        ne_null = at_prev.ne_null;
        live = at_prev.live;
        header = rw (ne→not_eq apart) at_prev.header;
      } in
      let linked_u : u.link (prev i).0 i ≡ link_to (prev i).1 0 = rw (ne→not_eq apart) linked in
      let next : (s.link (prev i).0 i).ptr ≡ (prev i).1 = rw linked in
      rw (
        load_ptr-ok at lt empty,
        load_removed-counted at short i (omega arith) header,
        overtaken-ok (prev i).1 i at (omega arith) header key beyond,
        exchange_ptr-ok null (prev i).1 at lt empty,
        count_level-ok at_t short i lt header,
        exchange_ptr-ok (prev i).1 new at_u tall linked_u,
        next,
      )

  -- The levels from `i` on are ready to be linked: each predecessor reaches its level and points at the
  -- successor, which is beyond the key, and the new node points nowhere yet.
  abbrev Ready : SkipList V → ℕ → Type 0
  Ready s i =
      (l : ℕ)
      → i ≤ l
      → l < h
      → ((m : ℕ) × At s (prev l).0 m × (l < m))
        × ((prev l).0 ≢ new)
        × (s.link (prev l).0 l ≡ link_to (prev l).1 0)
        × (s.link new l ≡ link_to null 0)
        × Beyond s new k (prev l).1

  joined-Beyond :
      (s : SkipList V) (i : ℕ) (next : Ptr)
      → Beyond s new k next
      → Beyond (joined new (before prev) h short s i) new k next
  joined-Beyond s i next (inl none) = inl none
  joined-Beyond s i next (inr (j, m, at, has, lt, ne)) =
      inr (j, m, joined-At new (before prev) h short s i next m ne at, has, lt, ne)

  joined-Ready :
      (s : SkipList V) (i : ℕ) → Ready s i → Ready (joined new (before prev) h short s i) (i + 1)
  joined-Ready s i ready l ge lt =
      let ((m, at, room), apart, linked, empty, beyond) = ready l (omega arith) lt in
      (
        (m, joined-At new (before prev) h short s i (prev l).0 m apart at, room),
        apart,
        ground arith,
        ground arith,
        joined-Beyond s i (prev l).1 beyond,
      )

  link_levels-link_loop :
      (n i : ℕ) (s : SkipList V)
      → i + n ≡ h
      → At s new h
      → s.header new ≡ i * one_ref + h
      → s.key new ≡ some k
      → Ready s i
      → link_levels new prev n i s
        ≡ and_then (SkipList.link_loop new (before prev) n i s) (λ u. ok (right tt))
  unfolding link_levels SkipList.link_loop
  link_levels-link_loop zero i s e at header key ready = refl
  link_levels-link_loop (suc n) i s e at header key ready =
      let lt : i < h = omega arith in
      let ((m, at_i, room), apart, linked, empty, beyond) = ready i (omega arith) lt in
      let rest =
        link_levels-link_loop n (i + 1) (joined new (before prev) h short s i) (omega arith)
          (joined-At-new new (before prev) h short s i at) (rw (eq_self new)) key
          (joined-Ready s i ready) in
      link_levels-round n i m s at header lt at_i room apart linked empty key beyond
      ∙ rest
      ∙ sym (
          ap (λ r. and_then r (λ u. ok (right tt)))
            (link_round new (before prev) h short n i m s at header lt at_i room))

  -- A new node with its levels empty, and for each of them a predecessor and a successor beyond its key,
  -- with no other thread in between: `link_nodes` of the concurrent list does what that of the
  -- single-threaded list does, and never asks for another search.
  pub link_nodes-link_nodes :
      (s : SkipList V)
      → At s new h
      → s.header new ≡ h
      → s.key new ≡ some k
      → Ready s 0
      → link_nodes new prev 0 s
        ≡ and_then (SkipList.link_nodes new (before prev) s) (λ u. ok (right tt))
  unfolding link_nodes after_links SkipList.link_nodes
  link_nodes-link_nodes s at header key ready =
      let none_yet : s.header new ≡ 0 * one_ref + h = rw header (omega arith) in
      let r =
        link_loop-LinkedFrom new (before prev) h short (λ l lt. (ready l (omega arith) lt).1) h 0 s
          (omega arith) at none_yet (λ l ge lt. (ready l ge lt).0) in
      let levels : link_levels new prev h 0 s
          ≡ ok (right tt) (record s { link = r.links; header = r.headers }) =
        link_levels-link_loop h 0 s (omega arith) at none_yet key ready ∙ rw r.returns in
      let linked : At (record s { link = r.links; header = r.headers }) new h = record {
        ne_null = at.ne_null;
        live = at.live;
        header = rw (r.new_header, height-refs h h short);
      } in
      let all : h - 0 ≡ h = omega arith in
      rw (
        load_height-ok at,
        all,
        levels,
        load_removed-counted linked short h short r.new_header,
        min-eq_right short,
        r.returns,
      )
