-- ===== src/SkipList/Link.antt =====
-- The loop of `link_nodes` in src/internal/skiplist.rs: what it leaves at each address and level.
use skippy_rs.Base.{
  ℕ, zero, suc, ◌+◌, ◌*◌, ◌≡◌, refl, ◌≢◌, ◌≤◌, ◌<◌, arith, ◌==◌, ◌&&◌, ltb, leb, eq_self, ne→not_eq,
  ok, if◌then◌else◌, Run,
}
use skippy_rs.Node.{max_levels, one_ref}
use skippy_rs.Store.{Ptr, Link, SkipList, link_to, update, update_link}
use skippy_rs.Store.Access.{At, height-refs, load_ptr-link, At-links, store_ptr-ok, add_ref-ok}
use skippy_rs.SkipList.{Prevs, link_loop}

-- The levels from `i` below `h` are linked: `new` points where `prev` did, and `prev` at `new`.
pub record LinkedFrom {V : Type 0} (s : SkipList V) (new : Ptr) (prev : Prevs) (i h : ℕ)
    (run : Run (SkipList V) (Unit {0})) : Type 0 where
  pub links : Ptr → ℕ → Link
  pub headers : Ptr → ℕ
  pub returns : run ≡ ok tt (record s { link = links; header = headers })
  pub new_links :
      (l : ℕ)
      → links new l
        ≡ (if leb i l && ltb l h then link_to (s.link (prev l) l).ptr 0 else s.link new l)
  pub old_links :
      (a : Ptr) (l : ℕ)
      → a ≢ new
      → links a l ≡ (if (leb i l && ltb l h) && (a == prev l) then link_to new 0 else s.link a l)
  pub new_header : headers new ≡ h * one_ref + h
  pub old_header : (a : Ptr) → a ≢ new → headers a ≡ s.header a

module _ {V : Type 0} (new : Ptr) (prev : Prevs) (h : ℕ) (short : h ≤ max_levels) where
  abbrev pub joined : SkipList V → ℕ → SkipList V
  joined s i = record s {
    link =
        update_link (update_link s.link new i (link_to (s.link (prev i) i).ptr 0)) (prev i) i
          (link_to new 0);
    header = update s.header new ((i + 1) * one_ref + h);
  }

  -- One round, at a level of both nodes.
  pub link_round :
      (n i m : ℕ) (s : SkipList V)
      → At s new h
      → s.header new ≡ i * one_ref + h
      → i < h
      → At s (prev i) m
      → i < m
      → link_loop new prev (suc n) i s ≡ link_loop new prev n (i + 1) (joined s i)
  unfolding link_loop
  link_round n i m s at header lt at_prev tall =
      let next : Ptr = (s.link (prev i) i).ptr in
      let first : Ptr → ℕ → Link = update_link s.link new i (link_to next 0) in
      rw (
        load_ptr-link at_prev tall,
        store_ptr-ok at next lt,
        store_ptr-ok (At-links at_prev first) new tall,
        add_ref-ok i h (At-links at (update_link first (prev i) i (link_to new 0))) header
            (omega arith) short,
      )

  pub joined-At : (s : SkipList V) (i p m : ℕ) → p ≢ new → At s p m → At (joined s i) p m
  joined-At s i p m ne at = record {
    ne_null = at.ne_null;
    live = at.live;
    header = rw (ne→not_eq ne) at.header;
  }

  pub joined-At-new : (s : SkipList V) (i : ℕ) → At s new h → At (joined s i) new h
  joined-At-new s i at = record {
    ne_null = at.ne_null;
    live = at.live;
    header = rw (eq_self new, height-refs (i + 1) h short);
  }

  module _ (apart : (l : ℕ) → l < h → prev l ≢ new) where
    LinkedFrom-round :
        (i : ℕ) (s : SkipList V) {run : Run (SkipList V) (Unit {0})}
        → i < h
        → LinkedFrom (joined s i) new prev (i + 1) h run
        → LinkedFrom s new prev i h run
    LinkedFrom-round i s lt r = record {
      links = r.links;
      headers = r.headers;
      returns = r.returns;
      new_links = λ l. ground (arith, r.new_links l, apart l, apart i);
      old_links = λ a l ne. ground (arith, r.old_links a l ne);
      new_header = r.new_header;
      old_header = λ a ne. ground (arith, r.old_header a ne);
    }

    pub link_loop-LinkedFrom :
        (n i : ℕ) (s : SkipList V)
        → i + n ≡ h
        → At s new h
        → s.header new ≡ i * one_ref + h
        → ((l : ℕ) → i ≤ l → l < h → (m : ℕ) × At s (prev l) m × (l < m))
        → LinkedFrom s new prev i h (link_loop new prev n i s)
    link_loop-LinkedFrom zero i s e at header tall = record {
      links = s.link;
      headers = s.header;
      returns = unfold link_loop in refl;
      new_links = λ l. ground arith;
      old_links = λ a l ne. ground arith;
      new_header = ground arith;
      old_header = λ a ne. refl;
    }
    link_loop-LinkedFrom (suc n) i s e at header tall =
        let lt : i < h = omega arith in
        let (m, at_prev, room) = tall i (omega arith) lt in
        let rest =
          link_loop-LinkedFrom n (i + 1) (joined s i) (omega arith) (joined-At-new s i at)
            (ground arith)
            (λ l ge below.
              let (m', at_l, room') = tall l (omega arith) below in
              (m', joined-At s i (prev l) m' (apart l below) at_l, room')) in
        rw (link_round n i m s at header lt at_prev room) (LinkedFrom-round i s lt rest)
