-- ===== src/SkipList/Unlink.antt =====
-- The loop of `unlink` in src/internal/skiplist.rs: what it leaves at each address and level.
use skippy_rs.Base.{
  ℕ, zero, suc, ◌+◌, ◌≡◌, refl, ◌∙◌, ◌≢◌, ◌<◌, ◌≤◌, arith, ok, ltb, leb, ◌==◌, ◌&&◌, if◌then◌else◌,
  Run,
}
use skippy_rs.Store.{Ptr, Link, SkipList, link_to, update_link}
use skippy_rs.Store.Access.{At, At-links, load_ptr-link, store_ptr-ok}
use skippy_rs.SkipList.{Prevs, unlink_loop}

-- The levels from `i` below `h` of `node` are bridged.
pub record Bridged {V : Type 0} (s : SkipList V) (node : Ptr) (prev : Prevs) (i h : ℕ)
    (run : Run (SkipList V) (Unit {0})) : Type 0 where
  pub links : Ptr → ℕ → Link
  pub returns : run ≡ ok tt (record s { link = links })
  pub bridged :
      (a : Ptr) (l : ℕ)
      → links a l ≡ (
          if (leb i l && ltb l h) && (a == prev l)
          then link_to (s.link node l).ptr 0
          else s.link a l)

module _ {V : Type 0} (node : Ptr) (prev : Prevs) (h : ℕ) where
  abbrev skipped : SkipList V → ℕ → SkipList V
  skipped s i = record s { link = update_link s.link (prev i) i (link_to (s.link node i).ptr 0) }

  unlink_round :
      (n i m : ℕ) (s : SkipList V)
      → At s node h
      → i < h
      → At s (prev i) m
      → i < m
      → unlink_loop node prev (suc n) i s ≡ unlink_loop node prev n (i + 1) (skipped s i)
  unfolding unlink_loop
  unlink_round n i m s at lt at_prev room =
      rw (load_ptr-link at lt, store_ptr-ok at_prev (s.link node i).ptr room)

  pub unlink_loop-Bridged :
      ((l : ℕ) → l < h → prev l ≢ node)
      → (n i : ℕ) (s : SkipList V) → i + n ≡ h
      → At s node h
      → ((l : ℕ) → i ≤ l → l < h → (m : ℕ) × At s (prev l) m × (l < m))
      → Bridged s node prev i h (unlink_loop node prev n i s)
  unlink_loop-Bridged apart zero i s e at tall = record {
    links = s.link;
    returns = unfold unlink_loop in refl;
    bridged = λ a l. ground arith;
  }
  unlink_loop-Bridged apart (suc n) i s e at tall =
      let lt : i < h = omega arith in
      let (m, at_prev, room) = tall i (omega arith) lt in
      let f : Ptr → ℕ → Link = (skipped s i).link in
      let rest =
        unlink_loop-Bridged apart n (i + 1) (skipped s i) (omega arith) (At-links at f)
          (λ l ge below.
            let (m', at_l, room') = tall l (omega arith) below in (m', At-links at_l f, room')) in
      record {
        links = rest.links;
        returns = unlink_round n i m s at lt at_prev room ∙ rest.returns;
        bridged = λ a l. ground (arith, rest.bridged a l, apart l, apart i);
      }
