-- ===== src/SkipList/Reclaim.antt =====
-- `unlink_level` of src/internal/skiplist.rs: what it does to a removed node.
use skippy_rs.Base.{ℕ, ◌-◌, ◌^◌, ◌≡◌, ◌≢◌, ◌<◌, arith, Bool, ok, ne→not_eq, ◌==◌, false}
use skippy_rs.Node.{sub_ref}
use skippy_rs.Node.Header.{word, sub_ref_lem}
use skippy_rs.Store.{SkipList, update, update_link, link_to, on_header}
use skippy_rs.Store.Access.{At, deref-ok, load_ptr-link, store_ptr-ok}
use skippy_rs.SkipList.{unlink_level}

module _ {V : Type 0} {s : SkipList V} {prev curr m h : ℕ} (at_prev : At s prev m)
    (at : At s curr h) (apart : prev ≢ curr) (r : Bool) (n l : ℕ)
    (packed : s.header curr ≡ word r n h) (some_ref : 0 < n) (few : n < 2 ^ 57) (low : h < 64)
    (reaches : l < h) (room : l < m) where
  sub_ref-word :
      on_header curr sub_ref s
      ≡ ok (word r n h) (record s { header = update s.header curr (word r (n - 1) h) })
  unfolding on_header
  sub_ref-word = rw (deref-ok at, packed, sub_ref_lem r n h few low some_ref)

  -- For two different allocated nodes that reach the level, of which the second has a packed header word with a
  -- count above 0: `unlink_level` takes one off its count and makes the first point at its successor.
  -- Nothing is released, not even when the last reference goes.
  pub unlink_level-kept :
      unlink_level prev curr l s
      ≡ ok (s.link curr l).ptr (record s {
        header = update s.header curr (word r (n - 1) h);
        link = update_link s.link prev l (link_to (s.link curr l).ptr 0);
      })
  unfolding unlink_level
  unlink_level-kept =
      let t : SkipList V = record s { header = update s.header curr (word r (n - 1) h) } in
      let at_prev' : At t prev m = record {
        ne_null = at_prev.ne_null;
        live = at_prev.live;
        header = rw (ne→not_eq apart) at_prev.header;
      } in
      let filled : (word r n h == 0) ≡ false = ground arith in
      rw (
        load_ptr-link at reaches,
        sub_ref-word,
        filled,
        store_ptr-ok at_prev' (s.link curr l).ptr room,
      )
