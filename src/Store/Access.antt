-- ===== src/Store/Access.antt =====
-- What each access does at a node that is allocated and tall enough.
use skippy_rs.Base.{
  ℕ, ◌+◌, ◌*◌, ◌≡◌, ◌≢◌, ◌≤◌, ◌<◌, true, false, some, arith, lt→ltb, ne→not_eq, ok,
}
use skippy_rs.Node.{max_levels, one_ref, height, add_ref}
use skippy_rs.Node.Header.{height-mod}
use skippy_rs.Store.{
  Ptr, null, Link, link_to, SkipList, update, update_link, deref, load_key, load_val, store_val,
  load_height, load_link, load_ptr, load_tag, store_ptr, dealloc, on_header,
}

-- A node of `n` levels is allocated at `p`.
pub record At {V : Type 0} (s : SkipList V) (p n : ℕ) : Type 0 where
  pub ne_null : p ≢ null
  pub live : s.live p ≡ true
  pub header : height (s.header p) ≡ n

pub height-refs : (r n : ℕ) → n ≤ max_levels → height (r * one_ref + n) ≡ n
height-refs r n h = rw height-mod (omega arith)

pub height-small : (n : ℕ) → n ≤ max_levels → height n ≡ n
height-small n h = rw height-mod (omega arith)

module _ {V : Type 0} {s : SkipList V} {p n : ℕ} (at : At s p n) where
  pub deref-ok : deref p s ≡ ok tt s
  unfolding deref
  deref-ok = rw (ne→not_eq at.ne_null, at.live)

  pub load_height-ok : load_height p s ≡ ok n s
  unfolding load_height
  load_height-ok = rw (deref-ok, at.header)

  pub load_link-ok : {l : ℕ} → l < n → load_link p l s ≡ ok (s.link p l) s
  unfolding load_link
  load_link-ok h = rw (load_height-ok, lt→ltb h)

  pub load_ptr-ok :
      {l : ℕ} {q : Ptr} {t : ℕ} → l < n → s.link p l ≡ link_to q t → load_ptr p l s ≡ ok q s
  unfolding load_ptr
  load_ptr-ok h e = rw (load_link-ok h, e)

  pub load_ptr-link : {l : ℕ} → l < n → load_ptr p l s ≡ ok (s.link p l).ptr s
  unfolding load_ptr
  load_ptr-link h = rw (load_link-ok h)

  -- A write to a link moves no node.
  pub At-links : (f : Ptr → ℕ → Link) → At (record s { link = f }) p n
  At-links f = record { ne_null = at.ne_null; live = at.live; header = at.header }

  pub load_tag-ok :
      {l : ℕ} {q : Ptr} {t : ℕ} → l < n → s.link p l ≡ link_to q t → load_tag p l s ≡ ok t s
  unfolding load_tag
  load_tag-ok h e = rw (load_link-ok h, e)

  pub store_ptr-ok :
      {l : ℕ} (q : Ptr)
      → l < n
      → store_ptr p l q s ≡ ok tt (record s { link = update_link s.link p l (link_to q 0) })
  unfolding store_ptr
  store_ptr-ok q h = rw (load_height-ok, lt→ltb h)

  pub load_key-ok : {k : ℕ} → s.key p ≡ some k → load_key p s ≡ ok k s
  unfolding load_key
  load_key-ok e = rw (deref-ok, e)

  pub load_val-ok : {v : V} → s.val p ≡ some v → load_val p s ≡ ok v s
  unfolding load_val
  load_val-ok e = rw (deref-ok, e)

  pub store_val-ok : (v : V) → store_val p v s ≡ ok tt (record s { val = update s.val p (some v) })
  unfolding store_val
  store_val-ok v = rw deref-ok

  pub dealloc-ok :
      0 < n → n ≤ max_levels → dealloc p s ≡ ok tt (record s { live = update s.live p false })
  unfolding dealloc
  dealloc-ok tall short = rw load_height-ok (ground arith)

-- `add_ref` on a node whose header counts few references.
pub add_ref-ok :
    {V : Type 0} {s : SkipList V} {p n : ℕ} (r m : ℕ)
    → At s p n
    → s.header p ≡ r * one_ref + m
    → r < max_levels
    → m ≤ max_levels
    → on_header p add_ref s
      ≡ ok (r * one_ref + m) (record s { header = update s.header p ((r + 1) * one_ref + m) })
unfolding on_header add_ref
add_ref-ok r m at e few short = rw (deref-ok at, e) (ground arith)
