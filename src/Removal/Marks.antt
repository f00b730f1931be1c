-- ===== src/Removal/Marks.antt =====
-- What marking a node as removed does to the memory.
use skippy_rs.Base.{
  ℕ, zero, suc, ◌+◌, ◌-◌, ◌%◌, ◌^◌, ◌≡◌, refl, ◌<◌, ◌≤◌, arith, true, false, ◌&&◌, some, ok, ◌==◌,
  if◌then◌else◌, ltb, lt→ltb, eq_self, ◌>>=◌, pure,
}
use skippy_rs.Node.{Result, usize, right, wrong, set_removed}
use skippy_rs.Node.Header.{word, set_removed_lem, fields}
use skippy_rs.Store.{Ptr, Link, link_to, SkipList, Op, update, update_link, store_link, on_header}
use skippy_rs.Store.Access.{At, At-links, load_link-ok, load_height-ok, deref-ok}
use skippy_rs.Removal.{exchange_tag, tag_down, tag_levels, try_remove_and_tag, entry_remove}

-- The levels of `p` below `n` carry the tag.
abbrev pub tagged : (Ptr → ℕ → Link) → Ptr → ℕ → ℕ → Ptr → ℕ → Link
tagged link p n tag a m = if (a == p) && ltb m n then link_to (link a m).ptr tag else link a m

module _ {V : Type 0} where
  pub store_link-ok :
      {s : SkipList V} {p n : ℕ} (l : ℕ) (k : Link)
      → At s p n
      → l < n
      → store_link p l k s ≡ ok tt (record s { link = update_link s.link p l k })
  unfolding store_link
  store_link-ok l k at lt = rw (load_height-ok at, lt→ltb lt)

  tag_down-tagged :
      (p tag l : ℕ) (s : SkipList V) {n : ℕ}
      → At s p n
      → l ≤ n
      → ((m : ℕ) → m < l → (s.link p m).tag ≡ 0)
      → (f : Ptr → ℕ → Link) × (tag_down p tag l s ≡ ok (right tt) (record s { link = f }))
        × ((a : Ptr) (m : ℕ) → f a m ≡ tagged s.link p l tag a m)
  unfolding tag_down exchange_tag
  tag_down-tagged p tag zero s at le clear = (s.link, refl, λ a m. ground arith)
  tag_down-tagged p tag (suc l) s at le clear =
      let here : (s.link p l).tag ≡ 0 = clear l (omega arith) in
      let k : Link = link_to (s.link p l).ptr tag in
      let t : SkipList V = record s { link = update_link s.link p l k } in
      let (f, run, marks) =
        tag_down-tagged p tag l t (At-links at (update_link s.link p l k)) (omega arith)
          (λ m lt. ground (arith, clear m (omega arith))) in
      (
        f,
        rw (load_link-ok at {l = l} (omega arith), here, store_link-ok l k at (omega arith)) run,
        λ a m. ground (arith, marks a m),
      )

  pub tag_levels-tagged :
      {p n : ℕ} {s : SkipList V} (tag : ℕ)
      → At s p n
      → 0 < n
      → n < 64
      → ((m : ℕ) → m < n → (s.link p m).tag ≡ 0)
      → (f : Ptr → ℕ → Link) × (tag_levels p tag s ≡ ok (right (n - 1)) (record s { link = f }))
        × ((a : Ptr) (m : ℕ) → f a m ≡ tagged s.link p n tag a m)
  unfolding tag_levels
  tag_levels-tagged {p} {n} {s} tag at pos low clear =
      let (f, run, marks) = tag_down-tagged p tag n s at (omega arith) clear in
      let top : (n + usize - 1) % usize ≡ n - 1 = omega arith in
      (f, rw (load_height-ok at, run, load_height-ok (At-links at f), top), marks)

abbrev pub remove_twice : {V : Type 0} → Ptr → Op V (Result Unit Unit × Result Unit Unit)
remove_twice p = do a ← try_remove_and_tag p; b ← try_remove_and_tag p; pure (a, b)

module _ {V : Type 0} {s : SkipList V} {p n : ℕ} (at : At s p n) (pos : 0 < n) (low : n < 64)
    (c : ℕ) (few : c < 2 ^ 57) (clear : (m : ℕ) → m < n → (s.link p m).tag ≡ 0) where
  -- The list after the flag is set and the levels are `f`.
  abbrev pub marked : (Ptr → ℕ → Link) → SkipList V
  marked f = record s { header = update s.header p (word true c n); link = f }

  pub flagged-At : (f : Ptr → ℕ → Link) → At (marked f) p n
  flagged-At f = record {
    ne_null = at.ne_null;
    live = at.live;
    header = rw (eq_self p) (fields true c n few low).0;
  }

  pub set_removed-flagged :
      s.header p ≡ word false c n
      → on_header p set_removed s ≡ ok (right (word false c n)) (marked s.link)
  unfolding on_header
  set_removed-flagged packed = rw (deref-ok at, packed, set_removed_lem false c n few low)

  set_removed-refused :
      (f : Ptr → ℕ → Link)
      → on_header p set_removed (marked f)
        ≡ ok (wrong tt) (record (marked f) { header = update (marked f).header p (word true c n) })
  unfolding on_header
  set_removed-refused f = rw (deref-ok (flagged-At f), eq_self p, set_removed_lem true c n few low)

  -- A node without a tag, whose header packs a count and no flag, with no other thread in between:
  -- `Entry::remove` sets the flag and tags every level, and returns the entry. It writes nothing else;
  -- the length of the list stays as it was.
  pub entry_remove-marked :
      s.header p ≡ word false c n
      → (f : Ptr → ℕ → Link) × (entry_remove p s ≡ ok (some p) (marked f))
        × ((a : Ptr) (m : ℕ) → f a m ≡ tagged s.link p n 1 a m)
  unfolding entry_remove
  entry_remove-marked packed =
      let (f, run, marks) =
        tag_levels-tagged {s = marked s.link} 1 (flagged-At s.link) pos low clear in
      (f, rw (set_removed-flagged packed, run), marks)

  -- A node without a tag, whose header packs a count and no flag, with no other thread in between: of two
  -- calls of `try_remove_and_tag` the first succeeds and tags every level, and the second is refused.
  pub try_remove_and_tag-once :
      s.header p ≡ word false c n
      → (s' : SkipList V) × (remove_twice p s ≡ ok (right tt, wrong tt) s')
        × ((a : Ptr) (m : ℕ) → s'.link a m ≡ tagged s.link p n 1 a m)
  unfolding try_remove_and_tag
  try_remove_and_tag-once packed =
      let (f, run, marks) =
        tag_levels-tagged {s = marked s.link} 1 (flagged-At s.link) pos low clear in
      let twice : SkipList V = record (marked f) {
        header = update (marked f).header p (word true c n);
      } in
      (twice, rw (set_removed-flagged packed, run, set_removed-refused f), marks)
