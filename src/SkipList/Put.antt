-- ===== src/SkipList/Put.antt =====
-- `insert` and `insert_conditionally` of src/internal/skiplist.rs against the ordered map.
use skippy_rs.Base.{
  ℕ, ◌+◌, ◌%◌, ◌≡◌, refl, ◌≢◌, ◌<◌, ◌≤◌, arith, List, [], ◌∷◌, none, some, true, false, ok, length,
  Option-cases, inl, inr,
}
use skippy_rs.Node.{max_levels, usize}
use skippy_rs.Store.{Ptr, null, SkipList, update}
use skippy_rs.Store.Access.{load_val-ok, store_val-ok}
use skippy_rs.Basics.Height.{grown, gen_height-Drawn}
use skippy_rs.Cells.{Cell, pred_at, target_at, IsList}
use skippy_rs.Cells.Frame.{Same, Nodes-Same, All-mono}
use skippy_rs.Cells.Insert.{insert_cell, length-insert, Linked-len}
use skippy_rs.Cells.Entries.{
  entries-insert, entries-set, lookup-none, lookup-some, set_val, length-set, All-set, Nodes-set,
  next_at-set,
}
use skippy_rs.Spec.{entries, lookup, put, put_absent, kept}
use skippy_rs.SkipList.{
  Prevs, insert_new, insert_found, insert_at, internal_insert, insert, insert_conditionally,
}
use skippy_rs.SkipList.Find.{IsNode-At, head-At, find-IsFound}
use skippy_rs.SkipList.Insert.{new_node-ok, link_nodes-Linked, Linked-IsList, prev-old}

-- Drawing a height keeps the list, and makes room for the height.
pub grown-IsList :
    {V : Type 0} {s : SkipList V} {xs : List (Cell V)} (h : ℕ)
    → h ≤ max_levels
    → IsList s xs
    → IsList (grown s h) xs
grown-IsList {s = s} {xs} h le is = record {
  head_ne_null = is.head_ne_null;
  head_live = is.head_live;
  head_header = is.head_header;
  head_apart = is.head_apart;
  head_tower = is.head_tower;
  nodes = Nodes-Same s (grown s h) xs (unchanged xs) is.nodes;
  counted = is.counted;
  low = All-mono (λ c low. ground arith) xs is.low;
  some_level = ground (arith, is.some_level);
  few_levels = ground (arith, is.few_levels);
}
  where
    unchanged : (ys : List (Cell _)) → Same s (grown s h) ys
    unchanged [] = tt
    unchanged (c ∷ ys) = (
      record { live = refl; key = refl; val = refl; header = refl; link = λ l lt. refl },
      unchanged ys,
    )

-- Changing the length counter only.
abbrev counted_up : {V : Type 0} → SkipList V → SkipList V
counted_up s = record s { len = (s.len + 1) % usize }

module _ {V : Type 0} {s : SkipList V} {xs : List (Cell V)} (is : IsList s xs) (fresh k : ℕ) (v : V)
    (ne : fresh ≢ null) (dead : s.live fresh ≡ false) (room : length xs + 1 < usize) (prev : Prevs)
    (found : (l : ℕ) → l < max_levels → prev l ≡ pred_at l k s.head xs)
    (absent : target_at k xs ≡ none) where
  pub insert_new-IsList :
      (h : ℕ) × (s' : SkipList V) × (insert_new fresh k v prev s ≡ ok none s')
      × IsList s' (insert_cell (record { addr = fresh; height = h; key = k; val = v }) xs)
  unfolding insert_new
  insert_new-IsList =
      let (h, drawn, d) = gen_height-Drawn (head-At is) in
      let short : h ≤ max_levels = omega (arith, d.le) in
      let c : Cell V = record { addr = fresh; height = h; key = k; val = v } in
      let is' = grown-IsList h short is in
      let (s', run, linked, len, max, head, retired) =
        link_nodes-Linked c prev (λ l lt. prev-old is' c prev found absent dead l (omega arith)) ne
          dead d.pos short in
      (
        h,
        counted_up s',
        rw (drawn, new_node-ok (grown s h) c ne d.pos short, run),
        Linked-IsList is' c prev found absent dead (Linked-len ((s'.len + 1) % usize) linked) head
            (ground (arith, len, is.counted, length-insert c xs)) max (ground arith),
      )

  -- The key is new: the node goes in, and nothing is returned.
  put_new :
      (s' : SkipList V) × (ys : List (Cell V)) × (insert_new fresh k v prev s ≡ ok none s')
      × IsList s' ys
      × (entries ys ≡ put k v (entries xs))
  put_new =
      let (h, s', run, is') = insert_new-IsList in
      let c : Cell V = record { addr = fresh; height = h; key = k; val = v } in
      (s', insert_cell c xs, run, is', entries-insert c xs absent)

module _ {V : Type 0} {s : SkipList V} {xs : List (Cell V)} (is : IsList s xs) (k : ℕ) (v : V)
    {a : Ptr} (present : target_at k xs ≡ some a) where
  set_val-IsList : IsList (record s { val = update s.val a (some v) }) (set_val k v xs)
  set_val-IsList = record {
    head_ne_null = is.head_ne_null;
    head_live = is.head_live;
    head_header = is.head_header;
    head_apart = All-set (λ p h j. s.head ≢ p) k v xs is.head_apart;
    head_tower = λ l lt. rw (next_at-set k l v xs) (is.head_tower l lt);
    nodes = Nodes-set s k v xs is.nodes present;
    counted = rw (length-set k v xs) is.counted;
    low = All-set (λ p h j. h ≤ s.max_height) k v xs is.low;
    some_level = is.some_level;
    few_levels = is.few_levels;
  }

  -- The key is there: with `replace` its value is swapped, else the new value comes back.
  put_found :
      (s' : SkipList V) × (insert_found a v true s ≡ ok (lookup k (entries xs)) s')
      × IsList s' (set_val k v xs)
      × (insert_found a v false s ≡ ok (some v) s)
  unfolding insert_found
  put_found =
      let (c, here, same, node, got) = lookup-some s k xs is.nodes present in
      (
        record s { val = update s.val a (some v) },
        rw (← here, load_val-ok (IsNode-At node) node.val, store_val-ok (IsNode-At node) v, got),
        set_val-IsList,
        refl,
      )

module _ {V : Type 0} {s : SkipList V} {xs : List (Cell V)} (is : IsList s xs) (fresh k : ℕ) (v : V)
    (ne : fresh ≢ null) (dead : s.live fresh ≡ false) (room : length xs + 1 < usize) where
  -- On a well-formed list, given a free address, with room in the length: `insert` ends, puts the
  -- value under the key, returns the value that was there, and leaves a well-formed list.
  pub insert-put :
      (s' : SkipList V) × (ys : List (Cell V)) × (insert fresh k v s
        ≡ ok (lookup k (entries xs)) s')
      × IsList s' ys
      × (entries ys ≡ put k v (entries xs))
  unfolding insert internal_insert insert_at
  insert-put =
      let (r, run, found) = find-IsFound k is in
      elim (Option-cases (target_at k xs)) [
        | inl absent ↦
            let (s', ys, new, is', same) =
              put_new is fresh k v ne dead room r.prev found.prevs absent in
            (
              s',
              ys,
              rw (run, found.target, absent, lookup-none s k xs is.nodes absent) new,
              is',
              same,
            )
        | inr (a, present) ↦
            let (s', old, is', keep) = put_found is k v present in
            (
              s',
              set_val k v xs,
              rw (run, found.target, present) old,
              is',
              entries-set k v xs present,
            )
      ]

  -- On a well-formed list, given a free address, with room in the length: `insert_conditionally` ends.
  -- It keeps a value that is there and returns the one that it was given, and puts the value under a
  -- key that is absent.
  pub insert_conditionally-put :
      (s' : SkipList V) × (ys : List (Cell V)) × (insert_conditionally fresh k v s
        ≡ ok (kept v (lookup k (entries xs))) s')
      × IsList s' ys
      × (entries ys ≡ put_absent k v (entries xs))
  unfolding insert_conditionally internal_insert insert_at put_absent
  insert_conditionally-put =
      let (r, run, found) = find-IsFound k is in
      elim (Option-cases (target_at k xs)) [
        | inl absent ↦
            let (s', ys, new, is', same) =
              put_new is fresh k v ne dead room r.prev found.prevs absent in
            let gone = lookup-none s k xs is.nodes absent in
            (s', ys, rw (run, found.target, absent, gone) new, is', rw (gone, put_absent) same)
        | inr (a, present) ↦
            let (s', old, is', keep) = put_found is k v present in
            let (c, here, same, node, got) = lookup-some s k xs is.nodes present in
            (s, xs, rw (run, found.target, present, got) keep, is, rw (got, put_absent))
      ]
