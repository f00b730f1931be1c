-- ===== src/Sync/Find.antt =====
-- `find` and `get` of src/internal/sync/mod.rs on a well-formed list: what they return.
use native.Mathlib.Decide.{dec_lt}
use skippy_rs.Base.{
  ℕ, ◌+◌, ◌-◌, ◌%◌, ◌≡◌, ◌∙◌, ◌<◌, refl, inl, inr, true, false, List, [], ◌∷◌, arith, ltb, lt→ltb,
  le→not_ltb, ne→not_eq, ok, fault, length, ◌>>=◌, Bool-cases, ap,
}
use skippy_rs.Node.{usize, right, max_levels, removed}
use skippy_rs.Node.Header.{removed-leb, height-mod}
use skippy_rs.Store.{Ptr, null, SkipList, link_to, load_ptr, load_link}
use skippy_rs.Store.Access.{At, load_key-ok, load_height-ok, deref-ok}
use skippy_rs.Cells.{Cell, next_at, pred_at, succ_at, target_at, IsNode, Nodes, IsList, Low}
use skippy_rs.Spec.{entries, lookup}
use skippy_rs.SkipList.Find.{IsNode-At, head-At, top_level-Top, pred_at-Low, Low-mono}
use skippy_rs.SkipList.Insert.{pred_at-At}
use skippy_rs.SkipList.Delete.{is_empty-ok}
use skippy_rs.SkipList.Walk.Results.{no_entries}
use skippy_rs.SkipList.Walk.Order.{show_val, show_val-lookup}
use skippy_rs.Sync.{
  Pairs, SearchResult, load_removed, from_maybe_tagged, match_live, finish, search_once, search,
  find, get,
}
use skippy_rs.Sync.Search.{from_maybe_tagged-ok, init_prev-filled, search_levels-Explored}

module _ {V : Type 0} where
  -- A node of a well-formed list is not removed.
  pub load_removed-live :
      {s : SkipList V} {c : Cell V} → IsNode s c → load_removed c.addr s ≡ ok false s
  unfolding load_removed
  load_removed-live {s} {c} node =
      let alive : removed (s.header c.addr) ≡ false =
        rw (removed-leb (s.header c.addr) (ground (arith, node.header, node.short)))
          (ground (arith, node.header, node.short)) in
      rw (deref-ok (IsNode-At node), alive)

  -- A predecessor of the key points at its successor.
  pub pred_at-succ_at :
      (s : SkipList V) (l k : ℕ) (p : Ptr) (xs : List (Cell V))
      → Nodes s xs
      → s.link p l ≡ link_to (next_at l xs) 0
      → s.link (pred_at l k p xs) l ≡ link_to (succ_at l k xs) 0
  pred_at-succ_at s l k p [] n e = e
  pred_at-succ_at s l k p (c ∷ xs) n e =
      ground (arith, n.1 l, pred_at-succ_at s l k p xs n.4, pred_at-succ_at s l k c.addr xs n.4)

  next_at-Low : (l : ℕ) (xs : List (Cell V)) → Low l xs → next_at l xs ≡ null
  next_at-Low l [] low = refl
  next_at-Low l (c ∷ xs) low = ground (arith, low.0, next_at-Low l xs low.1)

  succ_at-Low : (l k : ℕ) (xs : List (Cell V)) → Low l xs → succ_at l k xs ≡ null
  succ_at-Low l k [] low = refl
  succ_at-Low l k (c ∷ xs) low =
      ground (arith, low.0, next_at-Low l xs low.1, succ_at-Low l k xs low.1)

  match_live-target :
      (s : SkipList V) (k : ℕ) (xs : List (Cell V))
      → Nodes s xs
      → match_live k (succ_at 0 k xs) s ≡ ok (target_at k xs) s
  unfolding match_live
  match_live-target s k [] n = refl
  match_live-target s k (c ∷ xs) n = elim (dec_lt c.key k) [
    | yes lt ↦ rw (lt→ltb lt) (match_live-target s k xs n.4)
    | no ge ↦
        rw
          (
            le→not_ltb {a = c.key} {b = k} (omega arith),
            lt→ltb n.0.tall,
            ne→not_eq n.0.ne_null,
            load_key-ok (IsNode-At n.0) n.0.key,
            load_removed-live n.0,
          )
          (ground arith)
  ]

-- A level past every tower, which is what `level - 1` wraps to.
past_top :
    {V : Type 0} {s : SkipList V} {p n : ℕ}
    → At s p n
    → from_maybe_tagged p ((0 + usize - 1) % usize) s ≡ fault
unfolding from_maybe_tagged load_ptr load_link
past_top {s = s} {p} {n} at =
    let tall : n < 64 = omega (arith, at.header, height-mod (s.header p)) in
    let off : ltb ((0 + usize - 1) % usize) n ≡ false = ground arith in rw (load_height-ok at, off)

-- What `find` returns for the nodes `xs`.
pub record IsFound {V : Type 0} (s : SkipList V) (k : ℕ) (xs : List (Cell V)) (r : SearchResult)
    : Type 0 where
  pub prevs : (l : ℕ) → l < max_levels → r.prev l ≡ (pred_at l k s.head xs, succ_at l k xs)
  pub target : r.target ≡ target_at k xs

module _ {V : Type 0} {s : SkipList V} (k : ℕ) {xs : List (Cell V)} (is : IsList s xs) where
  lowest : (n : ℕ) × At s (pred_at 0 k s.head xs) n × (0 < n)
  lowest = pred_at-At s 0 k xs is.nodes (head-At is) (omega arith)

  finish-target :
      (skips : ℕ) (last : Ptr) (out : Pairs)
      → out 0 ≡ (pred_at 0 k s.head xs, succ_at 0 k xs)
      → finish k false skips (last, out) s
        ≡ ok (right (record { prev = out; target = target_at k xs })) s
  unfolding finish
  finish-target skips last out e =
      let (n, at, pos) = lowest in
      let link = pred_at-succ_at s 0 k s.head xs is.nodes (is.head_tower 0 (omega arith)) in
      rw (e, from_maybe_tagged-ok at pos link, match_live-target s k xs is.nodes)

  -- On a well-formed list, with no other thread in between, `find` ends and touches nothing. At
  -- each level of the head it returns the predecessor and the successor of the key, and the node with the key
  -- if there is one.
  pub find_alone-IsFound : (r : SearchResult) × (find k false s ≡ ok r s) × IsFound s k xs r
  unfolding find search search_once
  find_alone-IsFound =
      let (level, top) = top_level-Top k is s.max_height is.some_level is.few_levels is.low in
      let (start, init, old, heads) =
        init_prev-filled xs max_levels 0 (λ _. (null, null)) (head-At is) (omega arith)
          is.head_tower in
      let run =
        search_levels-Explored k (s.len + 1) (s.max_height + s.len + 1) level start xs (omega arith)
          (head-At is) is.head_tower is.nodes (omega (arith, top.le, is.few_levels))
          (omega (arith, top.le, is.counted)) in
      (
        record { prev = run.out; target = target_at k xs },
        rw (
          init,
          top.returns,
          run.returns,
          finish-target (s.len + 1) run.last run.out (run.filled 0 top.pos),
        ),
        record {
          prevs = λ l room. elim (dec_lt l level) [
            | yes lt ↦ run.filled l lt
            | no ge ↦
                let low : Low l xs = Low-mono k is level l xs (omega arith) top.low in
                rw (pred_at-Low k is l s.head xs low, succ_at-Low l k xs low)
                  (run.kept l (omega arith)
                    ∙ heads l (omega arith) (omega arith)
                    ∙ ap (λ q. (s.head, q)) (next_at-Low l xs low))
          ];
          target = refl;
        },
      )

  -- On a well-formed list, with no other thread in between, `find` with `search_closest` reads a level
  -- past the end of every tower, whatever the key.
  pub find_alone-fault : find k true s ≡ fault
  unfolding find search search_once finish
  find_alone-fault =
      let (level, top) = top_level-Top k is s.max_height is.some_level is.few_levels is.low in
      let (start, init, old, heads) =
        init_prev-filled xs max_levels 0 (λ _. (null, null)) (head-At is) (omega arith)
          is.head_tower in
      let run =
        search_levels-Explored k (s.len + 1) (s.max_height + s.len + 1) level start xs (omega arith)
          (head-At is) is.head_tower is.nodes (omega (arith, top.le, is.few_levels))
          (omega (arith, top.le, is.counted)) in
      rw (init, top.returns, run.returns, past_top run.last_at)

  -- On a well-formed list, with no other thread in between, `get` finds an entry exactly for a key of the
  -- map; the entry shows the value of the key. The list does not change.
  pub get_alone-lookup : (do e ← get k; show_val e) s ≡ ok (lookup k (entries xs)) s
  unfolding get lookup
  get_alone-lookup =
      let (r, run, found) = find_alone-IsFound in
      elim (Bool-cases (ltb (length xs) 1)) [
        | inl e ↦ rw (is_empty-ok is, e, no_entries xs (ground arith))
        | inr e ↦ rw (is_empty-ok is, e, run, found.target) (show_val-lookup k xs is.nodes)
      ]
