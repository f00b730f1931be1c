-- ===== src/Sync/Order.antt =====
-- The walks of the list of src/internal/sync/mod.rs, and `Iter` of src/internal/sync/iter.rs, by the
-- entries.
use skippy_rs.Base.{
  ℕ, zero, suc, ◌+◌, ◌≡◌, refl, ◌<◌, arith, List, [], ◌∷◌, Option, none, some, ok, out_of_fuel,
  length, ltb, Bool-cases, inl, inr, ne→not_eq, lt→ltb, ◌>>=◌, pure,
}
use skippy_rs.Store.{Ptr, SkipList, Op, link_to}
use skippy_rs.Store.Access.{At, load_tag-ok, load_key-ok, load_val-ok}
use skippy_rs.Cells.{Cell, next_at, Tower, IsNode, Nodes, IsList}
use skippy_rs.Spec.{entries}
use skippy_rs.SkipList.Find.{IsNode-At, head-At}
use skippy_rs.SkipList.Delete.{is_empty-ok}
use skippy_rs.SkipList.Walk.Order.{first_addr, show_entry}
use skippy_rs.SkipList.Walk.Results.{all_some, no_first}
use skippy_rs.Sync.Search.{from_maybe_tagged-ok}
use skippy_rs.Sync.Walk.{skip_removed, next_node, get_first, iter, iter_next}

-- A `for` loop over `iter`, on fuel: the entries that it yields.
unfoldable pub iterate_alone : {V : Type 0} → ℕ → Option Ptr → Op V (List (Option (ℕ × V)))
iterate_alone zero it = λ _. out_of_fuel
iterate_alone (suc f) it = do
  (item, it') ← iter_next it
  elim item [
    | none ↦ pure []
    | some p ↦ (do e ← show_entry (some p); es ← iterate_alone f it'; pure (e ∷ es))
  ]

module _ {V : Type 0} {s : SkipList V} where
  pub skip_alone-node :
      (f : ℕ) (p : Ptr) {c : Cell V} (xs : List (Cell V))
      → IsNode s c
      → Tower s c.addr c.height xs
      → skip_removed (suc f) p c.addr s ≡ ok (some c.addr) s
  unfolding skip_removed
  skip_alone-node f p xs n t = rw (load_tag-ok (IsNode-At n) n.tall (t 0 n.tall))

  -- From a node, `next_node` goes to the node behind it.
  pub next_alone-first :
      {p n : ℕ} (xs : List (Cell V))
      → At s p n
      → 0 < n
      → s.link p 0 ≡ link_to (next_at 0 xs) 0
      → Nodes s xs
      → next_node p s ≡ ok (first_addr xs) s
  unfolding next_node
  next_alone-first {p} [] at pos e n = rw (load_tag-ok at pos e, from_maybe_tagged-ok at pos e)
  next_alone-first {p} (c ∷ xs) at pos e n =
      let link : s.link p 0 ≡ link_to c.addr 0 = rw (lt→ltb n.0.tall) at e in
      let fuel : s.len + 1 ≡ suc s.len = omega arith in
      rw (
        load_tag-ok at pos link,
        from_maybe_tagged-ok at pos link,
        ne→not_eq n.0.ne_null,
        fuel,
        skip_alone-node s.len p xs n.0 n.1,
      )

  pub get_first_alone-addr : {xs : List (Cell V)} → IsList s xs → get_first s ≡ ok (first_addr xs) s
  unfolding get_first
  get_first_alone-addr {xs} is = elim (Bool-cases (ltb (length xs) 1)) [
    | inl e ↦ rw (is_empty-ok is, e, no_first xs (ground arith))
    | inr e ↦
        rw (is_empty-ok is, e)
          (next_alone-first xs (head-At is) (omega arith) (is.head_tower 0 (omega arith)) is.nodes)
  ]

  iterate_alone-entries :
      (f : ℕ) (xs : List (Cell V))
      → Nodes s xs
      → length xs < f
      → iterate_alone f (first_addr xs) s ≡ ok (all_some (entries xs)) s
  unfolding iterate_alone iter_next
  iterate_alone-entries zero xs n fuel = absurd (omega arith)
  iterate_alone-entries (suc f) [] n fuel = refl
  iterate_alone-entries (suc f) (c ∷ xs) n fuel =
      let node = IsNode-At n.0 in
      rw (
        next_alone-first xs node n.0.tall (n.1 0 n.0.tall) n.4,
        load_key-ok node n.0.key,
        load_val-ok node n.0.val,
        iterate_alone-entries f xs n.4 (omega arith),
      )

  -- On a well-formed list, with no other thread in between, a `for` over `iter` ends. It yields every
  -- entry once and in the order of the keys, and changes nothing.
  pub iter_alone-entries :
      {xs : List (Cell V)}
      → IsList s xs
      → (do it ← iter; iterate_alone (s.len + 1) it) s ≡ ok (all_some (entries xs)) s
  unfolding iter
  iter_alone-entries {xs} is =
      rw (get_first_alone-addr is)
        (iterate_alone-entries (s.len + 1) xs is.nodes (omega (arith, is.counted)))
