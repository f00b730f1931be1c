-- ===== src/SkipList/Walk/Order.antt =====
-- The loops of src/internal/skiplist.rs that walk the lowest level, by the entries.
use skippy_rs.Base.{
  ℕ, zero, suc, ◌+◌, ◌≡◌, refl, ◌<◌, arith, List, [], ◌∷◌, Option, none, some, false, ok, length,
  Option-cases, inl, inr, ne→not_eq, lt→ltb, ◌>>=◌, pure,
}
use skippy_rs.Node.{removed}
use skippy_rs.Node.Header.{removed-leb}
use skippy_rs.Store.{Ptr, null, SkipList, Op, link_to, load_val, load_key}
use skippy_rs.Store.Access.{At, load_ptr-ok, load_tag-ok, load_key-ok, load_val-ok, deref-ok}
use skippy_rs.Cells.{Cell, next_at, target_at, Tower, IsNode, Nodes}
use skippy_rs.Cells.Entries.{lookup-none, lookup-some}
use skippy_rs.Spec.{Entries, entries, lookup}
use skippy_rs.SkipList.Find.{IsNode-At}
use skippy_rs.SkipList.Walk.{skip_removed, next_node, last_loop, traverse_loop}

module _ {V : Type 0} where
  abbrev pub first_addr : List (Cell V) → Option Ptr
  first_addr [] = none
  first_addr (c ∷ xs) = some c.addr

  -- The value that an optional entry shows.
  abbrev pub show_val : Option Ptr → Op V (Option V)
  show_val none = pure none
  show_val (some p) = do v ← load_val p; pure (some v)

  abbrev pub show_entry : Option Ptr → Op V (Option (ℕ × V))
  show_entry none = pure none
  show_entry (some p) = do k ← load_key p; v ← load_val p; pure (some (k, v))

  abbrev pub head? : Entries V → Option (ℕ × V)
  head? [] = none
  head? (e ∷ es) = some e

  abbrev pub last? : Entries V → Option (ℕ × V)
  last? [] = none
  last? (e ∷ []) = some e
  last? (e ∷ d ∷ es) = last? (d ∷ es)

  abbrev pub fold : {A : Type 0} → (ℕ → V → A → A) → A → Entries V → A
  fold f acc [] = acc
  fold f acc ((k, v) ∷ es) = fold f (f k v acc) es

module _ {V : Type 0} {s : SkipList V} where
  skip-null : (f : ℕ) (p : Ptr) → 0 < f → skip_removed f p null s ≡ ok null s
  unfolding skip_removed
  skip-null zero p pos = absurd (omega arith)
  skip-null (suc f) p pos = refl

  skip-node :
      (f : ℕ) (p : Ptr) {c : Cell V} (xs : List (Cell V))
      → 0 < f
      → IsNode s c
      → Tower s c.addr c.height xs
      → skip_removed f p c.addr s ≡ ok c.addr s
  unfolding skip_removed
  skip-node zero p xs pos n t = absurd (omega arith)
  skip-node (suc f) p xs pos n t =
      rw (ne→not_eq n.ne_null, load_tag-ok (IsNode-At n) n.tall (t 0 n.tall))

  -- From a node, `next_node` goes to the node behind it.
  pub next_node-first :
      {p n : ℕ} (xs : List (Cell V))
      → At s p n
      → 0 < n
      → Tower s p n xs
      → Nodes s xs
      → next_node p s ≡ ok (first_addr xs) s
  unfolding next_node
  next_node-first {p} [] at pos t n = rw (
    load_tag-ok at pos (t 0 pos),
    load_ptr-ok at pos (t 0 pos),
    skip-null (s.len + 1) p (omega arith),
  )
  next_node-first {p} (c ∷ xs) at pos t n =
      let link : s.link p 0 ≡ link_to c.addr 0 = rw (lt→ltb n.0.tall) at (t 0 pos) in
      rw (
        load_tag-ok at pos link,
        load_ptr-ok at pos link,
        skip-node (s.len + 1) p xs (omega arith) n.0 n.1,
        ne→not_eq n.0.ne_null,
      )

  pub show_val-lookup :
      (k : ℕ) (xs : List (Cell V))
      → Nodes s xs
      → show_val (target_at k xs) s ≡ ok (lookup k (entries xs)) s
  show_val-lookup k xs n = elim (Option-cases (target_at k xs)) [
    | inl absent ↦ rw (absent, lookup-none s k xs n absent)
    | inr (a, present) ↦
        let (c, here, same, node, got) = lookup-some s k xs n present in
        rw (present, ← here, load_val-ok (IsNode-At node) node.val, got)
  ]

  pub show_entry-cell :
      {c : Cell V} → IsNode s c → show_entry (some c.addr) s ≡ ok (some (c.key, c.val)) s
  show_entry-cell node =
      rw (load_key-ok (IsNode-At node) node.key, load_val-ok (IsNode-At node) node.val)

  -- `get_last` stops at the last node.
  pub last_loop-last :
      (f : ℕ) (c : Cell V) (xs : List (Cell V))
      → Nodes s (c ∷ xs)
      → length xs < f
      → (d : Cell V) × (last_loop f c.addr s ≡ ok d.addr s)
        × IsNode s d
        × (last? (entries (c ∷ xs)) ≡ some (d.key, d.val))
  unfolding last_loop
  last_loop-last zero c xs n fuel = absurd (omega arith)
  last_loop-last (suc f) c [] n fuel =
      (c, rw (next_node-first [] (IsNode-At n.0) n.0.tall n.1 n.4), n.0, refl)
  last_loop-last (suc f) c (d ∷ xs) n fuel =
      let (e, run, node, last) = last_loop-last f d xs n.4 (omega arith) in
      (e, rw (next_node-first (d ∷ xs) (IsNode-At n.0) n.0.tall n.1 n.4) run, node, last)

  pub traverse_loop-fold :
      {A : Type 0} (f : ℕ → V → A → A) (n : ℕ) (p : Ptr) (xs : List (Cell V)) (acc : A)
      → p ≡ next_at 0 xs
      → Nodes s xs
      → length xs < n
      → traverse_loop f n p acc s ≡ ok (fold f acc (entries xs)) s
  unfolding traverse_loop
  traverse_loop-fold f zero p xs acc e nodes fuel = absurd (omega arith)
  traverse_loop-fold f (suc n) p [] acc e nodes fuel = rw e
  traverse_loop-fold f (suc n) p (c ∷ xs) acc e nodes fuel =
      let node = nodes.0 in
      let at = IsNode-At node in
      let here : p ≡ c.addr = ground (arith, node.tall) in
      let alive : removed (s.header c.addr) ≡ false =
        rw (removed-leb (s.header c.addr) (ground (arith, node.header, node.short)))
          (ground (arith, node.header, node.short)) in
      rw
        (
          here,
          ne→not_eq node.ne_null,
          deref-ok at,
          alive,
          load_key-ok at node.key,
          load_val-ok at node.val,
          load_ptr-ok at node.tall (nodes.1 0 node.tall),
        )
        (traverse_loop-fold f n (next_at 0 xs) xs (f c.key c.val acc) refl nodes.4 (omega arith))
