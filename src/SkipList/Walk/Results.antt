-- ===== src/SkipList/Walk/Results.antt =====
-- What the reading methods and the iterators of src/internal/skiplist.rs return, by the entries.
use skippy_rs.Base.{
  ℕ, zero, suc, ◌+◌, ◌≡◌, refl, ◌∙◌, ◌<◌, arith, List, [], ◌∷◌, Option, none, some, false,
  Bool-cases, ok, out_of_fuel, length, ltb, inl, inr, ◌>>=◌, pure, eq_self, lt→ltb, ap,
}
use skippy_rs.Node.{usize}
use skippy_rs.Store.{Ptr, SkipList, Op}
use skippy_rs.Store.Access.{load_ptr-ok, load_key-ok, load_val-ok}
use skippy_rs.Cells.{Cell, next_at, Nodes, IsList}
use skippy_rs.Spec.{Entries, entries, lookup, delete, with_key}
use skippy_rs.SkipList.{remove, remove_first}
use skippy_rs.SkipList.Find.{IsNode-At, head-At, find-IsFound}
use skippy_rs.SkipList.Delete.{is_empty-ok, remove-delete}
use skippy_rs.SkipList.Walk.{
  get, get_first, get_last, traverse_with, iter, iter_next, into_iter_next, last_from,
}
use skippy_rs.SkipList.Walk.Order.{
  first_addr, show_val, show_entry, head?, last?, fold, next_node-first, show_val-lookup,
  show_entry-cell, last_loop-last, traverse_loop-fold,
}

-- A `for` loop over `iter`, on fuel: the entries that it yields.
unfoldable pub iterate : {V : Type 0} → ℕ → Option Ptr → Op V (List (Option (ℕ × V)))
iterate zero it = λ _. out_of_fuel
iterate (suc f) it = do
  (item, it') ← iter_next it
  elim item [
    | none ↦ pure []
    | some p ↦ (do e ← show_entry (some p); es ← iterate f it'; pure (e ∷ es))
  ]

-- A `for` loop over `into_iter`, on fuel.
unfoldable pub drain : {V : Type 0} → ℕ → Op V (Entries V)
drain zero = λ _. out_of_fuel
drain (suc f) = do
  item ← into_iter_next
  elim item [ none ↦ pure [] | some e ↦ (do es ← drain f; pure (e ∷ es)) ]

abbrev pub all_some : {V : Type 0} → Entries V → List (Option (ℕ × V))
all_some [] = []
all_some (e ∷ es) = some e ∷ all_some es

abbrev pub tail : {V : Type 0} → Entries V → Entries V
tail [] = []
tail (e ∷ es) = es

pub no_entries : {V : Type 0} (xs : List (Cell V)) → length xs < 1 → entries xs ≡ []
no_entries [] h = refl
no_entries (c ∷ xs) h = absurd (omega arith)

pub no_first : {V : Type 0} (xs : List (Cell V)) → length xs < 1 → first_addr xs ≡ none
no_first [] h = refl
no_first (c ∷ xs) h = absurd (omega arith)

module _ {V : Type 0} {s : SkipList V} where
  pub get_first-addr : {xs : List (Cell V)} → IsList s xs → get_first s ≡ ok (first_addr xs) s
  unfolding get_first
  get_first-addr {xs} is = elim (Bool-cases (ltb (length xs) 1)) [
    | inl e ↦ rw (is_empty-ok is, e, no_first xs (ground arith))
    | inr e ↦
        rw (is_empty-ok is, e)
          (next_node-first xs (head-At is) (omega arith) is.head_tower is.nodes)
  ]

  show_entry-first :
      (xs : List (Cell V)) → Nodes s xs → show_entry (first_addr xs) s ≡ ok (head? (entries xs)) s
  show_entry-first [] n = refl
  show_entry-first (c ∷ xs) n = show_entry-cell n.0

  show_entry-last :
      (f : ℕ) (xs : List (Cell V))
      → Nodes s xs
      → length xs < suc f
      → (do e ← last_from f (first_addr xs); show_entry e) s ≡ ok (last? (entries xs)) s
  show_entry-last f [] n fuel = refl
  show_entry-last f (c ∷ xs) n fuel =
      let (d, run, node, last) = last_loop-last f c xs n (omega arith) in
      rw (run, last) (show_entry-cell node)

  iterate-entries :
      (f : ℕ) (xs : List (Cell V))
      → Nodes s xs
      → length xs < f
      → iterate f (first_addr xs) s ≡ ok (all_some (entries xs)) s
  unfolding iterate iter_next
  iterate-entries zero xs n fuel = absurd (omega arith)
  iterate-entries (suc f) [] n fuel = refl
  iterate-entries (suc f) (c ∷ xs) n fuel =
      let node = IsNode-At n.0 in
      rw (
        next_node-first xs node n.0.tall n.1 n.4,
        load_key-ok node n.0.key,
        load_val-ok node n.0.val,
        iterate-entries f xs n.4 (omega arith),
      )

module _ {V : Type 0} {s : SkipList V} {xs : List (Cell V)} (is : IsList s xs) where
  -- On a well-formed list `get` finds an entry exactly for a key of the map; the entry shows the value
  -- of the key. The list does not change.
  pub get-lookup : (k : ℕ) → (do e ← get k; show_val e) s ≡ ok (lookup k (entries xs)) s
  unfolding get lookup
  get-lookup k =
      let (r, run, found) = find-IsFound k is in
      elim (Bool-cases (ltb (length xs) 1)) [
        | inl e ↦ rw (is_empty-ok is, e, no_entries xs (ground arith))
        | inr e ↦ rw (is_empty-ok is, e, run, found.target) (show_val-lookup k xs is.nodes)
      ]

  -- On a well-formed list `get_first` gives the entry with the least key, if there is one, and changes
  -- nothing.
  pub get_first-head : (do e ← get_first; show_entry e) s ≡ ok (head? (entries xs)) s
  get_first-head = rw (get_first-addr is) (show_entry-first xs is.nodes)

  -- On a well-formed list `get_last` ends, gives the entry with the greatest key, if there is one, and
  -- changes nothing.
  pub get_last-last : (do e ← get_last; show_entry e) s ≡ ok (last? (entries xs)) s
  unfolding get_last
  get_last-last =
      rw (get_first-addr is) (show_entry-last (s.len + 1) xs is.nodes (omega (arith, is.counted)))

  -- On a well-formed list `traverse_with` ends and calls the closure on every entry, once and in order.
  pub traverse_with-fold :
      {A : Type 0} (f : ℕ → V → A → A) (acc : A)
      → traverse_with f acc s ≡ ok (fold f acc (entries xs)) s
  unfolding traverse_with
  traverse_with-fold f acc =
      rw (load_ptr-ok (head-At is) (omega arith) (is.head_tower 0 (omega arith))) (
        traverse_loop-fold f (s.len + 1) (next_at 0 xs) xs acc refl is.nodes
          (omega (arith, is.counted)))

  -- On a well-formed list a loop over `iter` ends, changes nothing and yields every entry of the map, in order.
  pub iter-entries : (do it ← iter; iterate (length xs + 1) it) s ≡ ok (all_some (entries xs)) s
  unfolding iter
  iter-entries = rw (get_first-addr is) (iterate-entries (length xs + 1) xs is.nodes (omega arith))

delete-head : {V : Type 0} (k : ℕ) (v : V) (es : Entries V) → delete k ((k, v) ∷ es) ≡ es
unfolding delete
delete-head k v es = rw (eq_self k)

lookup-head : {V : Type 0} (k : ℕ) (v : V) (es : Entries V) → lookup k ((k, v) ∷ es) ≡ some v
unfolding lookup
lookup-head k v es = rw (eq_self k)

module _ {V : Type 0} where
  -- On a well-formed list with a length below 2^64 `remove_first` takes the least key out of the map and
  -- returns it with its value; on an empty one it returns nothing.
  pub remove_first-tail :
      {s : SkipList V} (xs : List (Cell V))
      → IsList s xs
      → length xs < usize
      → (s' : SkipList V) × (ys : List (Cell V)) × (remove_first s ≡ ok (head? (entries xs)) s')
        × IsList s' ys
        × (entries ys ≡ tail (entries xs))
  unfolding remove_first
  remove_first-tail {s} [] is few = (s, [], rw (is_empty-ok is), is, refl)
  remove_first-tail (c ∷ xs) is few =
      let (s', ys, run, is', same, freed) = remove-delete is few c.key in
      let filled : ltb (length (c ∷ xs)) 1 ≡ false = ground arith in
      let first = load_ptr-ok (head-At is) (omega arith) (is.head_tower 0 (omega arith)) in
      (
        s',
        ys,
        rw
            (
              is_empty-ok is,
              filled,
              first,
              lt→ltb is.nodes.0.tall,
              load_key-ok (IsNode-At is.nodes.0) is.nodes.0.key,
            )
            (unfold remove in
              run ∙ ap (λ o. ok (with_key c.key o) s') (lookup-head c.key c.val (entries xs))),
        is',
        same ∙ delete-head c.key c.val (entries xs),
      )

  pub length-entries : (xs : List (Cell V)) → length (entries xs) ≡ length xs
  length-entries [] = refl
  length-entries (c ∷ xs) = ap suc (length-entries xs)

  nil_of_entries : (xs : List (Cell V)) → entries xs ≡ [] → xs ≡ []
  nil_of_entries [] e = refl
  nil_of_entries (c ∷ xs) e = absurd cc

  drain_from :
      (f : ℕ) {s : SkipList V} (xs : List (Cell V)) (es : Entries V)
      → IsList s xs
      → entries xs ≡ es
      → length xs < usize
      → length es < f
      → (s' : SkipList V) × (drain f s ≡ ok es s') × IsList s' []
  unfolding drain into_iter_next
  drain_from zero xs es is e few fuel = absurd (omega arith)
  drain_from (suc f) xs [] is e few fuel =
      let (s', ys, run, is', same) = remove_first-tail xs is few in
      (s', rw (run, e), rw (nil_of_entries ys (same ∙ ap tail e)) at is')
  drain_from (suc f) xs (d ∷ es) is e few fuel =
      let (s', ys, run, is', same) = remove_first-tail xs is few in
      let same' : entries ys ≡ es = same ∙ ap tail e in
      let shorter : length ys < usize =
        omega (arith, length-entries ys, length-entries xs, ap length same', ap length e) in
      let (s2, rest, is2) = drain_from f ys es is' same' shorter (omega arith) in
      (s2, rw (run, e, rest), is2)

  -- On a well-formed list with a length below 2^64 a loop over `into_iter` ends, yields every entry in
  -- order and leaves an empty list.
  pub into_iter-entries :
      {s : SkipList V} {xs : List (Cell V)}
      → IsList s xs
      → length xs < usize
      → (s' : SkipList V) × (drain (length xs + 1) s ≡ ok (entries xs) s') × IsList s' []
  into_iter-entries {xs} is few =
      drain_from (length xs + 1) xs (entries xs) is refl few (omega (arith, length-entries xs))
