-- ===== src/SkipList/Walk/RoundTrip.antt =====
-- `insert`, `remove` and `get` of src/internal/skiplist.rs run one after the other.
use skippy_rs.Base.{
  ℕ, ◌+◌, ◌≡◌, ◌≢◌, ◌<◌, arith, List, [], ◌∷◌, none, some, false, ok, length, ◌==◌, if◌then◌else◌,
  ◌>>=◌, ap,
}
use skippy_rs.Node.{usize}
use skippy_rs.Store.{null, SkipList}
use skippy_rs.Cells.{Cell, Nodes, IsList}
use skippy_rs.Cells.Entries.{lookup-Above}
use skippy_rs.Spec.{Entries, entries, lookup, put, delete}
use skippy_rs.SkipList.{insert, remove}
use skippy_rs.SkipList.Put.{insert-put}
use skippy_rs.SkipList.Delete.{remove-delete}
use skippy_rs.SkipList.Walk.{get}
use skippy_rs.SkipList.Walk.Order.{show_val}
use skippy_rs.SkipList.Walk.Results.{get-lookup}

module _ {V : Type 0} where
  lookup-put :
      (j k : ℕ) (v : V) (es : Entries V)
      → lookup j (put k v es) ≡ (if j == k then some v else lookup j es)
  unfolding lookup put
  lookup-put j k v [] = ground arith
  lookup-put j k v ((i, w) ∷ es) = ground (arith, lookup-put j k v es)

  lookup-delete :
      (s : SkipList V) (j k : ℕ) (xs : List (Cell V))
      → Nodes s xs
      → lookup j (delete k (entries xs)) ≡ (if j == k then none else lookup j (entries xs))
  unfolding lookup delete
  lookup-delete s j k [] n = ground arith
  lookup-delete s j k (c ∷ xs) n =
      ground (arith, lookup-Above c.key xs n.3, lookup-delete s j k xs n.4)

module _ {V : Type 0} {s : SkipList V} {xs : List (Cell V)} (is : IsList s xs) where
  -- A `get` after an `insert` on a well-formed list, given a free address, with room in the length: the new value
  -- under the key that was inserted, and what the map held under any other key.
  pub insert-get :
      (fresh k : ℕ) (v : V) (j : ℕ)
      → fresh ≢ null
      → s.live fresh ≡ false
      → length xs + 1 < usize
      → (s' : SkipList V) × ((do _ ← insert fresh k v; e ← get j; show_val e) s
          ≡ ok (if j == k then some v else lookup j (entries xs)) s')
  insert-get fresh k v j ne dead room =
      let (s', ys, run, is', same) = insert-put is fresh k v ne dead room in
      (s', rw (run, get-lookup is' j, same) (ap (λ o. ok o s') (lookup-put j k v (entries xs))))

  -- A `get` after a `remove` on a well-formed list with a length below 2^64: nothing under the key that was removed, and what the map held under any
  -- other key.
  pub remove-get :
      (k j : ℕ)
      → length xs < usize
      → (s' : SkipList V) × ((do _ ← remove k; e ← get j; show_val e) s
          ≡ ok (if j == k then none else lookup j (entries xs)) s')
  remove-get k j few =
      let (s', ys, run, is', same, freed) = remove-delete is few k in
      (s', rw (run, get-lookup is' j, same) (ap (λ o. ok o s') (lookup-delete s j k xs is.nodes)))
