-- ===== src/Cells/Entries.antt =====
-- The nodes of a list as entries of the ordered map.
use native.Mathlib.Decide.{dec_lt, ℕ_discrete}
use skippy_rs.Base.{
  ℕ, ◌≡◌, refl, ◌≢◌, ◌<◌, List, [], ◌∷◌, arith, some, none, if◌then◌else◌, ◌==◌, lt→ltb, length,
  eq→test, ne→not_eq,
}
use skippy_rs.Store.{Ptr, SkipList, update}
use skippy_rs.Cells.{Cell, next_at, target_at, All, NotIn, Above, IsNode, Nodes}
use skippy_rs.Cells.Frame.{Same-away, Nodes-Same, All-mono}
use skippy_rs.Cells.Insert.{insert_cell}
use skippy_rs.Spec.{entries, lookup, put}

module _ {V : Type 0} where
  pub entries-insert :
      (c : Cell V) (xs : List (Cell V))
      → target_at c.key xs ≡ none
      → entries (insert_cell c xs) ≡ put c.key c.val (entries xs)
  unfolding put
  entries-insert c [] absent = refl
  entries-insert c (d ∷ xs) absent = ground (arith, entries-insert c xs)

  pub lookup-Above : (k : ℕ) (xs : List (Cell V)) → Above k xs → lookup k (entries xs) ≡ none
  unfolding lookup
  lookup-Above k [] a = refl
  lookup-Above k (c ∷ xs) a = ground (arith, a.0, lookup-Above k xs a.1)

  pub lookup-none :
      (s : SkipList V) (k : ℕ) (xs : List (Cell V))
      → Nodes s xs
      → target_at k xs ≡ none
      → lookup k (entries xs) ≡ none
  unfolding lookup
  lookup-none s k [] n absent = refl
  lookup-none s k (c ∷ xs) n absent = ground (
    arith,
    lookup-none s k xs n.4,
    λ (lt : k < c.key). lookup-Above k xs (All-mono (λ d above. omega arith) xs n.3),
  )

  -- A target is one of the nodes.
  pub target-ne :
      (k : ℕ) {p a : Ptr} (xs : List (Cell V)) → NotIn p xs → target_at k xs ≡ some a → p ≢ a
  target-ne k [] out e = λ _. cc
  target-ne k {p} {a} (c ∷ xs) out e = ground (arith, out.0, target-ne k {p = p} {a = a} xs out.1)

  -- The node found has the key and the value that the map has.
  pub lookup-some :
      (s : SkipList V) (k : ℕ) {a : Ptr} (xs : List (Cell V))
      → Nodes s xs
      → target_at k xs ≡ some a
      → (c : Cell V) × (c.addr ≡ a)
        × (c.key ≡ k)
        × IsNode s c
        × (lookup k (entries xs) ≡ some c.val)
  unfolding lookup
  lookup-some s k [] n e = absurd cc
  lookup-some s k (c ∷ xs) n e = elim (dec_lt c.key k) [
    | yes lt ↦
        let (d, at, same, node, got) = lookup-some s k xs n.4 (rw (lt→ltb lt) at e) in
        (d, at, same, node, ground (arith, got))
    | no ge ↦ elim (ℕ_discrete c.key k) [
      | yes eq ↦ (c, ground arith, eq, n.0, ground arith)
      | no ne ↦ absurd (ground arith)
    ]
  ]

  -- the list with the value of key `k` replaced
  abbrev pub set_val : ℕ → V → List (Cell V) → List (Cell V)
  set_val k v [] = []
  set_val k v (c ∷ xs) = if c.key == k then record c { val = v } ∷ xs else c ∷ set_val k v xs

  pub entries-set :
      (k : ℕ) (v : V) {a : Ptr} (xs : List (Cell V))
      → target_at k xs ≡ some a
      → entries (set_val k v xs) ≡ put k v (entries xs)
  unfolding put
  entries-set k v [] e = absurd cc
  entries-set k v {a} (c ∷ xs) e = ground (arith, entries-set k v {a = a} xs)

  pub next_at-set :
      (k l : ℕ) (v : V) (xs : List (Cell V)) → next_at l (set_val k v xs) ≡ next_at l xs
  next_at-set k l v [] = refl
  next_at-set k l v (c ∷ xs) = ground (arith, next_at-set k l v xs)

  pub length-set : (k : ℕ) (v : V) (xs : List (Cell V)) → length (set_val k v xs) ≡ length xs
  length-set k v [] = refl
  length-set k v (c ∷ xs) = ground (arith, length-set k v xs)

  -- A property of addresses, heights and keys does not see the values.
  pub All-set :
      (P : ℕ → ℕ → ℕ → Type 0) (k : ℕ) (v : V) (xs : List (Cell V))
      → All (λ c. P c.addr c.height c.key) xs
      → All (λ c. P c.addr c.height c.key) (set_val k v xs)
  All-set P k v [] a = tt
  All-set P k v (c ∷ xs) a = elim (ℕ_discrete c.key k) [
    | yes eq ↦ rw (eq→test eq) a
    | no ne ↦ rw (ne→not_eq ne) (a.0, All-set P k v xs a.1)
  ]

  pub Nodes-set :
      (s : SkipList V) (k : ℕ) (v : V) {a : Ptr} (xs : List (Cell V))
      → Nodes s xs
      → target_at k xs ≡ some a
      → Nodes (record s { val = update s.val a (some v) }) (set_val k v xs)
  Nodes-set s k v [] n e = tt
  Nodes-set s k v {a} (c ∷ xs) n e = elim (ℕ_discrete c.key k) [
    | yes eq ↦
        let here : c.addr ≡ a = ground arith in
        rw (eq→test eq) (
          record {
            ne_null = n.0.ne_null;
            live = n.0.live;
            key = n.0.key;
            val = ground arith;
            header = n.0.header;
            tall = n.0.tall;
            short = n.0.short;
          },
          n.1,
          n.2,
          n.3,
          Nodes-Same s _ xs
              (Same-away c.addr (λ _. c.addr)
                (λ b away far. record {
                  live = refl;
                  key = refl;
                  val = ground arith;
                  header = refl;
                  link = λ l lt. refl;
                })
                xs n.2 (λ _. n.2))
              n.4,
        )
    | no ne ↦
        let e' : target_at k xs ≡ some a = ground arith in
        let away = target-ne k xs n.2 e' in
        rw (ne→not_eq ne) (
          record {
            ne_null = n.0.ne_null;
            live = n.0.live;
            key = n.0.key;
            val = ground (arith, n.0.val);
            header = n.0.header;
            tall = n.0.tall;
            short = n.0.short;
          },
          λ l lt. rw (next_at-set k l v xs) (n.1 l lt),
          All-set (λ p h j. c.addr ≢ p) k v xs n.2,
          All-set (λ p h j. c.key < j) k v xs n.3,
          Nodes-set s k v xs n.4 e',
        )
  ]
