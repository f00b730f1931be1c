-- ===== src/Cells/Insert.antt =====
-- A new node among the nodes of a list: what its links and those of its predecessors must be.
use native.Mathlib.Decide.{dec_lt}
use skippy_rs.Base.{
  ℕ, ◌≡◌, refl, sym, ◌∙◌, ◌≢◌, ◌<◌, List, [], ◌∷◌, arith, none, ltb, if◌then◌else◌, ◌==◌, ◌&&◌,
  length, suc, lt→ltb, le→not_ltb, Bool-cases, inl, inr,
}
use skippy_rs.Node.{max_levels}
use skippy_rs.Store.{Ptr, SkipList, link_to}
use skippy_rs.Cells.{Cell, next_at, pred_at, target_at, All, NotIn, IsNode, Nodes}
use skippy_rs.Cells.Frame.{SameAt, Same-away, Nodes-Same, All-mono, pred_at-ne}

module _ {V : Type 0} (new : Cell V) where
  abbrev pub insert_cell : List (Cell V) → List (Cell V)
  insert_cell [] = new ∷ []
  insert_cell (c ∷ xs) = if ltb c.key new.key then c ∷ insert_cell xs else new ∷ c ∷ xs

  pub next_at-insert :
      (l : ℕ) (p : Ptr) (xs : List (Cell V))
      → NotIn p xs
      → next_at l (insert_cell xs)
        ≡ (if ltb l new.height && (p == pred_at l new.key p xs) then new.addr else next_at l xs)
  next_at-insert l p [] out = ground arith
  next_at-insert l p (c ∷ xs) out =
      ground (arith, next_at-insert l p xs out.1, pred_at-ne l new.key p c.addr xs out.1 out.0)

  pub length-insert : (xs : List (Cell V)) → length (insert_cell xs) ≡ suc (length xs)
  length-insert [] = refl
  length-insert (c ∷ xs) = ground (arith, length-insert xs)

  pub All-insert :
      (P : Cell V → Type 0) (xs : List (Cell V)) → P new → All P xs → All P (insert_cell xs)
  All-insert P [] h a = (h, tt)
  All-insert P (c ∷ xs) h a = elim (dec_lt c.key new.key) [
    | yes lt ↦ rw (lt→ltb lt) (a.0, All-insert P xs h a.1)
    | no ge ↦ rw (le→not_ltb {a = c.key} {b = new.key} (omega arith)) (h, a)
  ]

-- `s'` has the node `new` added to the nodes of `s`: it points where its predecessors `prev` did, and
-- they point to it; nothing else changed.
pub record Linked {V : Type 0} (s s' : SkipList V) (new : Cell V) (prev : ℕ → Ptr) : Type 0 where
  pub live : (a : Ptr) → a ≢ new.addr → s'.live a ≡ s.live a
  pub key : (a : Ptr) → a ≢ new.addr → s'.key a ≡ s.key a
  pub val : (a : Ptr) → a ≢ new.addr → s'.val a ≡ s.val a
  pub header : (a : Ptr) → a ≢ new.addr → s'.header a ≡ s.header a
  pub link :
      (a : Ptr) (l : ℕ)
      → a ≢ new.addr
      → l < max_levels
      → s'.link a l ≡ (if ltb l new.height && (a == prev l) then link_to new.addr 0 else s.link a l)
  pub node : IsNode s' new
  pub tower : (l : ℕ) → l < new.height → s'.link new.addr l ≡ link_to (s.link (prev l) l).ptr 0

-- It does not look at the length counter.
pub Linked-len :
    {V : Type 0} {s s' : SkipList V} {new : Cell V} {prev : ℕ → Ptr} (n : ℕ)
    → Linked s s' new prev
    → Linked s (record s' { len = n }) new prev
Linked-len {new} n r = record {
  live = r.live;
  key = r.key;
  val = r.val;
  header = r.header;
  link = r.link;
  node = record {
    ne_null = r.node.ne_null;
    live = r.node.live;
    key = r.node.key;
    val = r.node.val;
    header = r.node.header;
    tall = r.node.tall;
    short = r.node.short;
  };
  tower = r.tower;
}

module _ {V : Type 0} {s s' : SkipList V} (new : Cell V) (prev : ℕ → Ptr)
    (linked : Linked s s' new prev) where
  Linked-same : (a : Ptr) → a ≢ new.addr → ((l : ℕ) → l < max_levels → a ≢ prev l) → SameAt s s' a
  Linked-same a ne far = record {
    live = linked.live a ne;
    key = linked.key a ne;
    val = linked.val a ne;
    header = linked.header a ne;
    link = λ l lt. ground (arith, linked.link a l ne lt, far l lt);
  }

  Linked-IsNode : {c : Cell V} → new.addr ≢ c.addr → IsNode s c → IsNode s' c
  Linked-IsNode {c} ne n =
      let away : c.addr ≢ new.addr = λ e. ne (sym e) in
      record {
        ne_null = n.ne_null;
        live = linked.live c.addr away ∙ n.live;
        key = linked.key c.addr away ∙ n.key;
        val = linked.val c.addr away ∙ n.val;
        header = linked.header c.addr away ∙ n.header;
        tall = n.tall;
        short = n.short;
      }

  -- A node before the new one, with `xs` behind it: `q l` is the last node so far that reaches `l`.
  pub Nodes-insert :
      (q : ℕ → Ptr) (xs : List (Cell V))
      → Nodes s xs
      → NotIn new.addr xs
      → ((l : ℕ) → NotIn (q l) xs)
      → ((l : ℕ) → l < max_levels → prev l ≡ pred_at l new.key (q l) xs)
      → ((l : ℕ) → l < max_levels → s.link (q l) l ≡ link_to (next_at l xs) 0)
      → target_at new.key xs ≡ none
      → Nodes s' (insert_cell new xs)
  Nodes-insert q [] n fresh out preds links absent = (
    linked.node,
    λ l lt. ground (arith, linked.tower l lt, preds l, links l, linked.node.short),
    tt,
    tt,
    tt,
  )
  Nodes-insert q (c ∷ xs) n fresh out preds links absent = elim (dec_lt c.key new.key) [
    | yes lt ↦ rw (lt→ltb lt) (
      Linked-IsNode fresh.0 n.0,
      λ l tall. ground (
        arith,
        linked.link c.addr l (λ e. fresh.0 (sym e)),
        next_at-insert new l c.addr xs n.2,
        preds l,
        n.1 l tall,
        n.0.short,
      ),
      All-insert new _ xs (λ e. fresh.0 (sym e)) n.2,
      All-insert new _ xs lt n.3,
      Nodes-insert (λ l. if ltb l c.height then c.addr else q l) xs n.4 fresh.1
          (λ l. elim (Bool-cases (ltb l c.height)) [ inl e ↦ rw e n.2 | inr e ↦ rw e (out l).1 ])
          (λ l room. ground (arith, preds l room)) (λ l room. ground (arith, links l room, n.1 l))
          (ground arith),
    )
    | no ge ↦ rw (le→not_ltb {a = c.key} {b = new.key} (omega arith)) (
      linked.node,
      λ l tall. ground (arith, linked.tower l tall, preds l, links l, linked.node.short),
      fresh,
      (ground arith, All-mono (λ d above. omega arith) xs n.3),
      Nodes-Same s s' (c ∷ xs)
          (Same-away new.addr q
            (λ a ne far. Linked-same a ne λ l room e. ground (arith, far l, preds l room)) (c ∷ xs)
            fresh out)
          n,
    )
  ]
