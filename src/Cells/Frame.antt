-- ===== src/Cells/Frame.antt =====
-- What leaves the nodes of a list as they are.
use skippy_rs.Base.{ℕ, ◌≡◌, ◌∙◌, sym, ◌≢◌, ◌<◌, List, [], ◌∷◌, arith}
use skippy_rs.Node.{max_levels}
use skippy_rs.Store.{Ptr, SkipList}
use skippy_rs.Cells.{Cell, pred_at, All, NotIn, IsNode, Nodes}

-- `s'` agrees with `s` on the node at `a`.
pub record SameAt {V : Type 0} (s s' : SkipList V) (a : Ptr) : Type 0 where
  pub live : s'.live a ≡ s.live a
  pub key : s'.key a ≡ s.key a
  pub val : s'.val a ≡ s.val a
  pub header : s'.header a ≡ s.header a
  pub link : (l : ℕ) → l < max_levels → s'.link a l ≡ s.link a l

module _ {V : Type 0} where
  abbrev pub Same : SkipList V → SkipList V → List (Cell V) → Type 0
  Same s s' [] = Unit
  Same s s' (c ∷ xs) = SameAt s s' c.addr × Same s s' xs

  -- What holds away from `p` and the addresses `q l`, holds of nodes that are none of them.
  pub Same-away :
      {s s' : SkipList V} (p : Ptr) (q : ℕ → Ptr)
      → ((a : Ptr) → a ≢ p → ((l : ℕ) → a ≢ q l) → SameAt s s' a)
      → (xs : List (Cell V)) → NotIn p xs
      → ((l : ℕ) → NotIn (q l) xs)
      → Same s s' xs
  Same-away p q same [] apart out = tt
  Same-away p q same (c ∷ xs) apart out = (
    same c.addr (λ e. apart.0 (sym e)) (λ l e. (out l).0 (sym e)),
    Same-away p q same xs apart.1 (λ l. (out l).1),
  )

  pub IsNode-same : {s s' : SkipList V} {c : Cell V} → SameAt s s' c.addr → IsNode s c → IsNode s' c
  IsNode-same e n = record {
    ne_null = n.ne_null;
    live = e.live ∙ n.live;
    key = e.key ∙ n.key;
    val = e.val ∙ n.val;
    header = e.header ∙ n.header;
    tall = n.tall;
    short = n.short;
  }

  pub Nodes-Same :
      (s s' : SkipList V) (xs : List (Cell V)) → Same s s' xs → Nodes s xs → Nodes s' xs
  Nodes-Same s s' [] e n = tt
  Nodes-Same s s' (c ∷ xs) e n = (
    IsNode-same e.0 n.0,
    λ l lt. e.0.link l (omega (arith, n.0.short)) ∙ n.1 l lt,
    n.2,
    n.3,
    Nodes-Same s s' xs e.1 n.4,
  )

  pub All-mono :
      {P Q : Cell V → Type 0}
      → ((c : Cell V) → P c → Q c)
      → (xs : List (Cell V)) → All P xs
      → All Q xs
  All-mono f [] a = tt
  All-mono f (c ∷ xs) a = (f c a.0, All-mono f xs a.1)

  -- A predecessor is the start or one of the nodes.
  pub pred_at-ne :
      (l k : ℕ) (p q : Ptr) (xs : List (Cell V)) → NotIn p xs → p ≢ q → ¬ (p ≡ pred_at l k q xs)
  pred_at-ne l k p q [] out ne e = ne e
  pred_at-ne l k p q (c ∷ xs) out ne e =
      ground (arith, out.0, pred_at-ne l k p q xs out.1, pred_at-ne l k p c.addr xs out.1)
