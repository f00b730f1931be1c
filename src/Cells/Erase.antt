-- ===== src/Cells/Erase.antt =====
-- A node taken out of the nodes of a list: what the links of its predecessors must be.
use native.Mathlib.Decide.{dec_lt, ℕ_discrete}
use skippy_rs.Base.{
  ℕ, ◌≡◌, refl, ◌∙◌, ◌≢◌, ◌<◌, List, [], ◌∷◌, arith, some, ltb, if◌then◌else◌, ◌==◌, ◌&&◌, length,
  suc, lt→ltb, eq→test, ne→not_eq, Bool-cases, inl, inr, false,
}
use skippy_rs.Node.{max_levels}
use skippy_rs.Store.{Ptr, SkipList, link_to}
use skippy_rs.Cells.{Cell, next_at, pred_at, target_at, All, NotIn, Tower, IsNode, Nodes}
use skippy_rs.Cells.Frame.{SameAt, Same-away, Nodes-Same, All-mono, pred_at-ne}
use skippy_rs.Cells.Entries.{target-ne}
use skippy_rs.Spec.{entries, lookup, delete}

module _ {V : Type 0} where
  abbrev pub erase : ℕ → List (Cell V) → List (Cell V)
  erase k [] = []
  erase k (c ∷ xs) = if c.key == k then xs else c ∷ erase k xs

  -- the nodes with larger keys
  abbrev pub after : ℕ → List (Cell V) → List (Cell V)
  after k [] = []
  after k (c ∷ xs) = if c.key == k then xs else after k xs

  pub All-erase : (P : Cell V → Type 0) (k : ℕ) (xs : List (Cell V)) → All P xs → All P (erase k xs)
  All-erase P k [] a = tt
  All-erase P k (c ∷ xs) a = elim (ℕ_discrete c.key k) [
    | yes eq ↦ rw (eq→test eq) a.1
    | no ne ↦ rw (ne→not_eq ne) (a.0, All-erase P k xs a.1)
  ]

  pub length-erase :
      (k : ℕ) {a : Ptr} (xs : List (Cell V))
      → target_at k xs ≡ some a
      → length xs ≡ suc (length (erase k xs))
  length-erase k [] e = absurd cc
  length-erase k {a} (c ∷ xs) e = ground (arith, length-erase k {a = a} xs)

  pub entries-erase : (k : ℕ) (xs : List (Cell V)) → entries (erase k xs) ≡ delete k (entries xs)
  unfolding delete
  entries-erase k [] = refl
  entries-erase k (c ∷ xs) = ground (arith, entries-erase k xs)

  -- The node of key `k`, `n` levels tall and at `a`, is in the list, with `after k xs` behind it.
  pub next_at-erase :
      (k l : ℕ) (p : Ptr) (t : Cell V) (xs : List (Cell V))
      → NotIn p xs
      → target_at k xs ≡ some t.addr
      → All (λ c. c.key ≡ k → c.height ≡ t.height) xs
      → next_at l (erase k xs) ≡ (
          if ltb l t.height && (p == pred_at l k p xs)
          then next_at l (after k xs)
          else next_at l xs)
  next_at-erase k l p t [] out e h = absurd cc
  next_at-erase k l p t (c ∷ xs) out e h =
      ground (arith, h.0, next_at-erase k l p t xs out.1, pred_at-ne l k p c.addr xs out.1 out.0)

-- The node of key `k` at `a`.
pub record Target {V : Type 0} (s : SkipList V) (k : ℕ) (a : Ptr) (xs : List (Cell V))
    : Type 0 where
  pub cell : Cell V
  pub here : cell.addr ≡ a
  pub key : cell.key ≡ k
  pub node : IsNode s cell
  pub tower : Tower s a cell.height (after k xs)
  pub got : lookup k (entries xs) ≡ some cell.val
  pub only : All (λ c. c.key ≡ k → c.height ≡ cell.height) xs

module _ {V : Type 0} (s : SkipList V) (k : ℕ) where
  pub target_at-Target :
      {a : Ptr} (xs : List (Cell V)) → Nodes s xs → target_at k xs ≡ some a → Target s k a xs
  unfolding lookup
  target_at-Target [] n e = absurd cc
  target_at-Target {a} (c ∷ xs) n e = elim (dec_lt c.key k) [
    | yes lt ↦
        let r = target_at-Target xs n.4 (rw (lt→ltb lt) at e) in
        let other : (c.key == k) ≡ false = ground arith in
        record {
          cell = r.cell;
          here = r.here;
          key = r.key;
          node = r.node;
          tower = rw other r.tower;
          got = rw other r.got;
          only = (λ eq. absurd (omega arith), r.only);
        }
    | no ge ↦
        let eq : c.key ≡ k = ground arith in
        let here : c.addr ≡ a = ground arith in
        record {
          cell = c;
          here = here;
          key = eq;
          node = n.0;
          tower = rw (eq→test eq, ← here) n.1;
          got = rw (eq→test eq);
          only = (λ _. refl, All-mono (λ d above same. absurd (omega arith)) xs n.3);
        }
  ]

-- `s'` is `s` with the node `t` taken out: its predecessors point where it did, and it is released.
pub record Unlinked {V : Type 0} (s s' : SkipList V) (t : Cell V) (prev : ℕ → Ptr) : Type 0 where
  pub live : (a : Ptr) → a ≢ t.addr → s'.live a ≡ s.live a
  pub key : (a : Ptr) → a ≢ t.addr → s'.key a ≡ s.key a
  pub val : (a : Ptr) → a ≢ t.addr → s'.val a ≡ s.val a
  pub header : (a : Ptr) → a ≢ t.addr → s'.header a ≡ s.header a
  pub link :
      (a : Ptr) (l : ℕ)
      → a ≢ t.addr
      → l < max_levels
      → s'.link a l
        ≡ (if ltb l t.height && (a == prev l) then link_to (s.link t.addr l).ptr 0 else s.link a l)

module _ {V : Type 0} {s s' : SkipList V} (t : Cell V) (prev : ℕ → Ptr)
    (unlinked : Unlinked s s' t prev) where
  Unlinked-same : (a : Ptr) → a ≢ t.addr → ((l : ℕ) → l < max_levels → a ≢ prev l) → SameAt s s' a
  Unlinked-same a ne far = record {
    live = unlinked.live a ne;
    key = unlinked.key a ne;
    val = unlinked.val a ne;
    header = unlinked.header a ne;
    link = λ l lt. ground (arith, unlinked.link a l ne lt, far l lt);
  }

  Unlinked-IsNode : {c : Cell V} → c.addr ≢ t.addr → IsNode s c → IsNode s' c
  Unlinked-IsNode {c} ne n = record {
    ne_null = n.ne_null;
    live = unlinked.live c.addr ne ∙ n.live;
    key = unlinked.key c.addr ne ∙ n.key;
    val = unlinked.val c.addr ne ∙ n.val;
    header = unlinked.header c.addr ne ∙ n.header;
    tall = n.tall;
    short = n.short;
  }

  -- `q l` is the last node so far that reaches `l`, with `xs` behind it.
  pub Nodes-erase :
      (q : ℕ → Ptr) (xs : List (Cell V))
      → Nodes s xs
      → ((l : ℕ) → NotIn (q l) xs)
      → ((l : ℕ) → l < max_levels → prev l ≡ pred_at l t.key (q l) xs)
      → target_at t.key xs ≡ some t.addr
      → Tower s t.addr t.height (after t.key xs)
      → All (λ c. c.key ≡ t.key → c.height ≡ t.height) xs
      → Nodes s' (erase t.key xs)
  Nodes-erase q [] n out preds present tower only = tt
  Nodes-erase q (c ∷ xs) n out preds present tower only = elim (dec_lt c.key t.key) [
    | yes lt ↦
        let other : (c.key == t.key) ≡ false = ground arith in
        let present' : target_at t.key xs ≡ some t.addr = rw (lt→ltb lt) at present in
        let tower' : Tower s t.addr t.height (after t.key xs) = rw other at tower in
        let away = target-ne t.key xs n.2 present' in
        rw other (
          Unlinked-IsNode away n.0,
          λ l tall. ground (
            arith,
            unlinked.link c.addr l away,
            next_at-erase t.key l c.addr t xs n.2 present' only.1,
            preds l,
            n.1 l tall,
            n.0.short,
            tower' l,
          ),
          All-erase _ t.key xs n.2,
          All-erase _ t.key xs n.3,
          Nodes-erase (λ l. if ltb l c.height then c.addr else q l) xs n.4
              (λ l. elim (Bool-cases (ltb l c.height)) [
                | inl e ↦ rw e n.2
                | inr e ↦ rw e (out l).1
              ])
              (λ l room. ground (arith, preds l room)) present' tower' only.1,
        )
    | no ge ↦
        let eq : c.key ≡ t.key = ground arith in
        let here : c.addr ≡ t.addr = ground arith in
        rw (eq→test eq) (
          Nodes-Same s s' xs
            (Same-away t.addr q
              (λ a ne far. Unlinked-same a ne λ l room e. ground (arith, far l, preds l room)) xs
              (rw (← here) n.2) (λ l. (out l).1))
            n.4)
  ]
