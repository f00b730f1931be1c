-- ===== src/Cells/Levels.antt =====
-- How the successor at a level and the predecessors of a key move along the nodes.
use skippy_rs.Base.{ℕ, ◌≡◌, ◌≤◌, ◌<◌, refl, ◌⊎◌, inl, inr, List, [], ◌∷◌, arith, le→not_ltb, length}
use native.Mathlib.Decide.{dec_lt}
use skippy_rs.Store.{Ptr, null, SkipList}
use skippy_rs.Cells.{Cell, next_at, pred_at, succ_at, target_at, Above, Tower, IsNode, Nodes}

-- The next node at level `l`, with what follows it. Going there changes no predecessor of a larger
-- key at this level or below; not going there leaves a node in front the predecessor.
pub record Hop {V : Type 0} (s : SkipList V) (l k : ℕ) (xs : List (Cell V)) : Type 0 where
  pub cell : Cell V
  pub rest : List (Cell V)
  pub leads : next_at l xs ≡ cell.addr
  pub node : IsNode s cell
  pub tower : Tower s cell.addr cell.height rest
  pub nodes : Nodes s rest
  pub reaches : l < cell.height
  pub shorter : length rest < length xs
  pub beyond : (j : ℕ) → Above j xs → j < cell.key
  pub passed :
      cell.key < k → (m : ℕ) → m ≤ l → (p : Ptr) → pred_at m k p xs ≡ pred_at m k cell.addr rest
  pub target : cell.key < k → target_at k xs ≡ target_at k rest
  pub stays : k ≤ cell.key → (p : Ptr) → pred_at l k p xs ≡ p
  pub succ_passed : cell.key < k → (m : ℕ) → succ_at m k xs ≡ succ_at m k rest
  pub succ_stays : k ≤ cell.key → succ_at l k xs ≡ cell.addr

abbrev pub Ends : {V : Type 0} → ℕ → ℕ → List (Cell V) → Type 0
Ends l k xs = (next_at l xs ≡ null) × ((p : Ptr) → pred_at l k p xs ≡ p) × (succ_at l k xs ≡ null)

module _ {V : Type 0} {s : SkipList V} (l k : ℕ) where
  Hop-here :
      (c : Cell V) (xs : List (Cell V)) → Nodes s (c ∷ xs) → l < c.height → Hop s l k (c ∷ xs)
  Hop-here c xs n tall = record {
    cell = c;
    rest = xs;
    leads = ground arith;
    node = n.0;
    tower = n.1;
    nodes = n.4;
    reaches = tall;
    shorter = omega arith;
    beyond = λ j a. a.0;
    passed = λ lt m le p. ground arith;
    target = λ lt. ground arith;
    stays = λ le p. ground arith;
    succ_passed = λ lt m. ground arith;
    succ_stays = λ le. ground arith;
  }

  Hop-over :
      (c : Cell V) (xs : List (Cell V))
      → c.height ≤ l
      → Above c.key xs
      → Hop s l k xs
      → Hop s l k (c ∷ xs)
  Hop-over c xs small up h = record {
    cell = h.cell;
    rest = h.rest;
    leads = rw (le→not_ltb small) h.leads;
    node = h.node;
    tower = h.tower;
    nodes = h.nodes;
    reaches = h.reaches;
    shorter = omega (arith, h.shorter);
    beyond = λ j a. h.beyond j a.1;
    passed =
        λ lt m le p. ground (arith, h.beyond c.key up, h.passed lt m le p, h.passed lt m le c.addr);
    target = λ lt. ground (arith, h.beyond c.key up, h.target lt);
    stays = λ le p. ground (arith, h.stays le p);
    succ_passed = λ lt m. ground (arith, h.beyond c.key up, h.succ_passed lt m);
    succ_stays = λ le. ground (arith, h.succ_stays le, h.leads);
  }

  -- Where the links of level `l` lead from in front of `xs`: to null or to the next tall node.
  pub hop : (xs : List (Cell V)) → Nodes s xs → Ends l k xs ⊎ Hop s l k xs
  hop [] n = inl (refl, λ p. refl, refl)
  hop (c ∷ xs) n = elim (dec_lt l c.height) [
    | yes tall ↦ inr (Hop-here c xs n tall)
    | no small ↦ elim (hop xs n.4) [
      | inl e ↦ inl (ground arith, λ p. ground (arith, e.1 p), ground (arith, e.0, e.2))
      | inr h ↦ inr (Hop-over c xs (omega arith) n.3 h)
    ]
  ]
