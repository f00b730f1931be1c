-- ===== src/SkipList/Find/Search.antt =====
-- The second loop of `find` in src/internal/skiplist.rs, and the predecessors that it fills in.
use native.Mathlib.Decide.{dec_lt}
use skippy_rs.Base.{
  ℕ, zero, suc, ◌+◌, ◌≡◌, sym, ◌∙◌, ◌≤◌, ◌<◌, refl, ◌⊎◌, inl, inr, true, false, some, List, [], ◌∷◌,
  arith, ◌==◌, leb, lt→ltb, ne→not_eq, ok, length, if◌then◌else◌, Run,
}
use skippy_rs.Node.{max_levels}
use skippy_rs.Store.{Ptr, null, SkipList}
use skippy_rs.Store.Access.{At, height-refs, load_ptr-ok, load_tag-ok, load_key-ok}
use skippy_rs.Cells.{Cell, next_at, pred_at, target_at, Tower, IsNode, Nodes}
use skippy_rs.Cells.Levels.{Hop, hop}
use skippy_rs.SkipList.{Prevs, skip_tagged, stops, search_down}

pub IsNode-At : {V : Type 0} {s : SkipList V} {c : Cell V} → IsNode s c → At s c.addr c.height
IsNode-At {c} n = record {
  ne_null = n.ne_null;
  live = n.live;
  header = rw (n.header, height-refs c.height c.height n.short);
}

-- All keys of `ys` are at least `k`: it is empty or its first node has such a key.
abbrev pub From : {V : Type 0} → ℕ → List (Cell V) → Type 0
From k [] = Unit
From k (c ∷ ys) = k ≤ c.key

module _ {V : Type 0} (s : SkipList V) (k : ℕ) where
  -- What the search leaves: a node before the key, and the predecessors at the levels it went through.
  pub record Searched (xs : List (Cell V)) (level : ℕ) (curr : Ptr) (prev : Prevs)
      (run : Run (SkipList V) (Ptr × Prevs)) : Type 0 where
    pub last : Ptr
    pub out : Prevs
    pub tall : ℕ
    pub rest : List (Cell V)
    pub returns : run ≡ ok (last, out) s
    pub filled : (m : ℕ) → m < level → out m ≡ pred_at m k curr xs
    pub kept : (m : ℕ) → level ≤ m → out m ≡ prev m
    pub last_at : At s last tall
    pub some_level : 0 < tall
    pub tower : Tower s last tall rest
    pub nodes : Nodes s rest
    pub same_target : target_at k xs ≡ target_at k rest
    pub from : (0 < level) ⊎ From k xs → From k rest

abbrev pub note : Prevs → ℕ → Ptr → Prevs
note prev l curr = λ m. if m == l then curr else prev m

module _ {V : Type 0} {s : SkipList V} (k l : ℕ) {xs : List (Cell V)} (h : Hop s l k xs) where
  skip-untagged : (curr : Ptr) → skip_tagged curr h.cell.addr l s ≡ ok h.cell.addr s
  unfolding skip_tagged
  skip-untagged curr =
      rw (ne→not_eq h.node.ne_null, load_tag-ok (IsNode-At h.node) h.reaches (h.tower l h.reaches))

  stops-key : stops k h.cell.addr s ≡ ok (leb k h.cell.key) s
  unfolding stops
  stops-key = rw (ne→not_eq h.node.ne_null, load_key-ok (IsNode-At h.node) h.node.key)

-- One round of the search at a node whose level `l` leads into `xs`.
module _ {V : Type 0} {s : SkipList V} (k f l : ℕ) {curr n : ℕ} (prev : Prevs) (xs : List (Cell V))
    (at : At s curr n) (t : Tower s curr n xs) (below : l < n) (room : l < max_levels) where
  skip-null : skip_tagged curr null l s ≡ ok null s
  unfolding skip_tagged
  skip-null = refl

  stops-null : stops k null s ≡ ok true s
  unfolding stops
  stops-null = refl

  step-null :
      next_at l xs ≡ null
      → search_down k (suc f) curr prev (suc l) s ≡ search_down k f curr (note prev l curr) l s
  unfolding search_down
  step-null e = rw (load_ptr-ok at below (t l below), e, skip-null, stops-null, lt→ltb room)

  step-down :
      (h : Hop s l k xs)
      → k ≤ h.cell.key
      → search_down k (suc f) curr prev (suc l) s ≡ search_down k f curr (note prev l curr) l s
  unfolding search_down
  step-down h le =
      let stop : leb k h.cell.key ≡ true = ground arith in
      rw (
        load_ptr-ok at below (t l below),
        h.leads,
        skip-untagged k l h curr,
        stops-key k l h,
        stop,
        lt→ltb room,
      )

  step-forward :
      (h : Hop s l k xs)
      → h.cell.key < k
      → search_down k (suc f) curr prev (suc l) s ≡ search_down k f h.cell.addr prev (suc l) s
  unfolding search_down
  step-forward h lt =
      let go : leb k h.cell.key ≡ false = ground arith in
      rw (load_ptr-ok at below (t l below), h.leads, skip-untagged k l h curr, stops-key k l h, go)

-- A search that stopped at level 0 has reached the key.
module _ {V : Type 0} (s : SkipList V) (k l : ℕ) (lowest : l ≡ 0) where
  From-null : (xs : List (Cell V)) → Nodes s xs → next_at l xs ≡ null → From k xs
  From-null [] n e = tt
  From-null (c ∷ xs) n e = ground (arith, n.0.tall, n.0.ne_null)

  From-Hop : (xs : List (Cell V)) → Nodes s xs → (h : Hop s l k xs) → k ≤ h.cell.key → From k xs
  From-Hop [] n h le = tt
  From-Hop (c ∷ xs) n h le =
      let at_head : c.addr ≡ h.cell.addr = ground (arith, n.0.tall, h.leads) in
      let same : some c.key ≡ some h.cell.key = sym n.0.key ∙ (rw at_head h.node.key) in
      ground (arith, same)

module _ {V : Type 0} {s : SkipList V} {k l : ℕ} {curr : Ptr} {prev : Prevs} {xs : List (Cell V)}
    {run : Run (SkipList V) (Ptr × Prevs)} where
  Searched-down :
      ((p : Ptr) → pred_at l k p xs ≡ p)
      → (l ≡ 0 → From k xs)
      → Searched s k xs l curr (note prev l curr) run
      → Searched s k xs (suc l) curr prev run
  Searched-down stay from r = record {
    last = r.last;
    out = r.out;
    tall = r.tall;
    rest = r.rest;
    returns = r.returns;
    filled = λ m lt. elim (dec_lt m l) [
      | yes below ↦ r.filled m below
      | no at ↦ let e : m ≡ l = omega arith in ground (arith, r.kept m, stay curr)
    ];
    kept = λ m ge. ground (arith, r.kept m);
    last_at = r.last_at;
    some_level = r.some_level;
    tower = r.tower;
    nodes = r.nodes;
    same_target = r.same_target;
    from = λ _. elim (dec_lt 0 l) [
      | yes pos ↦ r.from (inl pos)
      | no zero_level ↦ r.from (inr (from (omega arith)))
    ];
  }

  Searched-forward :
      (h : Hop s l k xs)
      → h.cell.key < k
      → Searched s k h.rest (suc l) h.cell.addr prev run
      → Searched s k xs (suc l) curr prev run
  Searched-forward h lt r = record {
    last = r.last;
    out = r.out;
    tall = r.tall;
    rest = r.rest;
    returns = r.returns;
    filled = λ m below. r.filled m below ∙ sym (h.passed lt m (omega arith) curr);
    kept = r.kept;
    last_at = r.last_at;
    some_level = r.some_level;
    tower = r.tower;
    nodes = r.nodes;
    same_target = h.target lt ∙ r.same_target;
    from = λ _. r.from (inl (omega arith));
  }

-- The search from a node with enough fuel: it ends, changes nothing and notes the predecessors.
pub search_down-Searched :
    {V : Type 0} {s : SkipList V} (k f level : ℕ) {curr n : ℕ} (prev : Prevs) (xs : List (Cell V))
    → At s curr n
    → 0 < n
    → Tower s curr n xs
    → Nodes s xs
    → level ≤ n
    → level ≤ max_levels
    → level + length xs < f
    → Searched s k xs level curr prev (search_down k f curr prev level s)
unfolding search_down
search_down-Searched k zero level prev xs at pos t nodes le room fuel = absurd (omega arith)
search_down-Searched k (suc f) zero {curr} {n} prev xs at pos t nodes le room fuel = record {
  last = curr;
  out = prev;
  tall = n;
  rest = xs;
  returns = refl;
  filled = λ m lt. absurd (omega arith);
  kept = λ m ge. refl;
  last_at = at;
  some_level = pos;
  tower = t;
  nodes = nodes;
  same_target = refl;
  from = elim [ inl lt ↦ absurd (omega arith) | inr here ↦ here ];
}
search_down-Searched {s = s} k (suc f) (suc l) {curr} {n} prev xs at pos t nodes le room fuel =
    let lower =
      search_down-Searched k f l (note prev l curr) xs at pos t nodes (omega arith) (omega arith)
        (omega arith) in
    elim (hop l k xs nodes) [
      | inl e ↦
          rw (step-null k f l prev xs at t (omega arith) (omega arith) e.0)
            (Searched-down e.1 (λ z. From-null s k l z xs nodes e.0) lower)
      | inr h ↦ elim (dec_lt h.cell.key k) [
        | yes lt ↦ rw (step-forward k f l prev xs at t (omega arith) (omega arith) h lt) (
            Searched-forward h lt (
              search_down-Searched k f (suc l) prev h.rest (IsNode-At h.node) h.node.tall h.tower
                h.nodes (omega (arith, h.reaches)) room (omega (arith, h.shorter))))
        | no ge ↦ rw (step-down k f l prev xs at t (omega arith) (omega arith) h (omega arith)) (
            Searched-down (h.stays (omega arith)) (λ z. From-Hop s k l z xs nodes h (omega arith))
              lower)
      ]
    ]
