-- ===== src/Sync/Search.antt =====
-- The descent of `find` in src/internal/sync/mod.rs, and the pairs that it fills in.
use native.Mathlib.Decide.{dec_lt}
use skippy_rs.Base.{
  ℕ, zero, suc, ◌+◌, ◌≡◌, ◌∙◌, ◌≤◌, ◌<◌, refl, inl, inr, false, List, arith, ltb, lt→ltb,
  le→not_ltb, ne→not_eq, eq_self, ok, length, Run,
}
use skippy_rs.Node.{Result, right, max_levels}
use skippy_rs.Store.{Ptr, null, SkipList, link_to}
use skippy_rs.Store.Access.{At, load_ptr-ok, load_tag-ok, load_key-ok}
use skippy_rs.Cells.{Cell, next_at, pred_at, succ_at, Tower, Nodes}
use skippy_rs.Cells.Levels.{Hop, hop}
use skippy_rs.SkipList.Find.{IsNode-At}
use skippy_rs.Sync.{
  Pairs, set_pair, protect_loop, from_maybe_tagged, init_prev, skip_marked, precedes, search_levels,
}

module _ {V : Type 0} where
  -- With no other thread the pointer that is protected is the one that was read.
  pub from_maybe_tagged-ok :
      {s : SkipList V} {p n l : ℕ} {q : Ptr} {t : ℕ}
      → At s p n
      → l < n
      → s.link p l ≡ link_to q t
      → from_maybe_tagged p l s ≡ ok q s
  unfolding from_maybe_tagged protect_loop
  from_maybe_tagged-ok {q = q} at lt e =
      let loaded = load_ptr-ok at lt e in rw (loaded, loaded, eq_self q)

  skip_marked-null :
      {s : SkipList V} (f : ℕ) (curr : Ptr) (l : ℕ)
      → 0 < f
      → skip_marked f curr null l s ≡ ok (right null) s
  unfolding skip_marked
  skip_marked-null zero curr l pos = absurd (omega arith)
  skip_marked-null (suc f) curr l pos = refl

  precedes-null : {s : SkipList V} (k : ℕ) → precedes k null s ≡ ok false s
  unfolding precedes
  precedes-null k = refl

  -- The levels from `i` on that are left hold the head and its successor.
  pub init_prev-filled :
      {s : SkipList V} {head : Ptr} (xs : List (Cell V)) (n i : ℕ) (prev : Pairs)
      → At s head max_levels
      → i + n ≤ max_levels
      → Tower s head max_levels xs
      → (out : Pairs) × (init_prev head n i prev s ≡ ok out s)
        × ((l : ℕ) → l < i → out l ≡ prev l)
        × ((l : ℕ) → i ≤ l → l < i + n → out l ≡ (head, next_at l xs))
  unfolding init_prev
  init_prev-filled xs zero i prev at room t =
      (prev, refl, λ l lt. refl, λ l ge lt. absurd (omega arith))
  init_prev-filled {head} xs (suc n) i prev at room t =
      let pair : Ptr × Ptr = (head, next_at i xs) in
      let (out, run, old, new) =
        init_prev-filled xs n (i + 1) (set_pair prev i pair) at (omega arith) t in
      (
        out,
        rw (from_maybe_tagged-ok at (omega arith) (t i (omega arith))) run,
        λ l lt. old l (omega arith) ∙ (rw (ne→not_eq {a = l} {b = i} (omega arith))),
        λ l ge lt. elim (dec_lt i l) [
          | yes after ↦ new l (omega arith) (omega arith)
          | no at_i ↦
              let same : l ≡ i = omega arith in old l (omega arith) ∙ (rw same (rw (eq_self i)))
        ],
      )

module _ {V : Type 0} {s : SkipList V} (k l : ℕ) {xs : List (Cell V)} (h : Hop s l k xs) where
  skip_marked-live :
      (f : ℕ) (curr : Ptr) → 0 < f → skip_marked f curr h.cell.addr l s ≡ ok (right h.cell.addr) s
  unfolding skip_marked
  skip_marked-live zero curr pos = absurd (omega arith)
  skip_marked-live (suc f) curr pos =
      rw (ne→not_eq h.node.ne_null, load_tag-ok (IsNode-At h.node) h.reaches (h.tower l h.reaches))

  precedes-key : precedes k h.cell.addr s ≡ ok (ltb h.cell.key k) s
  unfolding precedes
  precedes-key = rw (ne→not_eq h.node.ne_null, load_key-ok (IsNode-At h.node) h.node.key)

-- What the descent leaves: a node before the key, and the pairs of the levels it went through.
pub record Explored {V : Type 0} (s : SkipList V) (k : ℕ) (xs : List (Cell V)) (level : ℕ)
    (curr : Ptr) (prev : Pairs) (run : Run (SkipList V) (Result (Ptr × Pairs) Pairs)) : Type 0 where
  pub last : Ptr
  pub out : Pairs
  pub tall : ℕ
  pub returns : run ≡ ok (right (last, out)) s
  pub filled : (m : ℕ) → m < level → out m ≡ (pred_at m k curr xs, succ_at m k xs)
  pub kept : (m : ℕ) → level ≤ m → out m ≡ prev m
  pub last_at : At s last tall

-- One round at a node whose level `l` leads into `xs`.
module _ {V : Type 0} {s : SkipList V} (k skips f l : ℕ) {curr n : ℕ} (prev : Pairs)
    (xs : List (Cell V)) (at : At s curr n) (t : Tower s curr n xs) (below : l < n)
    (some_skip : 0 < skips) where
  step-null :
      next_at l xs ≡ null
      → search_levels k skips (suc f) curr prev (suc l) s
        ≡ search_levels k skips f curr (set_pair prev l (curr, null)) l s
  unfolding search_levels
  step-null e = rw (
    from_maybe_tagged-ok at below (t l below),
    e,
    skip_marked-null skips curr l some_skip,
    precedes-null k,
  )

  step-down :
      (h : Hop s l k xs)
      → k ≤ h.cell.key
      → search_levels k skips (suc f) curr prev (suc l) s
        ≡ search_levels k skips f curr (set_pair prev l (curr, h.cell.addr)) l s
  unfolding search_levels
  step-down h le = rw (
    from_maybe_tagged-ok at below (t l below),
    h.leads,
    skip_marked-live k l h skips curr some_skip,
    precedes-key k l h,
    le→not_ltb {a = h.cell.key} {b = k} le,
  )

  step-forward :
      (h : Hop s l k xs)
      → h.cell.key < k
      → search_levels k skips (suc f) curr prev (suc l) s
        ≡ search_levels k skips f h.cell.addr (set_pair prev l (curr, h.cell.addr)) (suc l) s
  unfolding search_levels
  step-forward h lt = rw (
    from_maybe_tagged-ok at below (t l below),
    h.leads,
    skip_marked-live k l h skips curr some_skip,
    precedes-key k l h,
    lt→ltb lt,
  )

module _ {V : Type 0} {s : SkipList V} {k l : ℕ} {curr : Ptr} {prev : Pairs} {xs : List (Cell V)}
    {run : Run (SkipList V) (Result (Ptr × Pairs) Pairs)} where
  Explored-down :
      (succ : Ptr)
      → ((p : Ptr) → pred_at l k p xs ≡ p)
      → succ_at l k xs ≡ succ
      → Explored s k xs l curr (set_pair prev l (curr, succ)) run
      → Explored s k xs (suc l) curr prev run
  Explored-down succ stay next r = record {
    last = r.last;
    out = r.out;
    tall = r.tall;
    returns = r.returns;
    filled = λ m lt. elim (dec_lt m l) [
      | yes below ↦ r.filled m below
      | no at ↦
          let e : m ≡ l = omega arith in
          rw (e, stay curr, next) (r.kept l (omega arith) ∙ (rw (eq_self l)))
    ];
    kept = λ m ge. r.kept m (omega arith) ∙ (rw (ne→not_eq {a = m} {b = l} (omega arith)));
    last_at = r.last_at;
  }

  Explored-forward :
      (h : Hop s l k xs)
      → h.cell.key < k
      → Explored s k h.rest (suc l) h.cell.addr (set_pair prev l (curr, h.cell.addr)) run
      → Explored s k xs (suc l) curr prev run
  Explored-forward h lt r = record {
    last = r.last;
    out = r.out;
    tall = r.tall;
    returns = r.returns;
    filled =
        λ m below. rw (h.passed lt m (omega arith) curr, h.succ_passed lt m) (r.filled m below);
    kept = λ m ge. r.kept m ge ∙ (rw (ne→not_eq {a = m} {b = l} (omega arith)));
    last_at = r.last_at;
  }

-- The descent from a node with enough fuel: it ends, changes nothing and notes the pairs.
pub search_levels-Explored :
    {V : Type 0} {s : SkipList V} (k skips f level : ℕ) {curr n : ℕ} (prev : Pairs)
    (xs : List (Cell V))
    → 0 < skips
    → At s curr n
    → Tower s curr n xs
    → Nodes s xs
    → level ≤ n
    → level + length xs < f
    → Explored s k xs level curr prev (search_levels k skips f curr prev level s)
unfolding search_levels
search_levels-Explored k skips zero level prev xs pos at t nodes le fuel = absurd (omega arith)
search_levels-Explored k skips (suc f) zero {curr} {n} prev xs pos at t nodes le fuel = record {
  last = curr;
  out = prev;
  tall = n;
  returns = refl;
  filled = λ m lt. absurd (omega arith);
  kept = λ m ge. refl;
  last_at = at;
}
search_levels-Explored {s = s} k skips (suc f) (suc l) {curr} {n} prev xs pos at t nodes le fuel =
    let lower = λ (succ : Ptr).
      search_levels-Explored k skips f l (set_pair prev l (curr, succ)) xs pos at t nodes
        (omega arith) (omega arith) in
    elim (hop l k xs nodes) [
      | inl e ↦
          rw (step-null k skips f l prev xs at t (omega arith) pos e.0)
            (Explored-down null e.1 e.2 (lower null))
      | inr h ↦ elim (dec_lt h.cell.key k) [
        | yes lt ↦ rw (step-forward k skips f l prev xs at t (omega arith) pos h lt) (
            Explored-forward h lt (
              search_levels-Explored k skips f (suc l) (set_pair prev l (curr, h.cell.addr)) h.rest
                pos (IsNode-At h.node) h.tower h.nodes (omega (arith, h.reaches))
                (omega (arith, h.shorter))))
        | no ge ↦ rw (step-down k skips f l prev xs at t (omega arith) pos h (omega arith)) (
            Explored-down h.cell.addr (h.stays (omega arith)) (h.succ_stays (omega arith))
              (lower h.cell.addr))
      ]
    ]
