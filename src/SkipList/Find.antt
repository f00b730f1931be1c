-- ===== src/SkipList/Find.antt =====
-- `find` of src/internal/skiplist.rs on a well-formed list: where it starts and what it returns.
mod Search
pub use Search.{IsNode-At}
use native.Mathlib.Decide.{dec_lt}
use skippy_rs.Base.{
  ℕ, zero, suc, ◌+◌, ◌-◌, ◌%◌, ◌≡◌, sym, ◌∙◌, ◌≢◌, ◌≤◌, ◌<◌, refl, ◌⊎◌, inl, inr, true, false, some,
  List, [], ◌∷◌, arith, ◌==◌, leb, lt→ltb, ne→not_eq, ok, length, if◌then◌else◌, Run,
}
use skippy_rs.Node.{usize, max_levels}
use skippy_rs.Store.{Ptr, null, SkipList, load_ptr}
use skippy_rs.Store.Access.{At, height-refs, load_ptr-ok, load_tag-ok, load_key-ok}
use skippy_rs.Cells.{Cell, next_at, pred_at, target_at, Tower, IsNode, Nodes, IsList, Low}
use skippy_rs.Cells.Levels.{Hop, hop}
use skippy_rs.SkipList.{
  Prevs, SearchResult, skip_tagged, stops, top_level, search_down, match_key, find,
}
use skippy_rs.SkipList.Find.Search.{From, Searched, note, search_down-Searched}

module _ {V : Type 0} {s : SkipList V} {xs : List (Cell V)} (is : IsList s xs) where
  pub head-At : At s s.head max_levels
  head-At = record {
    ne_null = is.head_ne_null;
    live = is.head_live;
    header = rw is.head_header (height-refs 0 max_levels (omega arith));
  }

module _ {V : Type 0} {s : SkipList V} (k : ℕ) {xs : List (Cell V)} (is : IsList s xs) where
  -- The levels above the one where the search starts hold no node.
  pub record Top (n level : ℕ) (run : Run (SkipList V) ℕ) : Type 0 where
    pub returns : run ≡ ok level s
    pub pos : 0 < level
    pub le : level ≤ n
    pub low : Low level xs

  Low-suc :
      (l : ℕ) (ys : List (Cell V)) → Nodes s ys → Low (suc l) ys → next_at l ys ≡ null → Low l ys
  Low-suc l [] n low e = tt
  Low-suc l (c ∷ ys) n low e =
      (ground (arith, n.0.ne_null), Low-suc l ys n.4 low.1 (ground (arith, n.0.ne_null)))

  top_level-null :
      (l : ℕ) → 1 < suc l → load_ptr s.head l s ≡ ok null s → top_level (suc l) s ≡ top_level l s
  unfolding top_level
  top_level-null l h e = rw (lt→ltb h, e)

  top_level-some :
      (l : ℕ) {p : Ptr}
      → 1 < suc l
      → load_ptr s.head l s ≡ ok p s
      → p ≢ null
      → top_level (suc l) s ≡ ok (suc l) s
  unfolding top_level
  top_level-some l h e ne = rw (lt→ltb h, e, ne→not_eq ne)

  top_level-one : top_level 1 s ≡ ok 1 s
  unfolding top_level
  top_level-one = refl

  pub top_level-Top :
      (n : ℕ) → 0 < n → n ≤ max_levels → Low n xs → (l : ℕ) × Top n l (top_level n s)
  top_level-Top zero pos le low = absurd (omega arith)
  top_level-Top (suc zero) pos le low =
      (1, record { returns = top_level-one; pos = pos; le = omega arith; low = low })
  top_level-Top (suc (suc n)) pos le low =
      let loaded = load_ptr-ok (head-At is) le (is.head_tower (suc n) le) in
      elim (hop (suc n) k xs is.nodes) [
        | inl e ↦
            let (l, t) =
              top_level-Top (suc n) (omega arith) (omega arith)
                (Low-suc (suc n) xs is.nodes low e.0) in
            (
              l,
              record {
                returns = rw (top_level-null (suc n) (omega arith) (rw e.0 at loaded)) t.returns;
                pos = t.pos;
                le = omega (arith, t.le);
                low = t.low;
              },
            )
        | inr h ↦ (
          suc (suc n),
          record {
            returns = top_level-some (suc n) (omega arith) loaded (rw h.leads h.node.ne_null);
            pos = pos;
            le = omega arith;
            low = low;
          },
        )
      ]

  match_key-target :
      (ys : List (Cell V))
      → Nodes s ys
      → From k ys
      → match_key k (next_at 0 ys) s ≡ ok (target_at k ys) s
  unfolding match_key
  match_key-target [] n from = refl
  match_key-target (c ∷ ys) n from =
      rw (lt→ltb n.0.tall, ne→not_eq n.0.ne_null, load_key-ok (IsNode-At n.0) n.0.key)
        (ground arith)

-- What `find` returns for the nodes `xs`.
pub record IsFound {V : Type 0} (s : SkipList V) (k : ℕ) (xs : List (Cell V)) (r : SearchResult)
    : Type 0 where
  pub prevs : (l : ℕ) → l < max_levels → r.prev l ≡ pred_at l k s.head xs
  pub target : r.target ≡ target_at k xs

module _ {V : Type 0} {s : SkipList V} (k : ℕ) {xs : List (Cell V)} (is : IsList s xs) where
  pub pred_at-Low : (l : ℕ) (p : Ptr) (ys : List (Cell V)) → Low l ys → pred_at l k p ys ≡ p
  pred_at-Low l p [] low = refl
  pred_at-Low l p (c ∷ ys) low = ground (arith, low.0, pred_at-Low l p ys low.1)

  pub Low-mono : (n m : ℕ) (ys : List (Cell V)) → n ≤ m → Low n ys → Low m ys
  Low-mono n m [] le low = tt
  Low-mono n m (c ∷ ys) le low = (omega (arith, low.0), Low-mono n m ys le low.1)

  -- On a well-formed list `find` ends and touches nothing. It returns the predecessor of the key at
  -- every level of the head, and the node with the key if there is one.
  pub find-IsFound : (r : SearchResult) × (find k s ≡ ok r s) × IsFound s k xs r
  unfolding find
  find-IsFound =
      let (level, top) = top_level-Top k is s.max_height is.some_level is.few_levels is.low in
      let start = note (λ _. s.head) (level - 1) s.head in
      let run =
        search_down-Searched k (s.max_height + s.len + 1) level start xs (head-At is) (omega arith)
          is.head_tower is.nodes (omega (arith, top.le, is.few_levels))
          (omega (arith, top.le, is.few_levels)) (omega (arith, top.le, is.counted)) in
      let room : level - 1 < max_levels = omega (arith, top.le, top.pos, is.few_levels) in
      let below : (level + usize - 1) % usize ≡ level - 1 =
        omega (arith, top.le, top.pos, is.few_levels) in
      (
        record { prev = run.out; target = target_at k xs },
        rw (
          top.returns,
          below,
          lt→ltb room,
          run.returns,
          load_ptr-ok run.last_at run.some_level (run.tower 0 run.some_level),
          match_key-target k is run.rest run.nodes (run.from (inl top.pos)),
          run.same_target,
        ),
        record {
          prevs = λ l room'. elim (dec_lt l level) [
            | yes lt ↦ run.filled l lt
            | no ge ↦
                let off = pred_at-Low l s.head xs (Low-mono level l xs (omega arith) top.low) in
                ground (arith, run.kept l, off)
          ];
          target = refl;
        },
      )
