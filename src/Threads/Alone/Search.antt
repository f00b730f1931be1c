-- ===== src/Threads/Alone/Search.antt =====
-- The search of a program that runs alone.
use skippy_rs.Base.{
  and_then-regroup, ℕ, zero, suc, ◌+◌, refl, ◌∙◌, ◌<◌, inl, inr, arith, Bool-cases, true, false, ok,
  pure, and_then, ◌==◌, if◌then◌else◌, ltb, none, ◌≡◌,
}
use mathlib.Core.Path.{subst}
use skippy_rs.Node.{Result, right, wrong, max_levels}
use skippy_rs.Store.{Ptr, null, SkipList, Op, load_ptr}
use skippy_rs.Basics.{is_empty}
use skippy_rs.SkipList
use skippy_rs.Sync
use skippy_rs.Sync.{Pairs, set_pair, protect_loop, finish, search_once, SearchResult, load_removed}
use skippy_rs.Threads.Find
use skippy_rs.Threads.Methods
use skippy_rs.Threads.Alone.{
  Like, Like-do, Like-done, Like-spent, Like-load, Like-key, Like-at, Like-header, Like-max,
  Like-len,
}
use skippy_rs.Threads.Alone.Levels.{Like-protect, skip_marked-alone}

module _ {V : Type 0} where
  precedes-alone :
      (s : SkipList V) (k : ℕ) (next : Ptr) → Like s (Sync.precedes k next) (Find.precedes k next)
  unfolding Sync.precedes Find.precedes
  precedes-alone s k next = elim (Bool-cases (next == null)) [
    | inl e ↦ rw e (Like-done s)
    | inr e ↦ rw e (Like-key s (λ j found. Like-done s))
  ]

  search_levels-alone :
      (s : SkipList V) (k skips f F : ℕ) (curr : Ptr) (prev : Pairs) (level : ℕ)
      → f + skips < F
      → Like s
          (Sync.search_levels k skips f curr prev level)
          (Find.search_levels F k curr prev level)
  unfolding Sync.search_levels Find.search_levels
  search_levels-alone s k skips zero F curr prev level le = Like-spent s
  search_levels-alone s k skips (suc f) zero curr prev level le = absurd (omega arith)
  search_levels-alone s k skips (suc f) (suc F) curr prev zero le = Like-done s
  search_levels-alone s k skips (suc f) (suc F) curr prev (suc l) le =
      Like-protect F _ _ (omega arith) (λ first t kept.
        Like-do (skip_marked-alone t skips F curr first l (omega arith)) (elim [
          | wrong e ↦ λ u kept'. Like-done u
          | right next ↦ λ u kept'. Like-do (precedes-alone u k next) (elim [
            | true ↦ λ v kept''. search_levels-alone v k skips f F next _ (suc l) (omega arith)
            | false ↦ λ v kept''. search_levels-alone v k skips f F curr _ l (omega arith)
          ])
        ]))

  match_live-alone :
      (s : SkipList V) (k : ℕ) (next : Ptr)
      → Like s (Sync.match_live k next) (Find.match_live k next)
  unfolding Sync.match_live Find.match_live load_removed
  match_live-alone s k next = elim (Bool-cases (next == null)) [
    | inl e ↦ rw e (Like-done s)
    | inr e ↦ rw e (
        Like-key s (λ j found. elim (Bool-cases (j == k)) [
          | inl f ↦ rw f (Like-header s found (Like-at s (rw found refl) (Like-done s)))
          | inr f ↦ rw f (Like-at s (rw found refl) (Like-done s))
        ]))
  ]

  top_level-alone :
      (s : SkipList V) (n : ℕ) → Like s (SkipList.top_level n) (Find.top_level s.head n)
  unfolding SkipList.top_level Find.top_level
  top_level-alone s zero = Like-done s
  top_level-alone s (suc n) = elim (Bool-cases (ltb 1 (suc n))) [
    | inl e ↦ rw e (
        Like-at s
          {c' = λ t.
            and_then (load_ptr s.head n t)
              (λ p. if p == null then SkipList.top_level n else pure (suc n))}
          (rw e refl)
          (Like-load s _ (elim (Bool-cases ((s.link s.head n).ptr == null)) [
            | inl f ↦ rw f (top_level-alone s n)
            | inr f ↦ rw f (Like-done s)
          ])))
    | inr e ↦ rw e (Like-at s {c' = λ t. ok (suc n) t} (rw e refl) (Like-done s))
  ]

  init_prev-alone :
      (s : SkipList V) (F : ℕ) (head : Ptr) (n i : ℕ) (prev : Pairs)
      → 0 < F
      → Like s (Sync.init_prev head n i prev) (Find.init_prev F head n i prev)
  unfolding Sync.init_prev Find.init_prev
  init_prev-alone s F head zero i prev pos = Like-done s
  init_prev-alone s F head (suc n) i prev pos =
      Like-protect F _ _ pos (λ next t kept. init_prev-alone t F head n (i + 1) _ pos)

  -- The fuel that a search needs, on top of its rounds.
  abbrev pub enough : SkipList V → ℕ
  enough s = s.max_height + s.len + 1 + (s.len + 1)

  abbrev onward : ℕ → ℕ → Result SearchResult Pairs → Op V SearchResult
  onward f k (right at) = pure at
  onward f k (wrong p) = Sync.search f k false p

  abbrev finish_round : ℕ → ℕ → Result (Ptr × Pairs) Pairs → Op V (Result SearchResult Pairs)
  finish_round k skips (right found) = finish k false skips found
  finish_round k skips (wrong p) = pure (wrong p)

  search-alone :
      (s : SkipList V) (k f F : ℕ) (prev : Pairs)
      → f + enough s < F
      → Like s (Sync.search f k false prev) (Find.search F s.head k prev)
  unfolding Sync.search Find.search search_once finish
  search-alone s k zero F prev le = Like-spent s
  search-alone s k (suc f) zero prev le = absurd (omega arith)
  search-alone s k (suc f) (suc F) prev le =
      Like-at s
        (and_then-regroup (SkipList.top_level s.max_height s)
          (λ level. Sync.search_levels k (s.len + 1) (s.max_height + s.len + 1) s.head prev level)
          (finish_round k (s.len + 1)) (onward f k))
        (Like-max s (
          Like-do (top_level-alone s s.max_height) (λ level t kept.
            Like-do {f = λ r v. and_then (finish_round k (s.len + 1) r v) (onward f k)}
              (search_levels-alone t k (s.len + 1) (s.max_height + s.len + 1) F s.head prev level
                (omega arith))
              (elim [
                | wrong p ↦ λ u kept'.
                    subst (λ h. Like u (Sync.search f k false p) (Find.search F h k p))
                      (kept'.2 ∙ kept.2) (search-alone u k f F p (omega (arith, kept, kept')))
                | right found ↦ λ u kept'.
                    Like-at u
                      (and_then-regroup (Sync.from_maybe_tagged (found.1 0).0 0 u)
                        (λ next. Sync.match_live k next)
                        (λ target. pure (right (record { prev = found.1; target = target })))
                        (onward f k))
                      (Like-protect F _ _ (omega arith) (λ next v kept''.
                        Like-do (match_live-alone v k next) (λ target w last. Like-done w)))
              ]))))

  pub find-alone :
      (s : SkipList V) (k F : ℕ)
      → s.len + 1 + enough s < F
      → Like s (Sync.find k false) (Find.find F s.head k)
  unfolding Sync.find Find.find
  find-alone s k F le =
      Like-at s
        {c' = λ t.
          and_then (Sync.init_prev s.head max_levels 0 _ t)
            (λ prev. Sync.search (suc s.len) k false prev)}
        refl
        (Like-do (init_prev-alone s F s.head max_levels 0 _ (omega arith)) (λ prev t kept.
          subst (λ h. Like t (Sync.search (suc s.len) k false prev) (Find.search F h k prev)) kept.2
            (search-alone t k (suc s.len) F prev (omega (arith, kept)))))

  pub find_at-alone :
      (s : SkipList V) {head : Ptr} (k F : ℕ)
      → s.head ≡ head
      → s.len + 1 + enough s < F
      → Like s (Sync.find k false) (Find.find F head k)
  find_at-alone s k F same fuel =
      subst (λ a. Like s (Sync.find k false) (Find.find F a k)) same (find-alone s k F fuel)

  -- A thread that runs `get` with no other thread in between does what `Sync.get` does: with enough fuel for
  -- the loops of its program, the run is the same, unless `Sync.get` runs out of its own fuel.
  pub get-alone :
      (s : SkipList V) (k F : ℕ)
      → s.len + 1 + enough s < F
      → Like s (Sync.get k) (Methods.get F s.head k)
  unfolding Sync.get Methods.get is_empty
  get-alone s k F le = Like-len s (elim (Bool-cases (ltb s.len 1)) [
    | inl e ↦ rw e (Like-at s {c' = λ t. ok none t} (rw e refl) (Like-done s))
    | inr e ↦ rw e (
        Like-at s {c' = λ t. and_then (Sync.find k false t) (λ at. pure at.target)} (rw e refl)
          (Like-do (find-alone s k F le) (λ at t kept. Like-done t)))
  ])
