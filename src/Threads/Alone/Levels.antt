-- ===== src/Threads/Alone/Levels.antt =====
-- The accesses of a level that a search makes, in a program that runs alone.
use skippy_rs.Base.{
  ℕ, zero, suc, ◌≡◌, refl, ◌<◌, inl, inr, arith, Bool-cases, Run, Cmd, ok, fault, panic, abort,
  out_of_fuel, and_then, ◌==◌, eq_self, eq→test, ne→not_eq,
}
use native.Mathlib.Decide.{ℕ_discrete}
use skippy_rs.Node.{Result, right, wrong}
use skippy_rs.Store.{Ptr, null, Link, link_to, SkipList, Op, on_header, in_header}
use skippy_rs.Unlinking
use skippy_rs.Unlinking.{exchange_ptr, retire_node}
use skippy_rs.Sync
use skippy_rs.Sync.{Pairs, set_pair, protect_loop, finish, search_once, SearchResult, load_removed}
use skippy_rs.Threads.{Prog, exchange, ◌>>=◌, run_op, exchange_link}
use skippy_rs.Threads.Find
use skippy_rs.Threads.Alone.{
  alone, Kept, Agrees-Kept, Like, Like-do, Like-done, Like-spent, Like-load, Like-tag,
  load_link-cases, store_link-cases, deref-cases,
}

module _ {V : Type 0} (s : SkipList V) where
  protect_same :
      (n f : ℕ) (p : Ptr) (l : ℕ) (q : Ptr)
      → Like s (protect_loop (suc n) p l q q) (Find.protect (suc f) p l q q)
  unfolding protect_loop Find.protect
  protect_same n f p l q = rw (eq_self q) (Like-done s)

  from_maybe_tagged-alone :
      (f : ℕ) (p : Ptr) (l : ℕ)
      → Like s (Sync.from_maybe_tagged p l) (Find.from_maybe_tagged (suc f) p l)
  unfolding Sync.from_maybe_tagged Find.from_maybe_tagged
  from_maybe_tagged-alone f p l =
      Like-load s _ (Like-load s _ (record { agrees = (protect_same s.len f p l _).agrees }))

  in_header-Kept : {A : Type 0} (p : Ptr) (r : Run ℕ A) → Kept s (in_header p s r)
  in_header-Kept p (ok a w) = (refl, refl, refl)
  in_header-Kept p fault = tt
  in_header-Kept p panic = tt
  in_header-Kept p abort = tt
  in_header-Kept p out_of_fuel = tt

  pub on_header-Kept : {A : Type 0} (p : Ptr) (c : Cmd ℕ A) → Kept s (on_header p c s)
  unfolding on_header
  on_header-Kept p c = elim (deref-cases s p) [
    | inl e ↦ rw e tt
    | inr e ↦ rw e (in_header-Kept p _)
  ]

  pub sub_ref-alone : (p : Ptr) → Like s (Unlinking.sub_ref p) (Find.sub_ref p)
  unfolding Unlinking.sub_ref Find.sub_ref alone run_op retire_node
  sub_ref-alone p = record {
    agrees = Agrees-Kept s _ (on_header-Kept p _) (elim [
      | wrong n ↦ λ t kept. inr (refl, tt)
      | right n ↦ λ t kept. elim (ℕ_discrete n 0) [
        | yes e ↦ rw (eq→test e) (inr (refl, (refl, refl, refl)))
        | no ne ↦ rw (ne→not_eq ne) (inr (refl, (refl, refl, refl)))
      ]
    ]);
  }

  exchange-alone :
      (p : Ptr) (l : ℕ) (expected new : Ptr)
      → exchange_ptr p l expected new s ≡ exchange_link p l (link_to expected 0) (link_to new 0) s
  unfolding exchange_ptr exchange_link
  exchange-alone p l expected new = elim (load_link-cases s p l) [
    | inl e ↦ rw e refl
    | inr e ↦ rw e refl
  ]

module _ {V : Type 0} where
  -- What follows a read of a link that is protected.
  pub Like-protect :
      {B : Type 0} {s : SkipList V} (F : ℕ) (p : Ptr) (l : ℕ) {f : Ptr → Op V B} {g : Ptr → Prog B}
      → 0 < F
      → ((q : Ptr) (t : SkipList V) → Kept {A = Ptr} s (ok q t) → Like t (f q) (g q))
      → Like s (λ t. and_then (Sync.from_maybe_tagged p l t) f) (Find.from_maybe_tagged F p l >>= g)
  Like-protect zero p l pos after = absurd (omega arith)
  Like-protect {s = s} (suc F) p l pos after = Like-do (from_maybe_tagged-alone s F p l) after

  Kept-exchange :
      (s : SkipList V) (p : Ptr) (l : ℕ) (expected new : Ptr)
      → Kept s (exchange_ptr p l expected new s)
  unfolding exchange_ptr
  Kept-exchange s p l expected new = elim (load_link-cases s p l) [
    | inl e ↦ rw e tt
    | inr e ↦ rw e (elim (Bool-cases ((s.link p l).ptr == expected)) [
      | inr t ↦ rw t (refl, refl, refl)
      | inl t ↦ elim (Bool-cases ((s.link p l).tag == 0)) [
        | inr u ↦ rw (t, u) (refl, refl, refl)
        | inl u ↦
            rw (t, u)
              (elim (store_link-cases s p l (link_to new 0)) [
                | inl f ↦ rw f tt
                | inr f ↦ rw f (refl, refl, refl)
              ])
      ]
    ])
  ]

  pub exchange-Like :
      {B : Type 0} {s : SkipList V} {p : Ptr} {l : ℕ} {expected new : Ptr}
      {f : Result Link Link → Op V B} {g : Result Link Link → Prog B}
      → ((r : Result Link Link) (t : SkipList V)
          → Kept {A = Result Link Link} s (ok r t)
          → Like t (f r) (g r))
      → Like s
          (λ t. and_then (exchange_ptr p l expected new t) f)
          (exchange p l (link_to expected 0) (link_to new 0) g)
  unfolding alone
  exchange-Like {s = s} {p = p} {l = l} {expected = e} {new = n} after = record {
    agrees =
        rw (← exchange-alone s p l e n)
          (Agrees-Kept s _ (Kept-exchange s p l e n) (λ r t kept. (after r t kept).agrees));
  }

  unlink_level-alone :
      (s : SkipList V) (prev curr next : Ptr) (l : ℕ)
      → Like s (Unlinking.unlink_level prev curr next l) (Find.unlink_level prev curr next l)
  unfolding Unlinking.unlink_level Find.unlink_level
  unlink_level-alone s prev curr next l = exchange-Like (elim [
    | wrong k ↦ λ t kept. Like-done t
    | right k ↦ λ t kept. Like-do (sub_ref-alone t curr) (λ a u kept'. Like-done u)
  ])

  pub skip_marked-alone :
      (s : SkipList V) (f F : ℕ) (curr next : Ptr) (l : ℕ)
      → f < F
      → Like s (Sync.skip_marked f curr next l) (Find.skip_marked F curr next l)
  unfolding Sync.skip_marked Find.skip_marked
  skip_marked-alone s zero F curr next l le = Like-spent s
  skip_marked-alone s (suc f) zero curr next l le = absurd (omega arith)
  skip_marked-alone s (suc f) (suc F) curr next l le = elim (Bool-cases (next == null)) [
    | inl e ↦ rw e (Like-done s)
    | inr e ↦ rw e (
        Like-tag s _ (elim (Bool-cases ((s.link next l).tag == 0)) [
          | inl f' ↦ rw f' (Like-done s)
          | inr f' ↦ rw f' (
              Like-protect F _ _ (omega arith) (λ new_next t kept.
                Like-do (unlink_level-alone t curr next new_next l) (elim [
                  | right n' ↦ λ u kept'. skip_marked-alone u f F curr n' l (omega arith)
                  | wrong e' ↦ λ u kept'. Like-done u
                ])))
        ]))
  ]
