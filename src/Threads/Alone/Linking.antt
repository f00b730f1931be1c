-- ===== src/Threads/Alone/Linking.antt =====
-- How a program that runs alone links a node, against `link_nodes` in Sync.Update.
use skippy_rs.Base.{
  ℕ, zero, suc, ◌+◌, ◌≡◌, refl, ◌∙◌, ◌<◌, inl, inr, arith, Bool, Bool-cases, true, false, Run, Cmd,
  ok, fault, panic, abort, out_of_fuel, and_then, and_then_assoc, ◌==◌, leb,
}
use skippy_rs.Node
use skippy_rs.Node.{Result, right, wrong, removed, height, add_ref, try_add_ref}
use skippy_rs.Store.{Ptr, null, SkipList, Op, on_header, in_header}
use skippy_rs.Sync.{Pairs, load_removed}
use skippy_rs.Sync.Update
use skippy_rs.Threads.{Prog, add, try_add, sub, read_header, write_header, run_op, as_result}
use skippy_rs.Threads.Insert
use skippy_rs.Threads.Alone.{
  alone, Kept, Agrees-Kept, Like, Like-do, Like-done, Like-at, Like-load, Like-key, deref-cases,
}
use skippy_rs.Threads.Alone.Levels.{exchange-Like, on_header-Kept}
use skippy_rs.Threads.Alone.Marking.{Like-height}
use skippy_rs.Threads.Alone.Search.{enough, find_at-alone}

module _ {V : Type 0} (s : SkipList V) where
  -- A read of the flag of a node.
  Like-removed :
      {B : Type 0} {p : Ptr} (f : Bool → Op V B) {g : ℕ → Prog B}
      → Like s (f (removed (s.header p))) (g (s.header p))
      → Like s (λ t. and_then (load_removed p t) f) (read_header p g)
  unfolding load_removed alone
  Like-removed {p = p} f after = record {
    agrees = elim (deref-cases s p) [ inl e ↦ rw e (inr (refl, tt)) | inr e ↦ rw e after.agrees ];
  }

  in_header-as_result :
      (p : Ptr) (x : Run ℕ ℕ)
      → in_header p s (as_result {A = ℕ} x) ≡ and_then (in_header p s x) (λ n t. ok (right n) t)
  in_header-as_result p (ok n w) = refl
  in_header-as_result p fault = refl
  in_header-as_result p panic = refl
  in_header-as_result p abort = refl
  in_header-as_result p out_of_fuel = refl

  on_header-as_result :
      (p : Ptr) (c : Cmd ℕ ℕ)
      → on_header p (λ w. as_result {A = ℕ} (c w)) s
        ≡ and_then (on_header p c s) (λ n t. ok (right n) t)
  unfolding on_header
  on_header-as_result p c = elim (deref-cases s p) [
    | inl e ↦ rw e refl
    | inr e ↦ rw e (in_header-as_result p (c (s.header p)))
  ]

module _ {V : Type 0} {B : Type 0} {s : SkipList V} {p : Ptr} where
  Like-add :
      {f : ℕ → Op V B} {g : Result ℕ ℕ → Prog B}
      → ((n : ℕ) (t : SkipList V) → Kept {A = ℕ} s (ok n t) → Like t (f n) (g (right n)))
      → Like s (λ t. and_then (on_header p add_ref t) f) (write_header p add g)
  unfolding alone run_op
  Like-add after = record {
    agrees =
        rw (on_header-as_result s p add_ref, and_then_assoc (on_header p add_ref s) _ _)
          (Agrees-Kept s _ (on_header-Kept s p add_ref) (λ n t kept. (after n t kept).agrees));
  }

  Like-sub :
      {f : ℕ → Op V B} {g : Result ℕ ℕ → Prog B}
      → ((n : ℕ) (t : SkipList V) → Kept {A = ℕ} s (ok n t) → Like t (f n) (g (right n)))
      → Like s (λ t. and_then (on_header p Node.sub_ref t) f) (write_header p sub g)
  unfolding alone run_op
  Like-sub after = record {
    agrees =
        rw (on_header-as_result s p Node.sub_ref, and_then_assoc (on_header p Node.sub_ref s) _ _)
          (Agrees-Kept s _ (on_header-Kept s p Node.sub_ref) (λ n t kept. (after n t kept).agrees));
  }

  Like-try_add :
      {f : Result ℕ ℕ → Op V B} {g : Result ℕ ℕ → Prog B}
      → ((r : Result ℕ ℕ) (t : SkipList V) → Kept {A = Result ℕ ℕ} s (ok r t) → Like t (f r) (g r))
      → Like s (λ t. and_then (on_header p try_add_ref t) f) (write_header p try_add g)
  unfolding alone run_op
  Like-try_add after = record {
    agrees = Agrees-Kept s _ (on_header-Kept s p try_add_ref) (λ r t kept. (after r t kept).agrees);
  }

module _ {V : Type 0} where
  overtaken-alone :
      (s : SkipList V) (new next : Ptr)
      → Like s (Update.overtaken new next) (Insert.overtaken new next)
  unfolding Update.overtaken Insert.overtaken load_removed
  overtaken-alone s new next = elim (Bool-cases (next == null)) [
    | inl e ↦ rw e (Like-done s)
    | inr e ↦ rw e (
        Like-key s (λ j there. Like-key s (λ k found. elim (Bool-cases (leb j k)) [
          | inl le ↦ rw le (Like-removed s _ (Like-done s))
          | inr gt ↦ rw gt (Like-at s (rw found refl) (Like-done s))
        ])))
  ]

  count_level-alone :
      (s : SkipList V) (new : Ptr) (i : ℕ)
      → Like s (Update.count_level new i) (Insert.count_level new i)
  unfolding Update.count_level Insert.count_level
  count_level-alone s new i = elim (Bool-cases (i == 0)) [
    | inl e ↦ rw e (Like-add (λ n t kept. Like-done t))
    | inr e ↦
        rw e (
          Like-try_add (elim [ right n ↦ λ t kept. Like-done t | wrong n ↦ λ t kept. Like-done t ]))
  ]

  link_levels-alone :
      (s : SkipList V) (new : Ptr) (prev : Pairs) (n i : ℕ)
      → Like s (Update.link_levels new prev n i) (Insert.link_levels new prev n i)
  unfolding Update.link_levels Insert.link_levels
  link_levels-alone s new prev zero i = Like-done s
  link_levels-alone s new prev (suc n) i = Like-load s _ (
      Like-removed s _ (elim (Bool-cases (removed (s.header new))) [
        | inl e ↦ rw e (Like-done s)
        | inr e ↦ rw e (
            Like-do (overtaken-alone s new (prev i).1) (elim [
              | true ↦ λ t kept. Like-done t
              | false ↦ λ t kept. exchange-Like (elim [
                | wrong now ↦ λ u kept'. Like-done u
                | right old ↦ λ u kept'. Like-do (count_level-alone u new i) (elim [
                  | false ↦ λ v last. Like-done v
                  | true ↦ λ v last. exchange-Like (elim [
                    | wrong now ↦ λ w end. Like-sub (λ c x kept''. Like-done x)
                    | right before ↦ λ w end. link_levels-alone w new prev n (i + 1)
                  ])
                ])
              ])
            ]))
      ]))

  pub link_nodes-alone :
      (s : SkipList V) {head : Ptr} (F : ℕ) (new : Ptr) (prev : Pairs) (start : ℕ)
      → s.head ≡ head
      → s.len + 1 + enough s < F
      → Like s (Update.link_nodes new prev start) (Insert.link_nodes F head new prev start)
  unfolding Update.link_nodes Insert.link_nodes Update.after_links
  link_nodes-alone s F new prev start same fuel = Like-height s _ (
      Like-do (link_levels-alone s new prev _ start) (elim [
        | wrong i ↦ λ t kept. Like-done t
        | right all ↦ λ t kept. Like-removed t _ (elim (Bool-cases (removed (t.header new))) [
          | inr e ↦ rw e (Like-done t)
          | inl e ↦ rw e (
              Like-key t (λ k found.
                Like-do (find_at-alone t k F (kept.2 ∙ same) (omega (arith, kept)))
                  (λ at u kept'. Like-done u)))
        ])
      ]))
