-- ===== src/Threads/Alone/Removing.antt =====
-- `remove` of a thread that runs alone, against its model in Sync.Update with a domain of hazard pointers that
-- frees nothing.
use skippy_rs.Base.{
  Run, fault, abort, false, true, ℕ, zero, suc, ◌+◌, ◌-◌, ◌%◌, ◌≡◌, refl, sym, ◌∙◌, ◌<◌, inl, inr,
  arith, Bool-cases, ok, panic, out_of_fuel, and_then, pure, ◌==◌, and_then_assoc, and_then-ext,
  min, ap, Option, none, some,
}
use mathlib.Core.Path.{subst}
use skippy_rs.Node.{Result, right, wrong, height, usize, max_levels}
use skippy_rs.Store.{Ptr, SkipList, Op, load_height}
use skippy_rs.Sync.{Pairs}
use skippy_rs.Sync.Update
use skippy_rs.Threads.{Prog, done, add_len, read_header, ◌>>=◌}
use skippy_rs.Threads.Methods
use skippy_rs.Threads.Alone.{
  alone, alone-bind, Kept, Like, Like-do, Like-done, Like-load, Like-crash, deref-cases,
}
use skippy_rs.Threads.Alone.Ending.{Ending, Ending-Like, Ending-at, Ending-do, alone_assoc, quiet}
use skippy_rs.Threads.Alone.Levels.{exchange-Like, sub_ref-alone}
use skippy_rs.Threads.Alone.Marking.{set_removed-alone, tag_levels-alone}
use skippy_rs.Threads.Alone.Search.{enough, find-alone, find_at-alone}

same_len : (n : ℕ) → (n + (usize - 1)) % usize ≡ (n + usize - 1) % usize
same_len n = ap (λ m. m % usize) (omega arith)

abbrev close : Result (Unit {0}) ℕ → Prog (Result (Unit {0}) ℕ)
close (wrong i) = done (wrong i)
close (right all) = add_len (usize - 1) (done (right tt))

module _ {V : Type 0} where
  unlink_levels-alone :
      (s : SkipList V) (node : Ptr) (prev : Pairs) (i : ℕ)
      → Like s (Update.unlink_levels node prev i) (Methods.unlink_levels node prev i)
  unfolding Update.unlink_levels Methods.unlink_levels
  unlink_levels-alone s node prev zero = Like-done s
  unlink_levels-alone s node prev (suc i) = Like-load s _ (
      exchange-Like (elim [
        | wrong now ↦ λ t kept. Like-done t
        | right old ↦ λ t kept. Like-do (sub_ref-alone t node) (elim [
          | none ↦ λ u kept'. Like-done u
          | some x ↦ λ u kept'. unlink_levels-alone u node prev i
        ])
      ]))

  counted-alone :
      {B : Type 0} (t : SkipList V) (g : Result (Unit {0}) ℕ → Prog B)
      → alone (add_len (usize - 1) (done (right tt)) >>= g) t
        ≡ alone (g (right tt)) (record t { len = (t.len + usize - 1) % usize })
  unfolding alone ◌>>=◌
  counted-alone t g = ap (λ n. alone (g (right tt)) (record t { len = n })) (same_len t.len)

  given-alone :
      {A B : Type 0} (a : A) (g : A → Prog B) (t : SkipList V)
      → alone (done a >>= g) t ≡ alone (g a) t
  unfolding ◌>>=◌
  given-alone a g t = refl

  close-unlink :
      (s : SkipList V) (node : Ptr) (h : ℕ) (prev : Pairs)
      → (node == s.head) ≡ false
      → (t : SkipList V)
      → alone (Methods.unlink s.head node h prev) t
        ≡ alone (Methods.unlink_levels node prev (min max_levels h) >>= close) t
  unfolding Methods.unlink
  close-unlink s node h prev e t = rw e (
      alone-bind (Methods.unlink_levels node prev (min max_levels h)) _ t
      ∙ and_then-ext (alone (Methods.unlink_levels node prev (min max_levels h)) t)
          (elim [ wrong i ↦ λ u. refl | right all ↦ λ u. refl ])
      ∙ sym (alone-bind (Methods.unlink_levels node prev (min max_levels h)) close t))

  unlink-close :
      {B : Type 0} (s : SkipList V) (node : Ptr) (h : ℕ) (prev : Pairs)
      (g : Result (Unit {0}) ℕ → Prog B)
      → (node == s.head) ≡ false
      → alone (Methods.unlink s.head node h prev >>= g) s
        ≡ alone (Methods.unlink_levels node prev (min max_levels h) >>= (λ r. close r >>= g)) s
  unlink-close s node h prev g e =
      alone-bind (Methods.unlink s.head node h prev) g s
      ∙ ap (λ x. and_then x (λ a. alone (g a))) (close-unlink s node h prev e s)
      ∙ sym (alone-bind (Methods.unlink_levels node prev (min max_levels h) >>= close) g s)
      ∙ alone_assoc (Methods.unlink_levels node prev (min max_levels h)) close g s

  unlink-head :
      {B : Type 0} (s : SkipList V) (node : Ptr) (h : ℕ) (prev : Pairs)
      (f : Result (Unit {0}) ℕ → Op V B) (g : Result (Unit {0}) ℕ → Prog B)
      → (node == s.head) ≡ true
      → alone (Methods.unlink s.head node h prev >>= g) s
        ≡ and_then (Update.unlink quiet node h prev s) f
  unfolding Update.unlink Methods.unlink alone ◌>>=◌
  unlink-head s node h prev f g e = rw e refl

  -- What `unlink` does once the levels are unlinked.
  abbrev count_out : Result (Unit {0}) ℕ → Op V (Result (Unit {0}) ℕ)
  count_out (wrong i) = pure (wrong i)
  count_out (right all) = λ t. ok (right tt) (record t { len = (t.len + usize - 1) % usize })

  count_out-unlink :
      (s : SkipList V) (node : Ptr) (h : ℕ) (prev : Pairs)
      → (node == s.head) ≡ false
      → Update.unlink quiet node h prev s
        ≡ and_then (Update.unlink_levels node prev (min max_levels h) s) count_out
  unfolding Update.unlink
  count_out-unlink s node h prev e = rw e (
      and_then-ext (Update.unlink_levels node prev (min max_levels h) s)
        (elim [ wrong i ↦ λ t. refl | right all ↦ λ t. refl ]))

  unlink-Ending :
      {B : Type 0} (s : SkipList V) (node : Ptr) (h : ℕ) (prev : Pairs)
      (f : Result (Unit {0}) ℕ → Op V B) (g : Result (Unit {0}) ℕ → Prog B)
      → ((t : SkipList V) → Ending t (f (right tt)) (g (right tt)))
      → ((i : ℕ) (t : SkipList V) → Kept {A = ℕ} s (ok i t) → Ending t (f (wrong i)) (g (wrong i)))
      → Ending s
          (λ t. and_then (Update.unlink quiet node h prev t) f)
          (Methods.unlink s.head node h prev >>= g)
  unlink-Ending s node h prev f g all some_left = elim (Bool-cases (node == s.head)) [
    | inl e ↦ record { ends = inr (unlink-head s node h prev f g e) }
    | inr e ↦
        Ending-at
          {c' = λ t.
            and_then (Update.unlink_levels node prev (min max_levels h) t)
              (λ r v. and_then (count_out r v) f)}
          {m' = Methods.unlink_levels node prev (min max_levels h) >>= (λ r. close r >>= g)}
          (rw (count_out-unlink s node h prev e)
            (and_then_assoc (Update.unlink_levels node prev (min max_levels h) s) count_out f))
          (unlink-close s node h prev g e)
          (Ending-do (unlink_levels-alone s node prev _) (elim [
            | wrong i ↦ λ t kept. Ending-at refl (given-alone _ g t) (some_left i t kept)
            | right done_all ↦ λ t kept. record { ends = rw (counted-alone t g) (all _).ends }
          ]))
  ]

  Like-run_done : {A : Type 0} (t : SkipList V) {a : A} → Like t (alone (done a)) (done a)
  unfolding alone
  Like-run_done t = Like-done t

  unlink_at-Ending :
      {B : Type 0} (s : SkipList V) {head : Ptr} (node : Ptr) (h : ℕ) (prev : Pairs)
      (f : Result (Unit {0}) ℕ → Op V B) (g : Result (Unit {0}) ℕ → Prog B)
      → s.head ≡ head
      → ((t : SkipList V) → Ending t (f (right tt)) (g (right tt)))
      → ((i : ℕ) (t : SkipList V) → Kept {A = ℕ} s (ok i t) → Ending t (f (wrong i)) (g (wrong i)))
      → Ending s
          (λ t. and_then (Update.unlink quiet node h prev t) f)
          (Methods.unlink head node h prev >>= g)
  unlink_at-Ending s node h prev f g same all some_left =
      subst
        (λ a.
          Ending s (λ t. and_then (Update.unlink quiet node h prev t) f)
            (Methods.unlink a node h prev >>= g))
        same (unlink-Ending s node h prev f g all some_left)

  and_then_done : {A : Type 0} (x : Run (SkipList V) A) → and_then x (λ a. alone (done a)) ≡ x
  unfolding alone
  and_then_done (ok a t) = refl
  and_then_done fault = refl
  and_then_done panic = refl
  and_then_done abort = refl
  and_then_done out_of_fuel = refl

  pub unlink_alone-Ending :
      (s : SkipList V) {head : Ptr} (node : Ptr) (h : ℕ) (prev : Pairs)
      → s.head ≡ head
      → Ending s (Update.unlink quiet node h prev) (Methods.unlink head node h prev)
  unlink_alone-Ending s {head = head} node h prev same =
      Ending-at (sym (and_then_done (Update.unlink quiet node h prev s)))
        (sym (alone-bind (Methods.unlink head node h prev) done s ∙ and_then_done _))
        (unlink_at-Ending s node h prev (λ r. alone (done r)) done same
          (λ t. Ending-Like (Like-run_done t)) (λ i t kept. Ending-Like (Like-run_done t)))

  Ending-height :
      {B : Type 0} (s : SkipList V) {p : Ptr} (f : ℕ → Op V B) {g : ℕ → Prog B}
      → Ending s (f (height (s.header p))) (g (s.header p))
      → Ending s (λ t. and_then (load_height p t) f) (read_header p g)
  unfolding load_height alone
  Ending-height s {p = p} f after = record {
    ends = elim (deref-cases s p) [ inl e ↦ rw e (inr refl) | inr e ↦ rw e after.ends ];
  }

  remove_target-Ending :
      (s : SkipList V) {head : Ptr} (F k : ℕ) (target : Ptr) (prev : Pairs)
      → s.head ≡ head
      → s.len + 1 + enough s < F
      → Ending s
          (Update.remove_target quiet k target prev)
          (Methods.remove_target F head k target prev)
  unfolding Update.remove_target Methods.remove_target
  remove_target-Ending s F k target prev same fuel = Ending-do (set_removed-alone s target) (elim [
    | wrong e ↦ λ t kept. Ending-Like (Like-done t)
    | right old ↦ λ t kept. Ending-height t _ (
        Ending-do (tag_levels-alone t F target 1 (omega arith)) (elim [
          | wrong other ↦ λ u kept'. Ending-Like (Like-crash u)
          | right top ↦ λ u kept'.
              unlink_at-Ending u target _ prev _ _ (kept'.2 ∙ kept.2 ∙ same)
                (λ v. Ending-Like (Like-done v))
                (λ i v kept''. Ending-Like (
                  Like-do
                    (find_at-alone v k F (kept''.2 ∙ kept'.2 ∙ kept.2 ∙ same)
                      (omega (arith, kept, kept', kept'')))
                    (λ at w last. Like-done w)))
        ]))
  ])

  remove_at-Ending :
      (s : SkipList V) (head : Ptr) (F k : ℕ) (target : Option Ptr) (prev : Pairs)
      → s.head ≡ head
      → s.len + 1 + enough s < F
      → Ending s
          (Update.remove_at quiet k target prev)
          (elim target [ none ↦ done none | some p ↦ Methods.remove_target F head k p prev ])
  unfolding Update.remove_at
  remove_at-Ending s head F k none prev same fuel = Ending-Like (Like-done s)
  remove_at-Ending s head F k (some p) prev same fuel = remove_target-Ending s F k p prev same fuel

  pub remove-Ending :
      (s : SkipList V) (k F : ℕ)
      → s.len + 1 + enough s < F
      → Ending s (Update.remove quiet k) (Methods.remove F s.head k)
  unfolding Update.remove Methods.remove
  remove-Ending s k F fuel =
      Ending-do (find-alone s k F fuel)
        (λ at t kept. remove_at-Ending t s.head F k at.target at.prev kept.2 (omega (arith, kept)))
