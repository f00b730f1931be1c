-- ===== src/Threads/Alone/Marking.antt =====
-- How a program that runs alone marks a node as removed.
use skippy_rs.Base.{
  ℕ, zero, suc, ◌≡◌, refl, ◌<◌, inl, inr, arith, Bool-cases, true, false, Cmd, ok, fault, and_then,
  ◌==◌, eq_self, ap, sym, eq→test, ne→not_eq,
}
use native.Mathlib.Decide.{ℕ_discrete}
use skippy_rs.Node
use skippy_rs.Node.{Result, right, wrong, height, set_har_with, usize}
use skippy_rs.Store.{Ptr, Link, link_to, SkipList, Op, load_height, deref, on_header, update}
use skippy_rs.Race.{set_flag}
use skippy_rs.Removal
use skippy_rs.Threads.{
  Prog, done, load, exchange, read_header, write_header, flag, run_op, exchange_link,
}
use skippy_rs.Threads.Methods
use skippy_rs.Threads.Alone.{
  alone, Like, Like-do, Like-done, Like-at, Like-header, Like-crash, load_link-cases,
  store_link-cases, deref-cases,
}

module _ {V : Type 0} (s : SkipList V) where
  -- A word that is written as it was.
  same_header : (p : Ptr) → s ≡ record s { header = update s.header p (s.header p) }
  same_header p = λ i. record s { header = λ a. at a i }
    where
      at : (a : Ptr) → s.header a ≡ update s.header p (s.header p) a
      at a = elim (ℕ_discrete a p) [ yes e ↦ rw (eq→test e, e) refl | no n ↦ rw (ne→not_eq n) refl ]

  flagged-alone :
      (p : Ptr)
      → deref p s ≡ ok tt s
      → (set_flag (s.header p) == s.header p) ≡ false
      → {g : Result ℕ ℕ → Prog (Result ℕ (Unit {0}))}
      → g (right (s.header p)) ≡ done (right (s.header p))
      → Like s (on_header p Node.set_removed) (write_header p (flag (s.header p)) g)
  unfolding on_header Node.set_removed set_har_with alone run_op
  flagged-alone p e t {g = g} after = record {
    agrees = rw (e, t, eq_self (s.header p), after) (inr (refl, (refl, refl, refl)));
  }

  header_fault :
      {A : Type 0} (p : Ptr) (c : Cmd ℕ A) {f : ℕ → Prog A}
      → deref p s ≡ fault
      → Like s (on_header p c) (read_header p f)
  unfolding on_header alone
  header_fault p c e = record { agrees = rw e (inr (refl, tt)) }

  refused :
      (p : Ptr)
      → deref p s ≡ ok tt s
      → (set_flag (s.header p) == s.header p) ≡ true
      → on_header p Node.set_removed s ≡ ok (wrong tt) s
  unfolding on_header Node.set_removed set_har_with
  refused p e t = rw (e, t) (ap (ok (wrong tt)) (sym (same_header p)))

  pub set_removed-alone : (p : Ptr) → Like s (on_header p Node.set_removed) (Methods.set_removed p)
  unfolding Methods.set_removed
  set_removed-alone p = elim (deref-cases s p) [
    | inl e ↦ header_fault p _ e
    | inr e ↦ Like-header s e (elim (Bool-cases (set_flag (s.header p) == s.header p)) [
      | inl t ↦ rw t (Like-at s {c' = λ u. ok (wrong tt) u} (refused p e t) (Like-done s))
      | inr t ↦ rw t (flagged-alone p e t refl)
    ])
  ]

  -- The one exchange of `compare_exchange_tag`.
  exchanged-alone :
      (p : Ptr) (l tag : ℕ) {g : Result Link Link → Prog (Result ℕ ℕ)}
      → g (right (s.link p l)) ≡ done (right tag)
      → (((s.link p l).tag == 0) ≡ false
          → Like s (λ u. ok (wrong (s.link p l).tag) u) (g (wrong (s.link p l))))
      → Like s
          (Removal.exchange_tag p l 0 tag)
          (load p l (λ k. exchange p l (link_to k.ptr 0) (link_to k.ptr tag) g))
  unfolding Removal.exchange_tag exchange_link alone
  exchanged-alone p l tag won lost = record {
    agrees = elim (load_link-cases s p l) [
      | inl e ↦ rw e (inr (refl, tt))
      | inr e ↦ elim (Bool-cases ((s.link p l).tag == 0)) [
        | inl t ↦ elim (store_link-cases s p l (link_to (s.link p l).ptr tag)) [
          | inl f ↦ rw (e, e, eq_self (s.link p l).ptr, t, f) (inr (refl, tt))
          | inr f ↦ rw (e, e, eq_self (s.link p l).ptr, t, f, won) (inr (refl, (refl, refl, refl)))
        ]
        | inr t ↦ rw (e, e, eq_self (s.link p l).ptr, t) (lost t).agrees
      ]
    ];
  }

  exchange_tag-alone :
      (F : ℕ) (p : Ptr) (l tag : ℕ)
      → 0 < F
      → Like s (Removal.exchange_tag p l 0 tag) (Methods.exchange_tag F p l 0 tag)
  unfolding Methods.exchange_tag Methods.tag_loop
  exchange_tag-alone zero p l tag pos = absurd (omega arith)
  exchange_tag-alone (suc F) p l tag pos = exchanged-alone p l tag refl (λ t. rw t (Like-done s))

module _ {V : Type 0} where
  tag_down-alone :
      (s : SkipList V) (F : ℕ) (p : Ptr) (tag l : ℕ)
      → 0 < F
      → Like s (Removal.tag_down p tag l) (Methods.tag_down F p tag l)
  unfolding Removal.tag_down Methods.tag_down
  tag_down-alone s F p tag zero pos = Like-done s
  tag_down-alone s F p tag (suc l) pos = Like-do (exchange_tag-alone s F p l tag pos) (elim [
    | right old ↦ λ t kept. tag_down-alone t F p tag l pos
    | wrong other ↦ λ t kept. Like-done t
  ])

  -- A read of the height of a node.
  pub Like-height :
      {B : Type 0} (s : SkipList V) {p : Ptr} (f : ℕ → Op V B) {g : ℕ → Prog B}
      → Like s (f (height (s.header p))) (g (s.header p))
      → Like s (λ t. and_then (load_height p t) f) (read_header p g)
  unfolding load_height alone
  Like-height s {p = p} f after = record {
    agrees = elim (deref-cases s p) [ inl e ↦ rw e (inr (refl, tt)) | inr e ↦ rw e after.agrees ];
  }

  pub tag_levels-alone :
      (s : SkipList V) (F : ℕ) (p : Ptr) (tag : ℕ)
      → 0 < F
      → Like s (Removal.tag_levels p tag) (Methods.tag_levels F p tag)
  unfolding Removal.tag_levels Methods.tag_levels
  tag_levels-alone s F p tag pos = Like-height s _ (
      Like-do (tag_down-alone s F p tag _ pos) (elim [
        | right all ↦ λ t kept. Like-height t _ (Like-done t)
        | wrong other ↦ λ t kept. Like-done t
      ]))

  pub entry_remove-alone :
      (s : SkipList V) (F : ℕ) (p : Ptr)
      → 0 < F
      → Like s (Removal.entry_remove p) (Methods.entry_remove F p)
  unfolding Removal.entry_remove Methods.entry_remove
  entry_remove-alone s F p pos = Like-do (set_removed-alone s p) (elim [
    | wrong e ↦ λ t kept. Like-done t
    | right old ↦ λ t kept.
        Like-do (tag_levels-alone t F p 1 pos)
          (elim [ right n ↦ λ u kept'. Like-done u | wrong other ↦ λ u kept'. Like-crash u ])
  ])

  pub try_remove_and_tag-alone :
      (s : SkipList V) (F : ℕ) (p : Ptr)
      → 0 < F
      → Like s (Removal.try_remove_and_tag p) (Methods.try_remove_and_tag F p)
  unfolding Removal.try_remove_and_tag Methods.try_remove_and_tag
  try_remove_and_tag-alone s F p pos = Like-do (set_removed-alone s p) (elim [
    | wrong e ↦ λ t kept. Like-done t
    | right old ↦ λ t kept.
        Like-do (tag_levels-alone t F p 1 pos)
          (elim [ right n ↦ λ u kept'. Like-done u | wrong other ↦ λ u kept'. Like-done u ])
  ])
