-- ===== src/Threads/Leak.antt =====
-- `link_nodes` of src/internal/sync/mod.rs among other threads: the exchange of a level that fails after the
-- reference of the level is counted.
use skippy_rs.Base.{
  ℕ, zero, suc, ◌+◌, ◌≡◌, refl, ◌∙◌, ◌≢◌, ◌<◌, ◌≤◌, ◌^◌, arith, inl, inr, true, false, Bool, ◌⊎◌,
  ok, and_then, some, ne→not_eq, eq→test, eq_self, gt→not_leb,
}
use native.Mathlib.Decide.{ℕ_discrete}
use skippy_rs.Node
use skippy_rs.Node.{Result, right, wrong, max_levels, removed, refs}
use skippy_rs.Node.Header.{word, fields, try_add_ref_lem, sub_ref_lem}
use skippy_rs.Store.{Ptr, Link, link_to, SkipList, Op, update, update_link, on_header}
use skippy_rs.Store.Access.{At, At-links, load_link-ok, load_key-ok, deref-ok}
use skippy_rs.Removal.Marks.{store_link-ok}
use skippy_rs.Sync.{Pairs}
use skippy_rs.Sync.Link.{Beyond}
use skippy_rs.Threads.{
  Prog, done, exchange, write_header, sub, advance, ◌>>=◌, run_op, exchange_link,
}
use skippy_rs.Threads.Insert.{overtaken, count_level, link_levels}
use skippy_rs.Threads.Alone.{alone}

module _ {V A : Type 0} where
  -- The first accesses of a program.
  abbrev pub accesses : ℕ → Prog A → Op V (Prog A)
  accesses zero m s = ok m s
  accesses (suc n) m s = and_then (advance m s) (accesses n)

module _ {V : Type 0} {s : SkipList V} {new h k : ℕ} (at : At s new h)
    (key : s.key new ≡ some k) where
  overtaken-accesses :
      {B : Type 0} (next : Ptr)
      → Beyond s new k next
      → (more : ℕ → ℕ) × ((a : ℕ) (f : Bool → Prog B)
          → accesses (more a) (overtaken new next >>= f) s ≡ accesses a (f false) s)
  unfolding overtaken ◌>>=◌ advance
  overtaken-accesses next (inl e) = ((λ a. a), λ a f. rw e refl)
  overtaken-accesses next (inr (j, m, at_next, has, lt, ne)) = (
    (λ a. suc (suc a)),
    λ a f.
        rw (ne→not_eq at_next.ne_null, load_key-ok at_next has, load_key-ok at key, gt→not_leb lt)
          refl,
  )

module _ (new : Ptr) (prev : Pairs) (n i : ℕ) where
  -- What is left of `link_levels` once the reference of level `i` is counted.
  abbrev linking : Prog (Result (Unit {0}) ℕ)
  linking = exchange (prev i).0 i (link_to (prev i).1 0) (link_to new 0) (λ q. elim q [
    | wrong now ↦ write_header new sub (λ c. done (wrong i))
    | right before ↦ link_levels new prev n (i + 1)
  ])

module _ {V : Type 0} (new : Ptr) (prev : Pairs) (n i h : ℕ) (low : h ≤ max_levels) where
  linking-fails :
      (t : SkipList V) {m : ℕ}
      → At t new h
      → At t (prev i).0 m
      → i < m
      → ((t.link (prev i).0 i).ptr ≢ (prev i).1) ⊎ ((t.link (prev i).0 i).tag ≢ 0)
      → t.header new ≡ word true 1 h
      → alone (linking new prev n i) t
        ≡ ok (wrong i) (record t { header = update t.header new (word true 0 h) })
  unfolding alone exchange_link run_op on_header
  linking-fails t at at_prev tall fails last =
      elim (ℕ_discrete (t.link (prev i).0 i).ptr (prev i).1) [
        | no ne ↦ rw (load_link-ok at_prev tall, ne→not_eq ne, deref-ok at, last, dropped) refl
        | yes e ↦ elim fails [
          | inl other ↦ absurd (other e)
          | inr tagged ↦
              rw
                (load_link-ok at_prev tall, eq→test e, ne→not_eq tagged, deref-ok at, last, dropped)
                refl
        ]
      ]
    where
      dropped : Node.sub_ref (word true 1 h) ≡ ok (word true 1 h) (word true 0 h)
      dropped = sub_ref_lem true 1 h (omega arith) (omega arith) (omega arith)

  -- A thread in `link_nodes` at a level above the lowest of a new node that is not removed and has references,
  -- and what the memory is after other threads have removed the node and dropped every reference but the one
  -- that this thread counts, where the predecessor leads elsewhere. After some accesses the thread has counted
  -- the reference. When it goes on in the changed memory, it ends with an error, leaves a count of 0, and does
  -- not retire the node.
  pub link_levels-unretired :
      {s : SkipList V} {c k : ℕ} (t : SkipList V) (m : ℕ)
      → At s new h
      → s.key new ≡ some k
      → Beyond s new k (prev i).1
      → 0 < i
      → i < h
      → s.header new ≡ word false c h
      → 0 < c
      → c + 1 < 2 ^ 57
      → (s.link new i).tag ≡ 0
      → At t new h
      → At t (prev i).0 m
      → i < m
      → ((t.link (prev i).0 i).ptr ≢ (prev i).1) ⊎ ((t.link (prev i).0 i).tag ≢ 0)
      → t.header new ≡ word true 1 h
      → (a : ℕ) × (p : Prog (Result (Unit {0}) ℕ)) × (s1 : SkipList V) × (t' : SkipList V)
        × (accesses a (link_levels new prev (suc n) i) s ≡ ok p s1)
        × (s1.header new ≡ word false (c + 1) h)
        × (alone p t ≡ ok (wrong i) t')
        × (refs (t'.header new) ≡ 0)
        × (t'.retired ≡ t.retired)
  unfolding link_levels count_level advance exchange_link run_op on_header ◌>>=◌
  link_levels-unretired {s = s} {c = c} {k = k} t m at key beyond above room packed some_ref few
        untagged at_t at_p tall fails last =
      let (more, run) = overtaken-accesses at key {B = Result (Unit {0}) ℕ} (prev i).1 beyond in
      let f : Ptr → ℕ → Link = update_link s.link new i (link_to (prev i).1 0) in
      let alive : removed (word false c h) ≡ false =
        (fields false c h (omega arith) (omega arith)).2 in
      (
        suc (suc (more 2)),
        linking new prev n i,
        record s { link = f; header = update s.header new (word false (c + 1) h) },
        record t { header = update t.header new (word true 0 h) },
        rw (load_link-ok at room, deref-ok at, packed, alive)
            (run 2 _
              ∙ rw
                  (
                    load_link-ok at room,
                    eq_self (s.link new i).ptr,
                    untagged,
                    store_link-ok i (link_to (prev i).1 0) at room,
                    ne→not_eq {a = i} {b = 0} (omega arith),
                    deref-ok (At-links at f),
                    packed,
                    try_add_ref_lem false c h (omega arith) (omega arith) few,
                    ne→not_eq {a = c} {b = 0} (omega arith),
                  )
                  refl),
        rw (eq_self new) refl,
        linking-fails t at_t at_p tall fails last,
        rw (eq_self new) (fields true 0 h (omega arith) (omega arith)).1,
        refl,
      )
