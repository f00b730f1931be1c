-- ===== src/Threads/Access.antt =====
-- One access of a safe program keeps the memory, and leaves a safe program.
use skippy_rs.Base.{
  ℕ, ◌+◌, ◌^◌, ◌%◌, ◌≡◌, refl, ◌∙◌, ◌<◌, ◌≤◌, arith, true, List, Run, ok, fault, panic, abort,
  out_of_fuel, and_then, eq→test, ne→not_eq,
}
use native.Mathlib.Decide.{ℕ_discrete}
use skippy_rs.Node.{
  Result, right, wrong, usize, max_levels, height, refs, add_ref, try_add_ref, sub_ref, try_sub_ref,
}
use skippy_rs.Node.Header.{height-mod}
use skippy_rs.Base.Bits.{bit_or_high}
use skippy_rs.Store.{Ptr, Link, SkipList, update, update_link, on_header, in_header}
use skippy_rs.Store.Access.{deref-ok, load_link-ok, load_key-ok}
use skippy_rs.Removal.Marks.{store_link-ok}
use skippy_rs.Unlinking.{retire_node}
use skippy_rs.Race.{set_flag}
use skippy_rs.Threads.{
  HeaderOp, add, try_add, sub, try_sub, flag, run_op, exchange_link, advance, Prog, done, spent,
  crash, load, exchange, read_key, read_header, write_header, read_max, write_max, read_len,
  add_len, retire,
}
use skippy_rs.Threads.Safe.{World, Room, Leads, Safe, Inv, Outcome}

-- A write of a header word keeps the height.
abbrev KeepsHeight : ℕ → Run ℕ (Result ℕ ℕ) → Type 0
KeepsHeight w (ok r v) = (v < usize) × (height v ≡ height w)
KeepsHeight w panic = Unit
KeepsHeight w fault = ⊥
KeepsHeight w abort = ⊥
KeepsHeight w out_of_fuel = ⊥

run_op-KeepsHeight : (o : HeaderOp) (w : ℕ) → w < usize → KeepsHeight w (run_op o w)
unfolding run_op add_ref try_add_ref sub_ref try_sub_ref
run_op-KeepsHeight add w small = (omega arith, rw (height-mod, height-mod) (omega arith))
run_op-KeepsHeight try_add w small = elim (ℕ_discrete (refs w) 0) [
  | yes z ↦ rw (eq→test z) (small, refl)
  | no n ↦ rw (ne→not_eq n) (omega arith, rw (height-mod, height-mod) (omega arith))
]
run_op-KeepsHeight sub w small = (omega arith, rw (height-mod, height-mod) (omega arith))
run_op-KeepsHeight try_sub w small = elim (ℕ_discrete (refs w) 0) [
  | yes z ↦ rw (eq→test z) tt
  | no n ↦ rw (ne→not_eq n) (omega arith, rw (height-mod, height-mod) (omega arith))
]
run_op-KeepsHeight (flag old) w small = elim (ℕ_discrete w old) [
  | yes z ↦
      let flagged : set_flag w ≡ w % 2 ^ 63 + 2 ^ 63 = bit_or_high 63 w small in
      rw (eq→test z, ← z, flagged) (omega arith, rw (height-mod, height-mod) (omega arith))
  | no n ↦ rw (ne→not_eq n) (small, refl)
]

module _ {V : Type 0} (w : World) {s : SkipList V} (inv : Inv w s) where
  -- A memory with the same nodes.
  Inv-same :
      (t : SkipList V)
      → t.head ≡ s.head
      → ((p : Ptr) → t.live p ≡ s.live p)
      → ((p : Ptr) → w.known p ≡ true → (t.header p < usize) × (height (t.header p) ≡ w.tall p))
      → ((p : Ptr) → t.key p ≡ s.key p)
      → ((p : Ptr) (l : ℕ) → Room w p l → Leads w p l (t.link p l).ptr)
      → (0 < t.max_height) × (t.max_height ≤ max_levels)
      → Inv w t
  Inv-same t head live header key links max = record {
    head_is = head ∙ inv.head_is;
    live_is = λ p. live p ∙ inv.live_is p;
    at = λ p k. record {
      ne_null = (inv.at p k).ne_null;
      live = live p ∙ (inv.at p k).live;
      header = (header p k).1;
    };
    small = λ p k. (header p k).0;
    keyed = λ p k ne. key p ∙ inv.keyed p k ne;
    links = links;
    max_pos = max.0;
    max_le = max.1;
  }

  headers : (p : Ptr) → w.known p ≡ true → (s.header p < usize) × (height (s.header p) ≡ w.tall p)
  headers p k = (inv.small p k, (inv.at p k).header)

  -- Everything but the nodes and their links is free, the height in use within its bounds.
  Inv-max :
      (len max : ℕ) (retired : List Ptr)
      → (0 < max) × (max ≤ max_levels)
      → Inv w (record s { len = len; max_height = max; retired = retired })
  Inv-max len max retired fits = Inv-same _ refl (λ p. refl) headers (λ p. refl) inv.links fits

  Inv-header :
      (p v : ℕ)
      → (v < usize) × (height v ≡ height (s.header p))
      → w.known p ≡ true
      → Inv w (record s { header = update s.header p v })
  Inv-header p v keeps k =
      Inv-same _ refl (λ q. refl)
        (λ q h. elim (ℕ_discrete q p) [
          | yes e ↦ rw (eq→test e) (keeps.0, keeps.1 ∙ (rw (← e) (inv.at q h).header))
          | no n ↦ rw (ne→not_eq n) (headers q h)
        ])
        (λ q. refl) inv.links (inv.max_pos, inv.max_le)

  Inv-link :
      (p l : ℕ) (n : Link)
      → Leads w p l n.ptr
      → Inv w (record s { link = update_link s.link p l n })
  Inv-link p l n leads =
      Inv-same _ refl (λ q. refl) headers (λ q. refl)
        (λ q m room. elim (ℕ_discrete q p) [
          | yes e ↦ elim (ℕ_discrete m l) [
            | yes f ↦ rw (eq→test e, eq→test f, e, f) leads
            | no g ↦ rw (eq→test e, ne→not_eq g) (inv.links q m room)
          ]
          | no g ↦ rw (ne→not_eq g) (inv.links q m room)
        ])
        (inv.max_pos, inv.max_le)

module _ {V A : Type 0} (w : World) (Q : A → Type 0) {s : SkipList V} (inv : Inv w s) where
  written :
      (p : Ptr) (k : Result ℕ ℕ → Prog A)
      → w.known p ≡ true
      → (r : Run ℕ (Result ℕ ℕ)) → KeepsHeight (s.header p) r
      → ((a : Result ℕ ℕ) → Safe w Q (k a))
      → Outcome w Q (and_then (in_header p s r) (λ a. ok (k a)))
  unfolding Safe
  written p k known (ok a v) keeps after = (Inv-header w inv p v keeps known, after a)
  written p k known panic keeps after = tt
  written p k known fault keeps after = keeps
  written p k known abort keeps after = keeps
  written p k known out_of_fuel keeps after = keeps

  pub advance-Safe : (m : Prog A) → Safe w Q m → Outcome w Q (advance m s)
  unfolding advance Safe exchange_link retire_node on_header
  advance-Safe (done a) q = (inv, q)
  advance-Safe spent q = (inv, tt)
  advance-Safe crash q = tt
  advance-Safe (load p l k) q =
      rw (load_link-ok (inv.at p q.0.0) q.0.1) (inv, q.1 _ (inv.links p l q.0))
  advance-Safe (exchange p l e n k) q =
      rw (load_link-ok (inv.at p q.0.0) q.0.1) (elim (ℕ_discrete (s.link p l).ptr e.ptr) [
        | no ne ↦ rw (ne→not_eq ne) (inv, q.2 (wrong _) (inv.links p l q.0))
        | yes same ↦ elim (ℕ_discrete (s.link p l).tag e.tag) [
          | no ne ↦ rw (eq→test same, ne→not_eq ne) (inv, q.2 (wrong _) (inv.links p l q.0))
          | yes tags ↦
              let leads : Leads w p l e.ptr = rw (← same) (inv.links p l q.0) in
              rw (eq→test same, eq→test tags, store_link-ok l n (inv.at p q.0.0) q.0.1)
                (Inv-link w inv p l n (q.1 leads), q.2 (right _) leads)
        ]
      ])
  advance-Safe (read_key p k) q = rw (load_key-ok (inv.at p q.0) (inv.keyed p q.0 q.1)) (inv, q.2)
  advance-Safe (read_header p k) q = rw (deref-ok (inv.at p q.0)) (inv, q.1 _ (inv.at p q.0).header)
  advance-Safe (write_header p o k) q =
      rw (deref-ok (inv.at p q.0))
        (written p k q.0 (run_op o (s.header p)) (run_op-KeepsHeight o _ (inv.small p q.0)) q.1)
  advance-Safe (read_max k) q = (inv, q _ inv.max_pos inv.max_le)
  advance-Safe (write_max h k) q = (Inv-max w inv s.len h s.retired (q.0, q.1), q.2)
  advance-Safe (read_len k) q = (inv, q _)
  advance-Safe (add_len n k) q =
      (Inv-max w inv _ s.max_height s.retired (inv.max_pos, inv.max_le), q)
  advance-Safe (retire p k) q = (Inv-max w inv s.len s.max_height _ (inv.max_pos, inv.max_le), q)
