-- ===== src/Threads/Towers.antt =====
-- Threads that call methods of one list, in any interleaving of their atomic accesses: what holds of the
-- memory, and what the calls return.
use skippy_rs.Base.{ℕ, ◌≡◌, refl, ◌∙◌, eq→test, ne→not_eq, ◌≢◌, Option, some, fault}
use mathlib.Core.Path.{subst}
use native.Mathlib.Decide.{ℕ_discrete}
use skippy_rs.Store.{Ptr, SkipList}
use skippy_rs.Threads.{done, advance, System, Step, takes, Reach, here, next}
use skippy_rs.Threads.Calls.{
  Call, asked, start, IsNode, Towers, Fits, world, program-Safe, world-Inv, Inv-Towers,
}
use skippy_rs.Threads.Safe.{World, Holds, Safe, Inv, Outcome}
use skippy_rs.Threads.Access.{advance-Safe}

module _ {V A : Type 0} (w : World) (Q : ℕ → A → Type 0) where
  -- What each thread may rely on holds again after a step of any of them.
  AllSafe : System V A → Type 0
  AllSafe s = Inv w s.store × ((i : ℕ) → Safe w (Q i) (s.pc i))

  Step-AllSafe : {s t : System V A} → Step s t → AllSafe s → AllSafe t
  unfolding AllSafe
  Step-AllSafe {s = s} (takes i {p = p} e) all =
      let after : Inv w _ × Safe w (Q i) p =
        subst (Outcome w (Q i)) e (advance-Safe w (Q i) all.0 (s.pc i) (all.1 i)) in
      (
        after.0,
        λ j. elim (ℕ_discrete j i) [
          | yes same ↦ rw (eq→test same, same) after.1
          | no other ↦ rw (ne→not_eq other) (all.1 j)
        ],
      )

  Reach-AllSafe : {s t : System V A} → Reach s t → AllSafe s → AllSafe t
  Reach-AllSafe here all = all
  Reach-AllSafe (next r step) all = Step-AllSafe step (Reach-AllSafe r all)

module _ {V : Type 0} {s : SkipList V} (towers : Towers s) (f : ℕ) (calls : ℕ → Call)
    (fits : (i : ℕ) → Fits s (calls i)) {t : System V (Option Ptr)}
    (reach : Reach (start f s calls) t) where
  reached : AllSafe (world s towers) (λ i. Holds (world s towers) (asked (calls i))) t
  unfolding AllSafe
  reached =
      Reach-AllSafe _ _ reach (world-Inv towers, λ i. program-Safe towers f (calls i) (fits i))

  -- While no node is freed, so that every node that is retired stays allocated, and from a memory that is well
  -- formed: threads of which each runs one `insert` of an allocated node, `remove`,
  -- `get` or `Entry::remove` keep the memory well formed in any interleaving of their accesses: each link
  -- is null or leads to an allocated node that has the link's level, and on the lowest level to a key that is
  -- not smaller than the node's own. No thread's next access is out of bounds, through null or of a node that
  -- is not there.
  pub threads-Towers : Towers t.store × ((i : ℕ) → advance (t.pc i) t.store ≢ fault)
  unfolding AllSafe
  threads-Towers = (
    Inv-Towers towers t.store reached.0,
    λ i bad.
        subst (Outcome (world s towers) _) bad (advance-Safe _ _ reached.0 (t.pc i) (reached.1 i)),
  )

  -- While no node is freed, so that every node that is retired stays allocated, and from a memory that is well
  -- formed: threads of which each runs one `insert` of an allocated node, `remove`, `get` or `Entry::remove`, in
  -- any interleaving of their accesses: an entry that a call returns is an allocated node, not the head, and
  -- holds the key that was asked for.
  pub answer-IsNode :
      (i : ℕ) (p : Ptr) → t.pc i ≡ done (some p) → IsNode t.store (asked (calls i)) p
  unfolding AllSafe Safe
  answer-IsNode i p ended =
      let entry : Holds (world s towers) (asked (calls i)) (some p) =
        subst (Safe (world s towers) _) ended (reached.1 i) in
      (
        reached.0.live_is p ∙ entry.0.0.0,
        λ h. entry.0.1 (h ∙ reached.0.head_is),
        rw (reached.0.keyed p entry.0.0.0 entry.0.1, entry.1) refl,
      )
